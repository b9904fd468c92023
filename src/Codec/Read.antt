-- ===== src/Codec/Read.antt =====
-- The readers of src/codec.rs: primitive values from the front of a byte slice.
pub mod Safety
use pipistrelle.Prelude.{
  ℕ, ◌+◌, ◌*◌, ◌^◌, List, [], ◌∷◌, length, take, drop, ltb, leb, if◌then◌else◌,
}
use pipistrelle.Codec.Outcome.{Result, Reader, ok, err, panic, incomplete, malformed_packet, ◌>>=◌}
use pipistrelle.Codec.Varint.{decode_varint}
use pipistrelle.Codec.Utf8.{is_utf8}

-- `&buf[n..]` and `&buf[..n]`, which panic past the end.
unfoldable pub slice_from : ℕ → List ℕ → Result (List ℕ)
slice_from n buf = if leb n (length buf) then ok (drop n buf) else panic

unfoldable pub slice_to : ℕ → List ℕ → Result (List ℕ)
slice_to n buf = if leb n (length buf) then ok (take n buf) else panic

unfoldable pub read_u8 : Reader ℕ
read_u8 [] = err incomplete
read_u8 (b ∷ buf) = ok (b, buf)

-- The clauses are the tests on `buf.len()`; the values are those of `from_be_bytes`.
unfoldable pub read_u16 : Reader ℕ
read_u16 (a ∷ b ∷ buf) = ok (a * 2 ^ 8 + b, buf)
read_u16 _ = err incomplete

unfoldable pub read_u32 : Reader ℕ
read_u32 (a ∷ b ∷ c ∷ d ∷ buf) = ok (a * 2 ^ 24 + b * 2 ^ 16 + c * 2 ^ 8 + d, buf)
read_u32 _ = err incomplete

-- `from_utf8(..).map_err(|_| MalformedPacket)`
unfoldable pub from_utf8 : List ℕ → Result (List ℕ)
from_utf8 s = if is_utf8 s then ok s else err malformed_packet

unfoldable pub read_str : Reader (List ℕ)
unfolding read_u16 slice_from slice_to from_utf8
read_str buf = do
  (len, buf) ← read_u16 buf
  if ltb (length buf) len
      then err incomplete
      else do front ← slice_to len buf; s ← from_utf8 front; rest ← slice_from len buf; ok (s, rest)

unfoldable pub read_bytes : Reader (List ℕ)
unfolding read_u16 slice_from slice_to
read_bytes buf = do
  (len, buf) ← read_u16 buf
  if ltb (length buf) len
      then err incomplete
      else do front ← slice_to len buf; rest ← slice_from len buf; ok (front, rest)

-- `let (val, read) = decode_varint(buf)?; buf = &buf[read..];`
unfoldable pub read_varint : Reader ℕ
unfolding decode_varint slice_from
read_varint buf = do (val, read) ← decode_varint buf; rest ← slice_from read buf; ok (val, rest)
