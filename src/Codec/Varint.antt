-- ===== src/Codec/Varint.antt =====
-- Variable byte integers of src/codec.rs: seven bits a byte, lowest group first.
pub mod Bytes
pub mod RoundTrip
pub mod Bounds
pub mod Cut
use pipistrelle.Prelude.{
  ℕ, ◌+◌, ◌*◌, ◌/◌, ◌%◌, ◌^◌, ◌<◌, bit_and, bit_or, arith, List, [], ◌∷◌, ◌++◌, leb, ◌==◌,
  if◌then◌else◌,
}
use pipistrelle.Prelude.Order.{lt_wf}
use pipistrelle.Codec.Outcome.{Result, ok, err, incomplete, invalid_varint}
use mathlib.Core.Logic.{dite}
use mathlib.Core.WellFounded.{Acc}
use native.Mathlib.Decide.{dec_lt}

-- The loop of `decode_varint` over the bytes not reached yet; `u32` arithmetic wraps.
unfoldable pub decode_varint_loop : List ℕ → ℕ → ℕ → ℕ → Result (ℕ × ℕ)
decode_varint_loop [] multiplier value bytes_read = err incomplete
decode_varint_loop (byte ∷ buf) multiplier value bytes_read =
    let value' = (value + bit_and byte 127 * multiplier % 2 ^ 32) % 2 ^ 32 in
    let more = decode_varint_loop buf (multiplier * 128 % 2 ^ 32) value' (bytes_read + 1) in
    if bit_and byte 128 == 0
    then ok (value', bytes_read + 1)
    else if leb (128 * 128 * 128) multiplier
    then err invalid_varint
    else more

unfoldable pub decode_varint : List ℕ → Result (ℕ × ℕ)
unfolding decode_varint_loop
decode_varint buf = decode_varint_loop buf 1 0 0

-- The loop of `encode_varint`, whose `value` falls.
unfoldable pub encode_varint_loop : (value : ℕ) → Acc ◌<◌ value → List ℕ → List ℕ
encode_varint_loop value (Acc.intro _ smaller) buf =
    let byte = value % 128 in
    dite (dec_lt 0 (value / 128))
      (λ more.
        encode_varint_loop (value / 128) (smaller (value / 128) (omega arith))
          (buf ++ bit_or byte 128 ∷ []))
      (λ _. buf ++ byte ∷ [])

unfoldable pub encode_varint : ℕ → List ℕ → List ℕ
unfolding encode_varint_loop lt_wf dec_lt
encode_varint value buf = encode_varint_loop value (lt_wf.apply value) buf
