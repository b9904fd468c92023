-- ===== src/Codec/Decode/Streaming.antt =====
-- `decode_packet` of src/codec.rs on a buffer that fills up: what it takes, what it leaves, and what
-- it answers before the frame is there.
use pipistrelle.Prelude.{
  ℕ, suc, zero, ◌+◌, ◌≤◌, ◌<◌, ◌≡◌, refl, sym, ◌∙◌, ap, arith, inl, inr, Bool-cases, ltb, ltb→le,
  ltb→lt, List, [], ◌∷◌, ◌++◌, length, length-append, length-take, take, drop, take-append_le,
  drop-append_le, length-drop,
}
use pipistrelle.Codec.Outcome.{CodecError, ok, err, incomplete, bind_err, ◌>>=◌, bind_ok}
use pipistrelle.Codec.Wire.{read_u8_lem}
use pipistrelle.Codec.Outcome.Safe.{Returns-cases}
use pipistrelle.Codec.Read.Safety.{decode_varint-Returns}
use pipistrelle.Codec.Read.{read_u8}
use pipistrelle.Codec.Varint.{decode_varint}
use pipistrelle.Codec.Varint.Bounds.{decode_varint-read}
use pipistrelle.Codec.Varint.Cut.{decode_varint-append, decode_varint-take}
use pipistrelle.Codec.Packet.{Packet}
use pipistrelle.Codec.Decode.{decode_packet}
use pipistrelle.Codec.Decode.Framing.{
  IsFrame, framed, framed_size, decode_packet-framed, decode_packet_short,
}

-- A buffer that holds a frame: a header's byte, a length, and as many bytes as it announces.
pub record HasFrame (raw : List ℕ) : Type 0 where
  pub header : ℕ
  pub hs : List ℕ
  pub len : ℕ
  pub read : ℕ
  pub starts : raw ≡ header ∷ hs
  pub is_frame : IsFrame hs len read

decode_packet_nil : decode_packet [] ≡ err incomplete
unfolding decode_packet read_u8 ◌>>=◌
decode_packet_nil = refl

-- A length that cannot be read is the packet's error.
pub decode_packet_refused :
    (header : ℕ) (hs : List ℕ) {e : CodecError}
    → decode_varint hs ≡ err e
    → decode_packet (header ∷ hs) ≡ err e
unfolding decode_packet
decode_packet_refused header hs h = bind_ok _ (read_u8_lem header hs) (bind_err _ h)

-- What a frame is taken to be depends on the frame alone: bytes behind it change nothing, whether
-- it decodes, is refused, or is called incomplete.
pub decode_packet-append :
    (raw more : List ℕ) → HasFrame raw → decode_packet (raw ++ more) ≡ decode_packet raw
unfolding framed
decode_packet-append raw more f =
    let whole : IsFrame (f.hs ++ more) f.len f.read = record {
      announced = decode_varint-append f.hs more f.is_frame.announced;
      complete = omega (arith, length-append f.hs more, f.is_frame.complete);
    } in
    let in_buf : f.read ≤ length f.hs = omega (arith, f.is_frame.complete) in
    let in_rest : f.len ≤ length (drop f.read f.hs) =
      omega (arith, length-drop f.read f.hs, f.is_frame.complete) in
    rw f.starts (
      decode_packet-framed f.header (f.hs ++ more) f.len f.read whole
      ∙ rw
          (
            drop-append_le f.read f.hs more in_buf,
            take-append_le f.len (drop f.read f.hs) more in_rest,
          )
          (sym (decode_packet-framed f.header f.hs f.len f.read f.is_frame)))

-- Where `decode_packet` returns, the buffer holds a frame, which is as long as it says.
decode_packet-HasFrame :
    (raw : List ℕ) {p : Packet} {n : ℕ}
    → decode_packet raw ≡ ok (p, n)
    → (f : HasFrame raw) × (n ≡ 1 + f.read + f.len)
decode_packet-HasFrame [] e = cc decode_packet_nil
decode_packet-HasFrame (h ∷ hs) {p} {n} e =
    elim (Returns-cases (decode_varint hs) (decode_varint-Returns hs)) [
      | inr (x, refused) ↦ cc (decode_packet_refused h hs refused)
      | inl ((len, read), announced) ↦ elim (Bool-cases (ltb (length hs) (read + len))) [
        | inl short ↦ cc (decode_packet_short h hs len read announced (ltb→lt _ _ short))
        | inr enough ↦
            let f : IsFrame hs len read = record {
              announced = announced;
              complete = ltb→le _ _ enough;
            } in
            let size = framed_size h hs len read (sym (decode_packet-framed h hs len read f) ∙ e) in
            (
              record { header = h; hs = hs; len = len; read = read; starts = refl; is_frame = f },
              size,
            )
      ]
    ]

-- A packet takes at least its header's byte and a byte of length, and no more than there is.
pub decode_packet_bounds :
    (raw : List ℕ) {p : Packet} {n : ℕ} → decode_packet raw ≡ ok (p, n) → (2 ≤ n) × (n ≤ length raw)
decode_packet_bounds raw e =
    let (f, size) = decode_packet-HasFrame raw e in
    let (lo, _) = decode_varint-read f.hs f.len f.read f.is_frame.announced in
    (omega (arith, size, lo), omega (arith, size, f.is_frame.complete, ap length f.starts))

-- Bytes behind a packet change neither the packet nor how much it takes.
pub decode_packet-append_ok :
    (raw more : List ℕ) {p : Packet} {n : ℕ}
    → decode_packet raw ≡ ok (p, n)
    → decode_packet (raw ++ more) ≡ ok (p, n)
decode_packet-append_ok raw more e =
    decode_packet-append raw more (decode_packet-HasFrame raw e).0 ∙ e

-- Every proper part of what a packet takes is incomplete, so the reader waits for the rest.
pub decode_packet-take :
    (raw : List ℕ) (i : ℕ) {p : Packet} {n : ℕ}
    → decode_packet raw ≡ ok (p, n)
    → i < n
    → decode_packet (take i raw) ≡ err incomplete
decode_packet-take raw zero e h = decode_packet_nil
decode_packet-take raw (suc i) e h =
    let (f, size) = decode_packet-HasFrame raw e in
    let (enough, few) = decode_varint-take f.hs i f.is_frame.announced in
    rw f.starts (elim (Bool-cases (ltb i f.read)) [
      | inl e ↦ decode_packet_refused f.header (take i f.hs) (few (ltb→lt _ _ e))
      | inr e ↦
          let within : i ≤ length f.hs = omega (arith, size, f.is_frame.complete) in
          decode_packet_short f.header (take i f.hs) f.len f.read (enough (ltb→le _ _ e))
            (omega (arith, size, length-take i f.hs within))
    ])
