-- ===== src/Codec/Decode/Framing.antt =====
-- The framing of `decode_packet` of src/codec.rs, apart from the packets' bodies.
use pipistrelle.Prelude.{
  ℕ, suc, ◌+◌, ◌-◌, ◌/◌, ◌≤◌, ◌<◌, ◌≡◌, refl, arith, bit_and, le→ltb, lt→ltb, List, ◌∷◌, length,
  length-drop, take, drop,
}
use pipistrelle.Codec.Outcome.{Result, ok, err, panic, stuck, incomplete, bind_ok, ◌>>=◌}
use pipistrelle.Codec.Wire.{read_u8_lem}
use pipistrelle.Codec.Read.Safety.{slice_from_lem, slice_to_lem}
use pipistrelle.Codec.Varint.{decode_varint}
use pipistrelle.Codec.Varint.Bounds.{decode_varint-read}
use pipistrelle.Codec.Packet.{Packet}
use pipistrelle.Codec.Decode.{decode_body, decode_packet}

-- A frame begins `buf`: behind the header's byte, `read` bytes of length and `len` of payload.
pub record IsFrame (hs : List ℕ) (len read : ℕ) : Type 0 where
  pub announced : decode_varint hs ≡ ok (len, read)
  pub complete : read + len ≤ length hs

-- What the frame decodes to.
unfoldable pub framed : ℕ → List ℕ → ℕ → ℕ → Result (Packet × ℕ)
framed header hs len read =
    decode_body (header / 16) (bit_and header 0x0f) len (take len (drop read hs)) >>= λ packet.
    ok (packet, 1 + read + len)

bind_size :
    (m : Result Packet) (k : ℕ) {p : Packet} {n : ℕ}
    → ◌>>=◌ {B = Packet × ℕ} m (λ packet. ok (packet, k)) ≡ ok (p, n)
    → n ≡ k
unfolding ◌>>=◌
bind_size (ok a) k e = ground arith
bind_size (err x) k e = cc
bind_size panic k e = cc
bind_size stuck k e = cc

pub framed_size :
    (header : ℕ) (hs : List ℕ) (len read : ℕ) {p : Packet} {n : ℕ}
    → framed header hs len read ≡ ok (p, n)
    → n ≡ 1 + read + len
unfolding framed
framed_size header hs len read e = bind_size _ (1 + read + len) e

module _ (header : ℕ) (hs : List ℕ) (len read : ℕ) where
  -- The outcome on a complete frame is that of its body.
  pub decode_packet-framed :
      IsFrame hs len read → decode_packet (header ∷ hs) ≡ framed header hs len read
  unfolding decode_packet framed
  decode_packet-framed f =
      let in_buf = (decode_varint-read hs len read f.announced).1 in
      let size : suc (length hs) - length (drop read hs) + len ≡ 1 + read + len =
        omega (arith, length-drop read hs) in
      bind_ok _ (read_u8_lem header hs) (
        bind_ok _ f.announced (
          bind_ok _ (slice_from_lem read hs in_buf) (
            rw (le→ltb (length (drop read hs)) len (omega (arith, length-drop read hs, f.complete)))
              (bind_ok _
                (slice_to_lem len (drop read hs) (omega (arith, length-drop read hs, f.complete)))
                (rw size)))))

  -- A frame that is announced and not there yet is incomplete.
  pub decode_packet_short :
      decode_varint hs ≡ ok (len, read)
      → length hs < read + len
      → decode_packet (header ∷ hs) ≡ err incomplete
  unfolding decode_packet
  decode_packet_short e short =
      let in_buf = (decode_varint-read hs len read e).1 in
      bind_ok _ (read_u8_lem header hs) (
        bind_ok _ e (
          bind_ok _ (slice_from_lem read hs in_buf)
            (rw (lt→ltb (length (drop read hs)) len (omega (arith, length-drop read hs))) refl)))
