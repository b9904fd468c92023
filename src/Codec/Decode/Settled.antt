-- ===== src/Codec/Decode/Settled.antt =====
-- `decode_packet` of src/codec.rs does not take back an answer when more bytes arrive.
use pipistrelle.Prelude.{
  ℕ, ◌+◌, ◌*◌, ◌%◌, ◌^◌, ◌≡◌, ◌≢◌, refl, sym, ◌∙◌, ap, arith, bit_and, inl, inr, Bool-cases, ltb,
  ltb→le, ltb→lt, List, [], ◌∷◌, ◌++◌, length,
}
use pipistrelle.Codec.Outcome.{CodecError, err, incomplete, ◌>>=◌}
use pipistrelle.Codec.Outcome.Safe.{Returns-cases}
use pipistrelle.Codec.Read.{read_u8}
use pipistrelle.Codec.Read.Safety.{decode_varint-Returns}
use pipistrelle.Codec.Varint.{decode_varint_loop, decode_varint}
use pipistrelle.Codec.Decode.{decode_packet}
use pipistrelle.Codec.Decode.Framing.{IsFrame, decode_packet_short}
use pipistrelle.Codec.Decode.Streaming.{decode_packet_refused, decode_packet-append}

decode_varint_loop_settled :
    (buf more : List ℕ) (m value n : ℕ) {e : CodecError}
    → e ≢ incomplete
    → decode_varint_loop buf m value n ≡ err e
    → decode_varint_loop (buf ++ more) m value n ≡ err e
unfolding decode_varint_loop
decode_varint_loop_settled [] more m value n h r = absurd (h (cc))
decode_varint_loop_settled (b ∷ buf) more m value n h r = ground (
  arith,
  decode_varint_loop_settled buf more (m * 128 % 2 ^ 32)
      ((value + bit_and b 127 * m % 2 ^ 32) % 2 ^ 32) (n + 1) h,
)

decode_varint_settled :
    (buf more : List ℕ) {e : CodecError}
    → e ≢ incomplete
    → decode_varint buf ≡ err e
    → decode_varint (buf ++ more) ≡ err e
unfolding decode_varint
decode_varint_settled buf more h r = decode_varint_loop_settled buf more 1 0 0 h r

decode_packet_nil : decode_packet [] ≡ err incomplete
unfolding decode_packet read_u8 ◌>>=◌
decode_packet_nil = refl

-- Whatever `decode_packet` answers but `Incomplete`, it answers the same with more bytes behind.
pub decode_packet_settled :
    (raw more : List ℕ)
    → decode_packet raw ≢ err incomplete
    → decode_packet (raw ++ more) ≡ decode_packet raw
decode_packet_settled [] more h = absurd (h decode_packet_nil)
decode_packet_settled (header ∷ hs) more h =
    elim (Returns-cases (decode_varint hs) (decode_varint-Returns hs)) [
      | inr (e, failed) ↦
          let final : e ≢ incomplete =
            λ i. h (decode_packet_refused header hs (failed ∙ ap err i)) in
          decode_packet_refused header (hs ++ more) (decode_varint_settled hs more final failed)
          ∙ sym (decode_packet_refused header hs failed)
      | inl ((len, read), announced) ↦ elim (Bool-cases (ltb (length hs) (read + len))) [
        | inl short ↦
            absurd (h (decode_packet_short header hs len read announced (ltb→lt _ _ short)))
        | inr enough ↦
            let f : IsFrame hs len read = record {
              announced = announced;
              complete = ltb→le _ _ enough;
            } in
            decode_packet-append (header ∷ hs) more (record {
              header = header;
              hs = hs;
              len = len;
              read = read;
              starts = refl;
              is_frame = f;
            })
      ]
    ]
