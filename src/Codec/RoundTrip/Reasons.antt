-- ===== src/Codec/RoundTrip/Reasons.antt =====
-- PUBACK and DISCONNECT of src/codec.rs, which leave out a zero reason code with no properties: the
-- payloads written, and the packets read from them.
use pipistrelle.Prelude.{
  ℕ, ◌≤◌, ◌≡◌, refl, arith, ap, List, [], ◌∷◌, append-nil, length, Bool, Bool-cases, inl, inr, true,
  false, not, ◌||◌, ◌==◌,
}
use pipistrelle.Codec.Outcome.{Reader, ok, bind_ok}
use pipistrelle.Codec.Wire.{IsVarint, write_u8_lem, write_u16_lem, read_u8_lem, read_u16-be16}
use pipistrelle.Codec.Packet.{PubAck, pub_ack}
use pipistrelle.Codec.Decode.{decode_reason, decode_pub_ack}
use pipistrelle.Codec.Encode.{is_some, nonempty, pub_ack_payload}
use pipistrelle.Codec.Properties.Sections.{section_bytes, length-section_bytes}
use pipistrelle.Codec.Properties.PubAck.{
  no_pub_ack_properties, pub_ack_fields, decode_pub_ack_properties,
  decode_pub_ack_properties-section_bytes, encode_pub_ack_properties_lem,
  encode_pub_ack_properties-le,
}
use pipistrelle.Codec.RoundTrip.Valid.{IsPubAck}

-- The short form: nothing is left to read.
pub decode_reason_none :
    {P : Type 0} (decode : Reader P) (default : P)
    → decode_reason decode default [] ≡ ok (0, default)
unfolding decode_reason
decode_reason_none decode default = refl

-- The long form: a reason code, and properties that take the rest.
pub decode_reason_full :
    {P : Type 0} (decode : Reader P) (default : P) (code : ℕ) (s : List ℕ) (props : P)
    → 1 ≤ length s
    → decode s ≡ ok (props, [])
    → decode_reason decode default (code ∷ s) ≡ ok (code, props)
unfolding decode_reason
decode_reason_full decode default code [] props h e = absurd (omega arith)
decode_reason_full decode default code (b ∷ bs) props h e =
    bind_ok _ (read_u8_lem code (b ∷ bs)) (bind_ok _ e refl)

pub section_nonempty : (fields : List ℕ) → 1 ≤ length (section_bytes fields)
section_nonempty fields = omega (arith, length-section_bytes fields)

-- Whether PUBACK takes its long form, and what it is where it does not.
module _ (pkt : PubAck) where
  has_reason : Bool
  has_reason =
      (is_some pkt.properties.reason_string || nonempty pkt.properties.user_properties)
      || not (pkt.reason_code == 0)

  pub_ack_default :
      has_reason ≡ false
      → pub_ack (record {
        packet_id = pkt.packet_id;
        reason_code = 0;
        properties = no_pub_ack_properties;
      })
        ≡ pub_ack pkt
  unfolding has_reason
  pub_ack_default e = ground arith

module _ (pkt : PubAck) (valid : IsPubAck pkt)
    (fits : IsVarint (length (pub_ack_payload pkt))) where
  pub_ack_long : has_reason pkt ≡ true → decode_pub_ack (pub_ack_payload pkt) ≡ ok (pub_ack pkt)
  unfolding decode_pub_ack pub_ack_payload has_reason
  pub_ack_long e =
      let fit : IsVarint (length (pub_ack_fields pkt.properties)) =
        let long = rw e at fits in
        omega (arith, long, encode_pub_ack_properties-le pkt.properties) in
      rw (e, encode_pub_ack_properties_lem pkt.properties _ fit, write_u8_lem, write_u16_lem)
        (bind_ok _ (read_u16-be16 pkt.packet_id _ valid.packet_id) (
          bind_ok _
            (decode_reason_full decode_pub_ack_properties no_pub_ack_properties pkt.reason_code _
              pkt.properties (section_nonempty (pub_ack_fields pkt.properties))
              (rw append-nil at
                (decode_pub_ack_properties-section_bytes pkt.properties [] valid.properties fit)))
            refl))

  pub_ack_short : has_reason pkt ≡ false → decode_pub_ack (pub_ack_payload pkt) ≡ ok (pub_ack pkt)
  unfolding decode_pub_ack pub_ack_payload has_reason
  pub_ack_short e =
      rw (e, write_u16_lem)
        (bind_ok _ (read_u16-be16 pkt.packet_id [] valid.packet_id) (
          bind_ok _ (decode_reason_none decode_pub_ack_properties no_pub_ack_properties)
            (ap ok (pub_ack_default pkt e))))

  pub decode_pub_ack-pub_ack_payload : decode_pub_ack (pub_ack_payload pkt) ≡ ok (pub_ack pkt)
  decode_pub_ack-pub_ack_payload = elim (Bool-cases (has_reason pkt)) [
    | inl e ↦ pub_ack_long e
    | inr e ↦ pub_ack_short e
  ]
