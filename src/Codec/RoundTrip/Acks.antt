-- ===== src/Codec/RoundTrip/Acks.antt =====
-- CONNACK, SUBACK, PUBACK and DISCONNECT of src/codec.rs: the payloads written, and the packets read
-- from them.
use pipistrelle.Prelude.{
  ℕ, ◌≡◌, refl, ◌∙◌, arith, List, [], ◌∷◌, ◌++◌, append_assoc, append-nil, length, length-append,
  Bool, true, false, not, bit_and, ◌==◌, if◌then◌else◌,
}
use pipistrelle.Codec.Outcome.{ok, bind_ok}
use pipistrelle.Codec.Wire.{IsVarint, write_u8_lem, write_u16_lem, read_u8_lem, read_u16-be16}
use pipistrelle.Codec.Write.{be16, write_u16}
use pipistrelle.Codec.Packet.{ConnAck, conn_ack, SubAck, sub_ack}
use pipistrelle.Codec.Decode.{decode_conn_ack, decode_sub_ack, reason_codes_loop}
use pipistrelle.Codec.Encode.{conn_ack_payload, sub_ack_payload}
use pipistrelle.Codec.Properties.Sections.{section_bytes}
use pipistrelle.Codec.Properties.ConnAck.{
  IsConnAckProperties, conn_ack_fields, decode_conn_ack_properties-section_bytes,
  encode_conn_ack_properties_lem, encode_conn_ack_properties-le,
}
use pipistrelle.Codec.Properties.SubAck.{
  sub_ack_fields, encode_sub_ack_properties, decode_sub_ack_properties-section_bytes,
  encode_sub_ack_properties_lem, encode_sub_ack_properties-le,
}
use pipistrelle.Codec.RoundTrip.Valid.{IsSubAck}

session_bit : (b : Bool) → not (bit_and (if b then 1 else 0) 0x01 == 0) ≡ b
session_bit true = refl
session_bit false = refl

module _ (pkt : ConnAck) (valid : IsConnAckProperties pkt.properties)
    (fits : IsVarint (length (conn_ack_payload pkt))) where
  conn_ack_fit : IsVarint (length (conn_ack_fields pkt.properties))
  unfolding conn_ack_payload
  conn_ack_fit = omega (arith, fits, encode_conn_ack_properties-le pkt.properties)

  conn_ack_payload_lem :
      conn_ack_payload pkt
      ≡ (if pkt.session_present then 1 else 0)
        ∷ pkt.reason_code
        ∷ section_bytes (conn_ack_fields pkt.properties)
  unfolding conn_ack_payload
  conn_ack_payload_lem =
      encode_conn_ack_properties_lem pkt.properties _ conn_ack_fit
      ∙ rw (write_u8_lem pkt.reason_code, write_u8_lem (if pkt.session_present then 1 else 0))

  pub decode_conn_ack-conn_ack_payload : decode_conn_ack (conn_ack_payload pkt) ≡ ok (conn_ack pkt)
  unfolding decode_conn_ack
  decode_conn_ack-conn_ack_payload = rw conn_ack_payload_lem (
      bind_ok _ (read_u8_lem _ _) (
        bind_ok _ (read_u8_lem pkt.reason_code _) (
          bind_ok _
            (rw append-nil at
              (decode_conn_ack_properties-section_bytes pkt.properties [] valid conn_ack_fit))
            (rw (session_bit pkt.session_present)))))

reason_codes_loop_lem : (xs done : List ℕ) → reason_codes_loop done xs ≡ ok (done ++ xs)
unfolding reason_codes_loop
reason_codes_loop_lem [] done = rw append-nil
reason_codes_loop_lem (x ∷ xs) done =
    reason_codes_loop_lem xs (done ++ x ∷ []) ∙ rw (append_assoc done (x ∷ []) xs)

module _ (pkt : SubAck) (valid : IsSubAck pkt)
    (fits : IsVarint (length (sub_ack_payload pkt))) where
  sub_ack_fit : IsVarint (length (sub_ack_fields pkt.properties))
  unfolding sub_ack_payload
  sub_ack_fit = omega (
    arith,
    fits,
    encode_sub_ack_properties-le pkt.properties,
    length-append (encode_sub_ack_properties pkt.properties (write_u16 pkt.packet_id []))
        pkt.reason_codes,
  )

  sub_ack_payload_lem :
      sub_ack_payload pkt
      ≡ be16 pkt.packet_id ++ (section_bytes (sub_ack_fields pkt.properties) ++ pkt.reason_codes)
  unfolding sub_ack_payload
  sub_ack_payload_lem =
      rw (encode_sub_ack_properties_lem pkt.properties _ sub_ack_fit, write_u16_lem)
        (append_assoc (be16 pkt.packet_id) _ pkt.reason_codes)

  pub decode_sub_ack-sub_ack_payload : decode_sub_ack (sub_ack_payload pkt) ≡ ok (sub_ack pkt)
  unfolding decode_sub_ack
  decode_sub_ack-sub_ack_payload = rw sub_ack_payload_lem (
      bind_ok _ (read_u16-be16 pkt.packet_id _ valid.packet_id) (
        bind_ok _
          (decode_sub_ack_properties-section_bytes pkt.properties _ valid.properties sub_ack_fit)
          (bind_ok _ (reason_codes_loop_lem pkt.reason_codes []) refl)))
