-- ===== src/Codec/RoundTrip/Publish.antt =====
-- PUBLISH of src/codec.rs: the header's bits and the payload written, and the packet read from them.
use pipistrelle.Prelude.{
  ℕ, zero, suc, ◌≤◌, ◌/◌, ◌≡◌, refl, arith, ◌++◌, append_assoc, length, length-append, Bool, true,
  false, not, bit_and, ◌==◌, le→ltb, bit_or, ◌*◌,
}
use pipistrelle.Codec.Outcome.{ok, bind_ok}
use pipistrelle.Codec.Wire.{IsVarint, prefixed, u16, write_str_lem, read_str-prefixed}
use pipistrelle.Codec.Packet.{Publish, publish}
use pipistrelle.Codec.Decode.{decode_publish}
use pipistrelle.Codec.Encode.{publish_header, publish_payload, set_if}
use pipistrelle.Codec.Properties.Sections.{section_bytes}
use pipistrelle.Codec.Properties.Publish.{
  publish_fields, encode_publish_properties, decode_publish_properties-section_bytes,
  encode_publish_properties_lem, encode_publish_properties-le,
}
use pipistrelle.Codec.RoundTrip.Valid.{IsPublish}
use pipistrelle.Codec.RoundTrip.Pieces.{bytes_if, write_if_lem, read_if-bytes_if}

-- The header's byte: the type in the upper half, the flags in the lower.
header_bits :
    (d r : Bool) (q : ℕ)
    → q ≤ 2
    → let byte = set_if r 0x01 (bit_or (set_if d 0x08 (3 * 16)) (bit_and q 0x03 * 2)) in
      (byte / 16 ≡ 3)
      × (not (bit_and (bit_and byte 0x0f) 0x08 == 0) ≡ d)
      × (bit_and (bit_and byte 0x0f) 0x06 / 2 ≡ q)
      × (not (bit_and (bit_and byte 0x0f) 0x01 == 0) ≡ r)
header_bits true true zero h = (refl, refl, refl, refl)
header_bits true true (suc zero) h = (refl, refl, refl, refl)
header_bits true true (suc (suc zero)) h = (refl, refl, refl, refl)
header_bits true true (suc (suc (suc q))) h = absurd (omega arith)
header_bits true false zero h = (refl, refl, refl, refl)
header_bits true false (suc zero) h = (refl, refl, refl, refl)
header_bits true false (suc (suc zero)) h = (refl, refl, refl, refl)
header_bits true false (suc (suc (suc q))) h = absurd (omega arith)
header_bits false true zero h = (refl, refl, refl, refl)
header_bits false true (suc zero) h = (refl, refl, refl, refl)
header_bits false true (suc (suc zero)) h = (refl, refl, refl, refl)
header_bits false true (suc (suc (suc q))) h = absurd (omega arith)
header_bits false false zero h = (refl, refl, refl, refl)
header_bits false false (suc zero) h = (refl, refl, refl, refl)
header_bits false false (suc (suc zero)) h = (refl, refl, refl, refl)
header_bits false false (suc (suc (suc q))) h = absurd (omega arith)

module _ (pkt : Publish) (valid : IsPublish pkt)
    (fits : IsVarint (length (publish_payload pkt))) where
  fields_fit : IsVarint (length (publish_fields pkt.properties))
  unfolding publish_payload
  fields_fit = omega (
    arith,
    fits,
    encode_publish_properties-le pkt.properties,
    length-append (encode_publish_properties pkt.properties _) pkt.payload,
  )

  publish_payload_lem :
      publish_payload pkt
      ≡ prefixed pkt.topic
        ++ (bytes_if u16 pkt.packet_id
            ++ (section_bytes (publish_fields pkt.properties) ++ pkt.payload))
  unfolding publish_payload
  publish_payload_lem =
      rw
        (
          encode_publish_properties_lem pkt.properties _ fields_fit,
          write_if_lem u16 pkt.packet_id _ valid.packet_id,
          write_str_lem pkt.topic _ valid.topic.1,
        )
        (simp append_assoc)

  pub publish_header-type : publish_header pkt / 16 ≡ 3
  unfolding publish_header
  publish_header-type = (header_bits pkt.dup pkt.retain pkt.qos valid.qos).0

  pub decode_publish-publish_payload :
      decode_publish (bit_and (publish_header pkt) 0x0f) (publish_payload pkt) ≡ ok (publish pkt)
  unfolding decode_publish publish_header
  decode_publish-publish_payload =
      let (_, dup, qos, retain) = header_bits pkt.dup pkt.retain pkt.qos valid.qos in
      rw (publish_payload_lem, dup, qos, retain, ← valid.has_id, le→ltb 2 pkt.qos valid.qos)
        (bind_ok _ (read_str-prefixed pkt.topic _ valid.topic) (
          bind_ok _ (read_if-bytes_if u16 pkt.packet_id _ valid.packet_id) (
            bind_ok _
              (decode_publish_properties-section_bytes pkt.properties _ valid.properties fields_fit)
              refl)))
