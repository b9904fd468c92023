-- ===== src/Codec/RoundTrip/Disconnect.antt =====
-- DISCONNECT of src/codec.rs, which leaves out a zero reason code with no properties: the payload
-- written, and the packet read from it.
use pipistrelle.Prelude.{
  ◌≡◌, refl, ap, arith, [], append-nil, length, Bool, Bool-cases, inl, inr, true, false, not, ◌||◌,
  ◌==◌,
}
use pipistrelle.Codec.Outcome.{ok, bind_ok}
use pipistrelle.Codec.Wire.{IsVarint, write_u8_lem}
use pipistrelle.Codec.Packet.{Disconnect, disconnect}
use pipistrelle.Codec.Decode.{decode_disconnect}
use pipistrelle.Codec.Encode.{is_some, nonempty, disconnect_payload}
use pipistrelle.Codec.Properties.Disconnect.{
  IsDisconnectProperties, no_disconnect_properties, disconnect_fields, decode_disconnect_properties,
  decode_disconnect_properties-section_bytes, encode_disconnect_properties_lem,
  encode_disconnect_properties-le,
}
use pipistrelle.Codec.RoundTrip.Reasons.{decode_reason_none, decode_reason_full, section_nonempty}

-- Whether DISCONNECT takes its long form, and what it is where it does not.
module _ (pkt : Disconnect) where
  has_reason : Bool
  has_reason =
      (is_some pkt.properties.session_expiry_interval
        || is_some pkt.properties.reason_string
        || is_some pkt.properties.server_reference
        || nonempty pkt.properties.user_properties)
      || not (pkt.reason_code == 0)

  disconnect_default :
      has_reason ≡ false
      → disconnect (record { reason_code = 0; properties = no_disconnect_properties })
        ≡ disconnect pkt
  unfolding has_reason
  disconnect_default e = ground arith

module _ (pkt : Disconnect) (valid : IsDisconnectProperties pkt.properties)
    (fits : IsVarint (length (disconnect_payload pkt))) where
  disconnect_long :
      has_reason pkt ≡ true → decode_disconnect (disconnect_payload pkt) ≡ ok (disconnect pkt)
  unfolding decode_disconnect disconnect_payload has_reason
  disconnect_long e =
      let fit : IsVarint (length (disconnect_fields pkt.properties)) =
        let long = rw e at fits in
        omega (arith, long, encode_disconnect_properties-le pkt.properties) in
      rw (e, encode_disconnect_properties_lem pkt.properties _ fit, write_u8_lem)
        (bind_ok _
          (decode_reason_full decode_disconnect_properties no_disconnect_properties pkt.reason_code
            _ pkt.properties (section_nonempty (disconnect_fields pkt.properties))
            (rw append-nil at
              (decode_disconnect_properties-section_bytes pkt.properties [] valid fit)))
          refl)

  disconnect_short :
      has_reason pkt ≡ false → decode_disconnect (disconnect_payload pkt) ≡ ok (disconnect pkt)
  unfolding decode_disconnect disconnect_payload has_reason
  disconnect_short e = rw e (
      bind_ok _ (decode_reason_none decode_disconnect_properties no_disconnect_properties)
        (ap ok (disconnect_default pkt e)))

  pub decode_disconnect-disconnect_payload :
      decode_disconnect (disconnect_payload pkt) ≡ ok (disconnect pkt)
  decode_disconnect-disconnect_payload = elim (Bool-cases (has_reason pkt)) [
    | inl e ↦ disconnect_long e
    | inr e ↦ disconnect_short e
  ]
