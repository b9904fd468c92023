-- ===== src/Codec/RoundTrip/Connect.antt =====
-- CONNECT of src/codec.rs: the payload written, and the packet read from it.
use pipistrelle.Codec.Decode.{decode_connect_fields, decode_connect, mqtt}
use pipistrelle.Prelude.{
  ℕ, ◌≡◌, refl, arith, List, [], ◌∷◌, ◌++◌, append_assoc, length, Bool, true, false, not, bit_and,
  ◌==◌, append-nil,
}
use pipistrelle.Codec.Wire.{
  IsVarint, prefixed, str, binary, write_str_lem, write_u8_lem, write_u16_lem, read_u8_lem,
  read_u16-be16, read_str-prefixed,
}
use pipistrelle.Codec.Utf8.{is_utf8}
use pipistrelle.Codec.Outcome.{ok, bind_ok}
use pipistrelle.Codec.Packet.{connect, Connect}
use pipistrelle.Codec.Encode.{is_some, set_if, connect_flags, connect_payload}
use pipistrelle.Codec.RoundTrip.Pieces.{
  read_if-bytes_if, bytes_if, write_if_lem, length-write_str, length-write_if_str,
  length-write_if_bytes,
}
use pipistrelle.Codec.Properties.Connect.{
  decode_connect_properties-section_bytes, connect_fields, encode_connect_properties_lem,
  encode_connect_properties-le,
}
use pipistrelle.Codec.Write.{be16}
use pipistrelle.Codec.Properties.Sections.{section_bytes}
use pipistrelle.Codec.RoundTrip.Valid.{IsConnect}

-- The bits of the flags byte.
flag_bits :
    (p u c : Bool)
    → let f = set_if p 0x40 (set_if u 0x80 (set_if c 0x02 0)) in
      (not (bit_and f 0x02 == 0) ≡ c)
      × (not (bit_and f 0x04 == 0) ≡ false)
      × (not (bit_and f 0x80 == 0) ≡ u)
      × (not (bit_and f 0x40 == 0) ≡ p)
flag_bits true true true = (refl, refl, refl, refl)
flag_bits true true false = (refl, refl, refl, refl)
flag_bits true false true = (refl, refl, refl, refl)
flag_bits true false false = (refl, refl, refl, refl)
flag_bits false true true = (refl, refl, refl, refl)
flag_bits false true false = (refl, refl, refl, refl)
flag_bits false false true = (refl, refl, refl, refl)
flag_bits false false false = (refl, refl, refl, refl)

module _ (pkt : Connect) (valid : IsConnect pkt)
    (fits : IsVarint (length (connect_payload pkt))) where
  fields_fit : IsVarint (length (connect_fields pkt.properties))
  unfolding connect_payload
  fields_fit = omega (
    arith,
    fits,
    encode_connect_properties-le pkt.properties,
    length-write_str,
    length-write_if_str,
    length-write_if_bytes,
  )

  -- What follows the flags byte.
  behind_flags : List ℕ
  behind_flags =
      be16 pkt.keep_alive
      ++ (section_bytes (connect_fields pkt.properties)
          ++ (prefixed pkt.client_id
              ++ (bytes_if str pkt.username ++ bytes_if binary pkt.password)))

  connect_payload_lem :
      connect_payload pkt ≡ prefixed mqtt ++ (5 ∷ connect_flags pkt ∷ behind_flags)
  unfolding connect_payload behind_flags
  connect_payload_lem =
      rw
        (
          write_if_lem binary pkt.password _ valid.password,
          write_if_lem str pkt.username _ valid.username,
          write_str_lem pkt.client_id _ valid.client_id.1,
          encode_connect_properties_lem pkt.properties _ fields_fit,
          write_u16_lem,
          write_u8_lem (connect_flags pkt),
          write_u8_lem 5,
          write_str_lem mqtt [] (omega arith),
        )
        (simp append_assoc)

  -- The fields behind the flags byte, for flags that say what is there.
  decode_connect_fields-behind_flags :
      decode_connect_fields (connect_flags pkt) behind_flags ≡ ok (connect pkt)
  unfolding decode_connect_fields behind_flags connect_flags
  decode_connect_fields-behind_flags =
      let (clean, will, user, pass) =
        flag_bits (is_some pkt.password) (is_some pkt.username) pkt.clean_start in
      rw (clean, will, user, pass)
        (bind_ok _ (read_u16-be16 pkt.keep_alive _ valid.keep_alive) (
          bind_ok _
            (decode_connect_properties-section_bytes pkt.properties _ valid.properties fields_fit)
            (bind_ok _ (read_str-prefixed pkt.client_id _ valid.client_id) (
              bind_ok _ refl (
                bind_ok _ (read_if-bytes_if str pkt.username _ valid.username) (
                  bind_ok _
                    (rw append-nil at (read_if-bytes_if binary pkt.password [] valid.password))
                    refl))))))

  pub decode_connect-connect_payload : decode_connect 0 (connect_payload pkt) ≡ ok (connect pkt)
  unfolding decode_connect
  decode_connect-connect_payload = rw connect_payload_lem (
      bind_ok _ (read_str-prefixed mqtt _ (unfold is_utf8 in refl, omega arith)) (
        bind_ok _ (read_u8_lem 5 _)
          (bind_ok _ (read_u8_lem (connect_flags pkt) _) decode_connect_fields-behind_flags)))
