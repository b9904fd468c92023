-- ===== src/Codec/Crash.antt =====
-- The slices of src/codec.rs that skip the will of a CONNECT.
use pipistrelle.Prelude.{
  ℕ, ◌+◌, ◌≤◌, ◌<◌, ◌≡◌, ◌≢◌, refl, ◌∙◌, arith, List, ◌∷◌, ◌++◌, length, length-append, bit_and,
}
use pipistrelle.Codec.Outcome.{panic, bind_ok, bind_panic}
use pipistrelle.Codec.Utf8.{is_utf8}
use pipistrelle.Codec.Wire.{
  IsU16, IsStr, IsVarint, prefixed, read_u16-be16, read_str-prefixed, read_u8_lem,
}
use pipistrelle.Codec.Write.{be16}
use pipistrelle.Codec.Varint.Bytes.{groups}
use pipistrelle.Codec.Varint.RoundTrip.{decode_varint-groups}
use pipistrelle.Codec.Packet.{ConnectProperties}
use pipistrelle.Codec.Properties.Sections.{section_bytes}
use pipistrelle.Codec.Properties.Connect.{
  IsConnectProperties, connect_fields, decode_connect_properties-section_bytes,
}
use pipistrelle.Codec.Decode.{mqtt, decode_connect, decode_body, decode_packet}
use pipistrelle.Codec.Decode.Total.{decode_connect_fields-eq-panic}
use pipistrelle.Codec.RoundTrip.Frame.{frame, decode_packet-frame_body}

-- The fields of a CONNECT behind its flags, up to a will whose properties are said to have `len` bytes and
-- behind which there is `will` alone.
abbrev pub fields_with_will :
    (keep_alive : ℕ) → ConnectProperties → (client_id : List ℕ) → (len : ℕ) → List ℕ → List ℕ
fields_with_will keep_alive props client_id len will =
    be16 keep_alive
    ++ (section_bytes (connect_fields props) ++ (prefixed client_id ++ (groups 3 len ++ will)))

abbrev pub payload_with_will :
    (flags keep_alive : ℕ) → ConnectProperties → (client_id : List ℕ) → (len : ℕ) → List ℕ → List ℕ
payload_with_will flags keep_alive props client_id len will =
    prefixed mqtt ++ (5 ∷ flags ∷ fields_with_will keep_alive props client_id len will)

-- The properties are no longer than the payload.
properties_fit :
    (flags keep_alive : ℕ) (props : ConnectProperties) (client_id : List ℕ) (len : ℕ)
    (will : List ℕ)
    → length (connect_fields props)
      ≤ length (payload_with_will flags keep_alive props client_id len will)
unfolding section_bytes
properties_fit flags keep_alive props client_id len will = omega (
  arith,
  length-append (prefixed mqtt) (5 ∷ flags ∷ fields_with_will keep_alive props client_id len will),
  length-append (section_bytes (connect_fields props))
      (prefixed client_id ++ (groups 3 len ++ will)),
  length-append (groups 3 (length (connect_fields props))) (connect_fields props),
)

-- A frame of a CONNECT with any keep-alive, properties and client, whose flags announce a will, and
-- whose will's properties are said to be longer than what is left of the payload, makes `decode_packet`
-- panic, whatever the other flags and whatever bytes follow.
pub decode_packet-eq-panic :
    (flags keep_alive : ℕ) (props : ConnectProperties) (client_id : List ℕ) (len : ℕ)
    (will rest : List ℕ)
    → bit_and flags 0x04 ≢ 0
    → IsU16 keep_alive
    → IsConnectProperties props
    → IsStr client_id
    → IsVarint len
    → length will < len
    → IsVarint (length (payload_with_will flags keep_alive props client_id len will))
    → decode_packet
        (frame 0x10 (payload_with_will flags keep_alive props client_id len will) ++ rest)
      ≡ panic
unfolding decode_body decode_connect
decode_packet-eq-panic flags keep_alive props client_id len will rest flagged u16 valid str varint
      long fits =
    let payload = payload_with_will flags keep_alive props client_id len will in
    let behind = prefixed client_id ++ (groups 3 len ++ will) in
    let section_fits : IsVarint (length (connect_fields props)) =
      omega (arith, fits, properties_fit flags keep_alive props client_id len will) in
    let too_long : length (groups 3 len ++ will) < length (groups 3 len) + len =
      omega (arith, length-append (groups 3 len) will) in
    let fields =
      decode_connect_fields-eq-panic flags (fields_with_will keep_alive props client_id len will)
        flagged (read_u16-be16 keep_alive (section_bytes (connect_fields props) ++ behind) u16)
        (decode_connect_properties-section_bytes props behind valid section_fits)
        (read_str-prefixed client_id (groups 3 len ++ will) str)
        (decode_varint-groups len will varint) too_long in
    decode_packet-frame_body 0x10 payload rest fits
    ∙ bind_panic _ (
        bind_ok _ (read_str-prefixed mqtt _ (unfold is_utf8 in refl, omega arith))
          (bind_ok _ (read_u8_lem 5 _) (bind_ok _ (read_u8_lem flags _) fields)))
