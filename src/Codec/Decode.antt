-- ===== src/Codec/Decode.antt =====
-- `decode_packet` of src/codec.rs: one function for each arm of its `match packet_type`, and the
-- framing around them.
pub mod Framing
pub mod Streaming
pub mod Safety
pub mod Total
pub mod Settled
use pipistrelle.Prelude.{
  ℕ, zero, suc, ◌+◌, ◌-◌, ◌/◌, bit_and, Bool, true, false, not, ◌||◌, ◌&&◌, List, [], ◌∷◌, ◌++◌,
  Option, none, some, length, ltb, ◌==◌, if◌then◌else◌,
}
use pipistrelle.Prelude.Text.{bytes_eq}
use pipistrelle.Codec.Outcome.{
  Result, Reader, ok, err, stuck, incomplete, malformed_packet, unsupported_protocol_version, ◌>>=◌,
}
use pipistrelle.Codec.Read.{read_u8, read_u16, read_str, read_bytes, slice_from, slice_to}
use pipistrelle.Codec.Varint.{decode_varint}
use pipistrelle.Codec.Packet.{
  Packet, connect, conn_ack, publish, pub_ack, subscribe, sub_ack, ping_req, ping_resp, disconnect,
  Subscription,
}
use pipistrelle.Codec.Properties.Connect.{decode_connect_properties}
use pipistrelle.Codec.Properties.ConnAck.{decode_conn_ack_properties}
use pipistrelle.Codec.Properties.Publish.{decode_publish_properties}
use pipistrelle.Codec.Properties.PubAck.{decode_pub_ack_properties, no_pub_ack_properties}
use pipistrelle.Codec.Properties.Subscribe.{decode_subscribe_properties}
use pipistrelle.Codec.Properties.SubAck.{decode_sub_ack_properties}
use pipistrelle.Codec.Properties.Disconnect.{decode_disconnect_properties, no_disconnect_properties}

abbrev pub is_empty : List ℕ → Bool
is_empty [] = true
is_empty (b ∷ bs) = false

abbrev pub mqtt : List ℕ
mqtt = b'M' ∷ b'Q' ∷ b'T' ∷ b'T' ∷ []

-- The will's properties, topic and payload are skipped by their lengths, which nothing checks.
unfoldable pub skip_will : List ℕ → Result (List ℕ)
skip_will payload = do
  (will_props_len, read) ← decode_varint payload
  payload ← slice_from (read + will_props_len) payload
  (will_topic_len, payload) ← read_u16 payload
  payload ← slice_from will_topic_len payload
  (will_payload_len, payload) ← read_u16 payload
  slice_from will_payload_len payload

-- `if present { Some(read(&mut payload)?) } else { None }`
unfoldable pub read_if {ℓ} : {A : Type ℓ} → Bool → Reader A → Reader (Option A)
read_if true read payload = do (a, payload) ← read payload; ok (some a, payload)
read_if false read payload = ok (none, payload)

-- The flags byte, then the fields in the order of the packet.
unfoldable pub decode_connect_fields : ℕ → List ℕ → Result Packet
decode_connect_fields connect_flags payload = do
  (keep_alive, payload) ← read_u16 payload
  let clean_start = not (bit_and connect_flags 0x02 == 0)
  let has_will = not (bit_and connect_flags 0x04 == 0)
  let has_username = not (bit_and connect_flags 0x80 == 0)
  let has_password = not (bit_and connect_flags 0x40 == 0)
  (properties, payload) ← decode_connect_properties payload
  (client_id, payload) ← read_str payload
  payload ← (if has_will then skip_will payload else ok payload)
  (username, payload) ← read_if has_username read_str payload
  (password, payload) ← read_if has_password read_bytes payload
  ok (
      connect (record {
        client_id = client_id;
        keep_alive = keep_alive;
        clean_start = clean_start;
        username = username;
        password = password;
        properties = properties;
      }))

unfoldable pub decode_connect : ℕ → List ℕ → Result Packet
decode_connect flags payload = if not (flags == 0) then err malformed_packet else do
  (protocol_name, payload) ← read_str payload
  if not (bytes_eq protocol_name mqtt) then err malformed_packet else do
    (protocol_level, payload) ← read_u8 payload
    if not (protocol_level == 5) then err (unsupported_protocol_version protocol_level) else do
      (connect_flags, payload) ← read_u8 payload
      decode_connect_fields connect_flags payload

unfoldable pub decode_conn_ack : List ℕ → Result Packet
decode_conn_ack payload = do
  (connack_flags, payload) ← read_u8 payload
  let session_present = not (bit_and connack_flags 0x01 == 0)
  (reason_code, payload) ← read_u8 payload
  (properties, payload) ← decode_conn_ack_properties payload
  ok (
      conn_ack (record {
        session_present = session_present;
        reason_code = reason_code;
        properties = properties;
      }))

unfoldable pub decode_publish : ℕ → List ℕ → Result Packet
decode_publish flags payload =
    let dup = not (bit_and flags 0x08 == 0) in
    let qos = bit_and flags 0x06 / 2 in
    let retain = not (bit_and flags 0x01 == 0) in
    if ltb 2 qos then err malformed_packet else do
      (topic, payload) ← read_str payload
      (packet_id, payload) ← read_if (ltb 0 qos) read_u16 payload
      (properties, payload) ← decode_publish_properties payload
      ok (
          publish (record {
            dup = dup;
            qos = qos;
            retain = retain;
            topic = topic;
            packet_id = packet_id;
            properties = properties;
            payload = payload;
          }))

-- The optional reason code, and the optional properties behind it.
unfoldable pub decode_reason : {P : Type 0} → Reader P → P → List ℕ → Result (ℕ × P)
decode_reason decode default payload = if is_empty payload then ok (0, default) else do
  (reason_code, payload) ← read_u8 payload
  if is_empty payload
      then ok (reason_code, default)
      else do (properties, payload) ← decode payload; ok (reason_code, properties)

unfoldable pub decode_pub_ack : List ℕ → Result Packet
decode_pub_ack payload = do
  (packet_id, payload) ← read_u16 payload
  (reason_code, properties) ← decode_reason decode_pub_ack_properties no_pub_ack_properties payload
  ok (
      pub_ack
        (record { packet_id = packet_id; reason_code = reason_code; properties = properties }))

-- `while !payload.is_empty()`: each round takes a byte at least.
unfoldable pub subscriptions_loop : ℕ → List Subscription → List ℕ → Result (List Subscription)
subscriptions_loop fuel subscriptions [] = ok subscriptions
subscriptions_loop zero subscriptions (b ∷ bs) = stuck
subscriptions_loop (suc fuel) subscriptions (b ∷ bs) = do
  (topic_filter, payload) ← read_str (b ∷ bs)
  (options, payload) ← read_u8 payload
  subscriptions_loop fuel
      (subscriptions ++ record { topic_filter = topic_filter; options = options } ∷ []) payload

abbrev pub no_subscriptions : List Subscription → Bool
no_subscriptions [] = true
no_subscriptions (s ∷ ss) = false

unfoldable pub decode_subscribe : ℕ → List ℕ → Result Packet
decode_subscribe flags payload = if not (flags == 0x02) then err malformed_packet else do
  (packet_id, payload) ← read_u16 payload
  (properties, payload) ← decode_subscribe_properties payload
  subscriptions ← subscriptions_loop (length payload) [] payload
  if no_subscriptions subscriptions
      then err malformed_packet
      else ok (
          subscribe (record {
            packet_id = packet_id;
            properties = properties;
            subscriptions = subscriptions;
          }))

-- `while !payload.is_empty()` around `read_u8`
unfoldable pub reason_codes_loop : List ℕ → List ℕ → Result (List ℕ)
reason_codes_loop reason_codes [] = ok reason_codes
reason_codes_loop reason_codes (b ∷ bs) = reason_codes_loop (reason_codes ++ b ∷ []) bs

unfoldable pub decode_sub_ack : List ℕ → Result Packet
decode_sub_ack payload = do
  (packet_id, payload) ← read_u16 payload
  (properties, payload) ← decode_sub_ack_properties payload
  reason_codes ← reason_codes_loop [] payload
  ok (
      sub_ack
        (record { packet_id = packet_id; properties = properties; reason_codes = reason_codes }))

unfoldable pub decode_ping : Packet → ℕ → ℕ → Result Packet
decode_ping ping flags remaining_len =
    if not (flags == 0) || not (remaining_len == 0) then err malformed_packet else ok ping

unfoldable pub decode_disconnect : List ℕ → Result Packet
decode_disconnect payload = do
  (reason_code, properties) ←
      decode_reason decode_disconnect_properties no_disconnect_properties payload
  ok (disconnect (record { reason_code = reason_code; properties = properties }))

-- `match packet_type`
unfoldable pub decode_body : ℕ → ℕ → ℕ → List ℕ → Result Packet
decode_body packet_type flags remaining_len payload =
    if packet_type == 1
    then decode_connect flags payload
    else if packet_type == 2
    then decode_conn_ack payload
    else if packet_type == 3
    then decode_publish flags payload
    else if packet_type == 4
    then decode_pub_ack payload
    else if packet_type == 8
    then decode_subscribe flags payload
    else if packet_type == 9
    then decode_sub_ack payload
    else if packet_type == 12
    then decode_ping ping_req flags remaining_len
    else if packet_type == 13
    then decode_ping ping_resp flags remaining_len
    else if packet_type == 14
    then decode_disconnect payload
    else err malformed_packet

-- The packet, and how many bytes of `raw_buf` it took.
unfoldable pub decode_packet : List ℕ → Result (Packet × ℕ)
decode_packet raw_buf = do
  (fixed_header_byte, buf) ← read_u8 raw_buf
  let packet_type = fixed_header_byte / 16
  let flags = bit_and fixed_header_byte 0x0f
  (remaining_len, read) ← decode_varint buf
  buf ← slice_from read buf
  if ltb (length buf) remaining_len then err incomplete else do
    payload ← slice_to remaining_len buf
    let total_read = length raw_buf - length buf + remaining_len
    packet ← decode_body packet_type flags remaining_len payload
    ok (packet, total_read)
