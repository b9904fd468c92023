-- ===== src/Codec/Encode.antt =====
-- `encode_packet` of src/codec.rs: the fixed header's byte and the payload of each packet type.
use pipistrelle.Prelude.{
  ℕ, ◌*◌, ◌%◌, ◌^◌, bit_and, bit_or, Bool, true, false, not, ◌||◌, List, [], ◌∷◌, ◌++◌, Option,
  none, some, length, ◌==◌, if◌then◌else◌,
}
use pipistrelle.Codec.Varint.{encode_varint}
use pipistrelle.Codec.Write.{write_u8, write_u16, write_str, write_bytes}
use pipistrelle.Codec.Decode.{mqtt}
use pipistrelle.Codec.Packet.{
  Packet, connect, conn_ack, publish, pub_ack, subscribe, sub_ack, ping_req, ping_resp, disconnect,
  Connect, ConnAck, Publish, PubAck, Subscribe, Subscription, SubAck, Disconnect,
}
use pipistrelle.Codec.Properties.Connect.{encode_connect_properties}
use pipistrelle.Codec.Properties.ConnAck.{encode_conn_ack_properties}
use pipistrelle.Codec.Properties.Publish.{encode_publish_properties}
use pipistrelle.Codec.Properties.PubAck.{encode_pub_ack_properties}
use pipistrelle.Codec.Properties.Subscribe.{encode_subscribe_properties}
use pipistrelle.Codec.Properties.SubAck.{encode_sub_ack_properties}
use pipistrelle.Codec.Properties.Disconnect.{encode_disconnect_properties}

abbrev pub is_some {ℓ} : {A : Type ℓ} → Option A → Bool
is_some none = false
is_some (some a) = true

abbrev pub nonempty {ℓ} : {A : Type ℓ} → List A → Bool
nonempty [] = false
nonempty (x ∷ xs) = true

-- `if cond { byte |= mask }`
abbrev pub set_if : Bool → ℕ → ℕ → ℕ
set_if true mask byte = bit_or byte mask
set_if false mask byte = byte

-- `if let Some(val) = field { write(val, &mut payload) }`
abbrev pub write_if {ℓ} : {A : Type ℓ} → (A → List ℕ → List ℕ) → Option A → List ℕ → List ℕ
write_if write none payload = payload
write_if write (some val) payload = write val payload

unfoldable pub connect_flags : Connect → ℕ
connect_flags pkt =
    set_if (is_some pkt.password) 0x40
      (set_if (is_some pkt.username) 0x80 (set_if pkt.clean_start 0x02 0))

unfoldable pub connect_payload : Connect → List ℕ
connect_payload pkt =
    let payload = write_str mqtt [] in
    let payload = write_u8 5 payload in
    let payload = write_u8 (connect_flags pkt) payload in
    let payload = write_u16 pkt.keep_alive payload in
    let payload = encode_connect_properties pkt.properties payload in
    let payload = write_str pkt.client_id payload in
    let payload = write_if write_str pkt.username payload in
    write_if write_bytes pkt.password payload

unfoldable pub conn_ack_payload : ConnAck → List ℕ
conn_ack_payload pkt =
    let payload = write_u8 (if pkt.session_present then 1 else 0) [] in
    let payload = write_u8 pkt.reason_code payload in
    encode_conn_ack_properties pkt.properties payload

unfoldable pub publish_header : Publish → ℕ
publish_header pkt =
    let byte = set_if pkt.dup 0x08 (3 * 16) in
    let byte = bit_or byte (bit_and pkt.qos 0x03 * 2) in set_if pkt.retain 0x01 byte

unfoldable pub publish_payload : Publish → List ℕ
publish_payload pkt =
    let payload = write_str pkt.topic [] in
    let payload = write_if write_u16 pkt.packet_id payload in
    let payload = encode_publish_properties pkt.properties payload in payload ++ pkt.payload

unfoldable pub pub_ack_payload : PubAck → List ℕ
pub_ack_payload pkt =
    let payload = write_u16 pkt.packet_id [] in
    let has_props =
      is_some pkt.properties.reason_string || nonempty pkt.properties.user_properties in
    if has_props || not (pkt.reason_code == 0)
    then encode_pub_ack_properties pkt.properties (write_u8 pkt.reason_code payload)
    else payload

unfoldable pub push_subscriptions : List Subscription → List ℕ → List ℕ
push_subscriptions [] payload = payload
push_subscriptions (sub ∷ subs) payload =
    push_subscriptions subs (write_u8 sub.options (write_str sub.topic_filter payload))

unfoldable pub subscribe_payload : Subscribe → List ℕ
subscribe_payload pkt =
    let payload = write_u16 pkt.packet_id [] in
    let payload = encode_subscribe_properties pkt.properties payload in
    push_subscriptions pkt.subscriptions payload

unfoldable pub sub_ack_payload : SubAck → List ℕ
sub_ack_payload pkt =
    let payload = write_u16 pkt.packet_id [] in
    let payload = encode_sub_ack_properties pkt.properties payload in payload ++ pkt.reason_codes

unfoldable pub disconnect_payload : Disconnect → List ℕ
disconnect_payload pkt =
    let has_props =
      is_some pkt.properties.session_expiry_interval
      || is_some pkt.properties.reason_string
      || is_some pkt.properties.server_reference
      || nonempty pkt.properties.user_properties in
    if has_props || not (pkt.reason_code == 0)
    then encode_disconnect_properties pkt.properties (write_u8 pkt.reason_code [])
    else []

-- The two results of `match packet`.
unfoldable pub header_and_payload : Packet → ℕ × List ℕ
header_and_payload (connect pkt) = (1 * 16, connect_payload pkt)
header_and_payload (conn_ack pkt) = (2 * 16, conn_ack_payload pkt)
header_and_payload (publish pkt) = (publish_header pkt, publish_payload pkt)
header_and_payload (pub_ack pkt) = (4 * 16, pub_ack_payload pkt)
header_and_payload (subscribe pkt) = (bit_or (8 * 16) 0x02, subscribe_payload pkt)
header_and_payload (sub_ack pkt) = (9 * 16, sub_ack_payload pkt)
header_and_payload ping_req = (12 * 16, [])
header_and_payload ping_resp = (13 * 16, [])
header_and_payload (disconnect pkt) = (14 * 16, disconnect_payload pkt)

unfoldable pub encode_packet : Packet → List ℕ → List ℕ
encode_packet packet buf =
    let (fixed_header_byte, payload) = header_and_payload packet in
    encode_varint (length payload % 2 ^ 32) (write_u8 fixed_header_byte buf) ++ payload
