-- ===== src/Codec/Tests.antt =====
-- Concrete packets of src/codec.rs: runs of the code, and the theorems at them.
use pipistrelle.Codec.Decode.Total.{
  decode_connect_fields-ne-panic, decode_packet-ne-stuck, decode_packet-ne-panic,
}
use pipistrelle.Prelude.{
  ℕ, ◌^◌, ◌≤◌, ◌<◌, ◌≡◌, ◌≢◌, refl, arith, List, [], ◌∷◌, ◌++◌, some, length, take, true, false,
}
use pipistrelle.Codec.Outcome.{ok, err, panic, stuck, incomplete, invalid_varint, ◌>>=◌}
use pipistrelle.Codec.Utf8.{is_utf8}
use pipistrelle.Codec.Read.{read_u8, read_str}
use pipistrelle.Codec.Varint.{decode_varint, encode_varint}
use pipistrelle.Codec.Varint.RoundTrip.{
  decode_varint-encode_varint, decode_varint-encode_varint_wide,
}
use pipistrelle.Codec.Varint.Bounds.{decode_varint_bounds}
use pipistrelle.Codec.Write.{write_u8, write_u16, write_u32, write_str}
use pipistrelle.Codec.Properties.{
  push_some, push_user_properties, push_section, properties_loop, decode_properties, read_into,
}
use pipistrelle.Codec.Properties.Publish.{
  publish_fields, encode_publish_properties, no_publish_properties, publish_property,
  decode_publish_properties,
}
use pipistrelle.Codec.Properties.Subscribe.{decode_subscribe_properties}
use pipistrelle.Codec.Decode.{
  decode_subscribe, subscriptions_loop, read_if, decode_connect_fields, decode_publish, decode_body,
  decode_packet,
}
use pipistrelle.Codec.Packet.{Publish, publish}
use pipistrelle.Codec.Properties.Connect.{
  no_connect_properties, IsConnectProperties, connect_fields,
}
use pipistrelle.Codec.Properties.Sections.{section_bytes}
use pipistrelle.Codec.Varint.Bytes.{groups}
use pipistrelle.Codec.Decode.Streaming.{
  HasFrame, decode_packet-append, decode_packet_bounds, decode_packet-take,
}
use pipistrelle.Codec.Encode.{header_and_payload, encode_packet, publish_header, publish_payload}
use pipistrelle.Codec.RoundTrip.Valid.{IsPublish}
use pipistrelle.Codec.RoundTrip.Frame.{frame, decode_packet-encode_packet}
use pipistrelle.Codec.Crash.{payload_with_will, decode_packet-eq-panic}

-- QoS 1 on topic "a/b", packet 42, content type "x", payload 7 8.
abbrev sample_publish : Publish
sample_publish = record {
  dup = false;
  qos = 1;
  retain = true;
  topic = b'a' ∷ b'/' ∷ b'b' ∷ [];
  packet_id = some 42;
  properties = record no_publish_properties { content_type = some (b'x' ∷ []) };
  payload = 7 ∷ 8 ∷ [];
}

abbrev sample_bytes : List ℕ
sample_bytes = 0x33 ∷ 14 ∷ 0 ∷ 3 ∷ b'a' ∷ b'/' ∷ b'b' ∷ 0 ∷ 42 ∷ 4 ∷ 3 ∷ 0 ∷ 1 ∷ b'x' ∷ 7 ∷ 8 ∷ []

sample_decodes : decode_packet sample_bytes ≡ ok (publish sample_publish, 16)
unfolding decode_packet decode_body decode_publish read_if decode_publish_properties
    decode_properties properties_loop publish_property read_into read_u8 read_str decode_varint
    ◌>>=◌ is_utf8
sample_decodes = refl

sample_IsPublish : IsPublish sample_publish
sample_IsPublish = record {
  qos = omega arith;
  topic = (unfold is_utf8 in refl, omega arith);
  packet_id = omega arith;
  has_id = refl;
  properties = record {
    message_expiry_interval = tt;
    content_type = (unfold is_utf8 in refl, omega arith);
    response_topic = tt;
    correlation_data = tt;
    subscription_identifier = tt;
    topic_alias = tt;
    user_properties = tt;
  };
}

sample_encodes : encode_packet (publish sample_publish) [] ≡ sample_bytes
unfolding encode_packet header_and_payload publish_header publish_payload encode_publish_properties
    publish_fields push_some push_user_properties push_section write_u8 write_u16 write_u32
    write_str encode_varint
sample_encodes = refl

sample_fits : length (header_and_payload (publish sample_publish)).1 < 2 ^ 28
unfolding header_and_payload publish_payload encode_publish_properties publish_fields push_some
    push_user_properties push_section write_u8 write_u16 write_u32 write_str encode_varint
sample_fits = omega arith

decode_packet-encode_packet_example :
    decode_packet (encode_packet (publish sample_publish) [] ++ 1 ∷ 2 ∷ [])
    ≡ ok (publish sample_publish, length (encode_packet (publish sample_publish) []))
decode_packet-encode_packet_example =
    decode_packet-encode_packet (publish sample_publish) (1 ∷ 2 ∷ []) sample_IsPublish sample_fits

sample_HasFrame : HasFrame sample_bytes
sample_HasFrame = record {
  header = 0x33;
  hs = 14 ∷ 0 ∷ 3 ∷ b'a' ∷ b'/' ∷ b'b' ∷ 0 ∷ 42 ∷ 4 ∷ 3 ∷ 0 ∷ 1 ∷ b'x' ∷ 7 ∷ 8 ∷ [];
  len = 14;
  read = 1;
  starts = refl;
  is_frame = record { announced = unfold decode_varint in refl; complete = omega arith };
}

decode_packet-append_example :
    decode_packet (sample_bytes ++ 9 ∷ 9 ∷ []) ≡ decode_packet sample_bytes
decode_packet-append_example = decode_packet-append sample_bytes (9 ∷ 9 ∷ []) sample_HasFrame

-- A SUBSCRIBE whose topic filter is said to be longer than the packet: a complete frame that is
-- incomplete for good.
abbrev cut_filter : List ℕ
cut_filter = 0x82 ∷ 6 ∷ 0 ∷ 1 ∷ 0 ∷ 0 ∷ 9 ∷ b'a' ∷ []

cut_filter_incomplete : decode_packet cut_filter ≡ err incomplete
unfolding decode_packet decode_body decode_subscribe decode_subscribe_properties decode_properties
    properties_loop subscriptions_loop read_u8 read_str decode_varint ◌>>=◌
cut_filter_incomplete = refl

decode_packet_bounds_example : (2 ≤ 16) × (16 ≤ length sample_bytes)
decode_packet_bounds_example = decode_packet_bounds sample_bytes sample_decodes

decode_packet-take_example : decode_packet (take 9 sample_bytes) ≡ err incomplete
decode_packet-take_example = decode_packet-take sample_bytes 9 sample_decodes (omega arith)

decode_packet-ne-stuck_example : decode_packet cut_filter ≢ stuck
decode_packet-ne-stuck_example = decode_packet-ne-stuck cut_filter

decode_packet-ne-panic_example : decode_packet cut_filter ≢ panic
decode_packet-ne-panic_example =
    decode_packet-ne-panic 0x82 (6 ∷ 0 ∷ 1 ∷ 0 ∷ 0 ∷ 9 ∷ b'a' ∷ []) (omega arith)

decode_connect_fields-ne-panic_example :
    decode_connect_fields 0xc2 (0 ∷ 60 ∷ 0 ∷ 0 ∷ 9 ∷ b'c' ∷ []) ≢ panic
decode_connect_fields-ne-panic_example =
    decode_connect_fields-ne-panic 0xc2 (0 ∷ 60 ∷ 0 ∷ 0 ∷ 9 ∷ b'c' ∷ []) (omega arith)

no_properties-IsConnectProperties : IsConnectProperties no_connect_properties
no_properties-IsConnectProperties = record {
  session_expiry_interval = tt;
  receive_maximum = tt;
  max_packet_size = tt;
  topic_alias_maximum = tt;
  user_properties = tt;
  auth_method = tt;
  auth_data = tt;
}

-- Flags with the will's bit, keep-alive 0, no properties, client "c", a will with 100 bytes announced, and
-- a ping behind the frame.
decode_packet-eq-panic_example :
    decode_packet (
      frame 0x10 (payload_with_will 0x04 0 no_connect_properties (b'c' ∷ []) 100 [])
      ++ 0xC0 ∷ 0 ∷ [])
    ≡ panic
unfolding is_utf8 section_bytes groups connect_fields push_some push_user_properties
decode_packet-eq-panic_example =
    decode_packet-eq-panic 0x04 0 no_connect_properties (b'c' ∷ []) 100 [] (0xC0 ∷ 0 ∷ [])
      (omega arith) (omega arith) no_properties-IsConnectProperties (refl, omega arith)
      (omega arith) (omega arith) (omega arith)

decode_varint-encode_varint_example :
    decode_varint (encode_varint 321 [] ++ 5 ∷ []) ≡ ok (321, length (encode_varint 321 []))
decode_varint-encode_varint_example = decode_varint-encode_varint 321 (5 ∷ []) (omega arith)

decode_varint-encode_varint_wide_example :
    decode_varint (encode_varint 0x1000_0000 [] ++ []) ≡ err invalid_varint
decode_varint-encode_varint_wide_example =
    decode_varint-encode_varint_wide 0x1000_0000 [] (omega arith) (omega arith)

decode_varint_bounds_example : (321 < 2 ^ 28) × (1 ≤ 2) × (2 ≤ 4) × (2 ≤ 3)
unfolding decode_varint
decode_varint_bounds_example = decode_varint_bounds (0xc1 ∷ 2 ∷ 9 ∷ []) 321 2 (omega arith) refl
