-- ===== src/Codec/RoundTrip/Frame.antt =====
-- The fixed header of src/codec.rs around a payload, and the round trip of whole packets.
use pipistrelle.Prelude.{◌∙◌}
use pipistrelle.Codec.Outcome.{◌>>=◌}
use pipistrelle.Prelude.{
  ℕ, suc, ◌+◌, ◌-◌, ◌/◌, ◌%◌, ◌^◌, ◌≡◌, refl, arith, List, [], ◌∷◌, ◌++◌, append_assoc, length,
  length-append, bit_and,
}
use pipistrelle.Codec.Outcome.{ok, bind_ok}
use pipistrelle.Codec.Wire.{
  IsVarint, write_u8_lem, read_u8_lem, not_short, slice_to-append, slice_from-append,
}
use pipistrelle.Codec.Write.{write_u8}
use pipistrelle.Codec.Varint.Bytes.{groups, encode_varint_short}
use pipistrelle.Codec.Varint.RoundTrip.{decode_varint-groups}
use pipistrelle.Codec.Packet.{
  Packet, connect, conn_ack, publish, pub_ack, subscribe, sub_ack, ping_req, ping_resp, disconnect,
}
use pipistrelle.Codec.Decode.{decode_body, decode_ping, decode_packet}
use pipistrelle.Codec.Encode.{header_and_payload, encode_packet}
use pipistrelle.Codec.RoundTrip.Valid.{IsPacket}
use pipistrelle.Codec.RoundTrip.Connect.{decode_connect-connect_payload}
use pipistrelle.Codec.RoundTrip.Publish.{publish_header-type, decode_publish-publish_payload}
use pipistrelle.Codec.RoundTrip.Acks.{
  decode_conn_ack-conn_ack_payload, decode_sub_ack-sub_ack_payload,
}
use pipistrelle.Codec.RoundTrip.Reasons.{decode_pub_ack-pub_ack_payload}
use pipistrelle.Codec.RoundTrip.Subscribe.{decode_subscribe-subscribe_payload}
use pipistrelle.Codec.RoundTrip.Disconnect.{decode_disconnect-disconnect_payload}

-- A frame: the header's byte, the payload's length, the payload.
unfoldable pub frame : ℕ → List ℕ → List ℕ
frame header payload = header ∷ (groups 3 (length payload) ++ payload)

-- The outcome on a frame is that of its body, with the frame's size if that is a packet.
pub decode_packet-frame_body :
    (header : ℕ) (payload rest : List ℕ)
    → IsVarint (length payload)
    → decode_packet (frame header payload ++ rest) ≡ (
        decode_body (header / 16) (bit_and header 0x0f) (length payload) payload >>= λ packet.
        ok (packet, length (frame header payload)))
unfolding decode_packet frame
decode_packet-frame_body header payload rest h =
    let prefix : List ℕ = groups 3 (length payload) in
    let size : suc (length (prefix ++ (payload ++ rest)))
          - length (payload ++ rest)
          + length payload
        ≡ suc (length (prefix ++ payload)) =
      omega (
        arith,
        length-append prefix payload,
        length-append prefix (payload ++ rest),
        length-append payload rest,
      ) in
    rw (append_assoc prefix payload rest) (
      bind_ok _ (read_u8_lem header _) (
        bind_ok _ (decode_varint-groups (length payload) (payload ++ rest) h) (
          bind_ok _ (slice_from-append prefix (payload ++ rest)) (
            rw (not_short payload rest)
              (bind_ok _ (slice_to-append payload rest) (rw size refl))))))

pub decode_packet-frame :
    (header : ℕ) (payload rest : List ℕ) {packet : Packet}
    → IsVarint (length payload)
    → decode_body (header / 16) (bit_and header 0x0f) (length payload) payload ≡ ok packet
    → decode_packet (frame header payload ++ rest) ≡ ok (packet, length (frame header payload))
decode_packet-frame header payload rest h body =
    decode_packet-frame_body header payload rest h ∙ bind_ok _ body refl

pub encode_packet-frame :
    (p : Packet) (buf : List ℕ)
    → IsVarint (length (header_and_payload p).1)
    → encode_packet p buf ≡ buf ++ frame (header_and_payload p).0 (header_and_payload p).1
unfolding encode_packet frame
encode_packet-frame p buf h =
    let (header, payload) = header_and_payload p in
    let small : length payload % 2 ^ 32 ≡ length payload = omega arith in
    rw (small, encode_varint_short (length payload) (write_u8 header buf) h, write_u8_lem)
      (simp append_assoc)

decode_body-payload :
    (p : Packet)
    → IsPacket p
    → IsVarint (length (header_and_payload p).1)
    → let (header, payload) = header_and_payload p in
      decode_body (header / 16) (bit_and header 0x0f) (length payload) payload ≡ ok p
unfolding decode_body header_and_payload decode_ping
decode_body-payload (connect pkt) v h = decode_connect-connect_payload pkt v h
decode_body-payload (conn_ack pkt) v h = decode_conn_ack-conn_ack_payload pkt v h
decode_body-payload (publish pkt) v h =
    rw (publish_header-type pkt v h) (decode_publish-publish_payload pkt v h)
decode_body-payload (pub_ack pkt) v h = decode_pub_ack-pub_ack_payload pkt v h
decode_body-payload (subscribe pkt) v h = decode_subscribe-subscribe_payload pkt v h
decode_body-payload (sub_ack pkt) v h = decode_sub_ack-sub_ack_payload pkt v h
decode_body-payload ping_req v h = refl
decode_body-payload ping_resp v h = refl
decode_body-payload (disconnect pkt) v h = decode_disconnect-disconnect_payload pkt v h

-- `decode_packet` reads back every packet that `encode_packet` can write in full, whose payload is
-- shorter than 2^28 bytes: it returns the packet and the number of bytes written, whatever follows.
pub decode_packet-encode_packet :
    (p : Packet) (rest : List ℕ)
    → IsPacket p
    → IsVarint (length (header_and_payload p).1)
    → decode_packet (encode_packet p [] ++ rest) ≡ ok (p, length (encode_packet p []))
decode_packet-encode_packet p rest v h =
    let (header, payload) = header_and_payload p in
    rw (encode_packet-frame p [] h)
      (decode_packet-frame header payload rest h (decode_body-payload p v h))
