-- ===== src/Connection/Answer.antt =====
-- A packet that src/main.rs puts into the channel of one session.
use pipistrelle.Codec.Properties.{push_some, push_user_properties}
use pipistrelle.Codec.Properties.Sections.{section_bytes}
use pipistrelle.Codec.Varint.Bytes.{groups}
use pipistrelle.Prelude.{
  ℕ, ◌≡◌, ◌≢◌, refl, arith, Bool-cases, inl, inr, ◌==◌, List, [], ◌∷◌, ◌++◌, length,
  get_elem?-modify, get_elem?-modify_ne, some,
}
use pipistrelle.Codec.Outcome.{ok}
use pipistrelle.Codec.Wire.{IsVarint}
use pipistrelle.Codec.Write.{write_u8, write_u16}
use pipistrelle.Codec.Properties.PubAck.{
  no_pub_ack_properties, pub_ack_fields, encode_pub_ack_properties, encode_pub_ack_properties_lem,
}
use pipistrelle.Codec.Packet.{Packet}
use pipistrelle.Codec.Decode.{decode_packet}
use pipistrelle.Codec.Encode.{encode_packet, header_and_payload, pub_ack_payload}
use pipistrelle.Codec.RoundTrip.Valid.{IsPacket}
use pipistrelle.Session.State.{ClientSession, BrokerState, send_packet, deref}
use pipistrelle.Session.Delivery.{frame_reads}
use pipistrelle.Connection.Process.{reply, ack_pkt}

-- `t` is `s` with one frame more in the channel of the session at `arc`, which decodes to the packet.
pub record Answers (arc : ℕ) (packet : Packet) (s t : BrokerState) : Type 0 where
  pub session : ClientSession
  pub frame : List ℕ
  pub before : deref arc s ≡ some session
  pub after : deref arc t ≡ some (record session { sender = session.sender ++ frame ∷ [] })
  pub reads : decode_packet frame ≡ ok (packet, length frame)
  pub others : (j : ℕ) → j ≢ arc → deref j t ≡ deref j s
  pub rest : t ≡ record s { arcs = t.arcs }

pub reply-Answers :
    (arc : ℕ) (packet : Packet) (s : BrokerState) {session : ClientSession}
    → deref arc s ≡ some session
    → IsPacket packet
    → IsVarint (length (header_and_payload packet).1)
    → Answers arc packet s (reply arc packet s)
unfolding send_packet
reply-Answers arc packet s {session} e h fits = record {
  session = session;
  frame = encode_packet packet [];
  before = e;
  after = get_elem?-modify arc (send_packet packet) s.arcs e;
  reads = frame_reads packet h fits;
  others = λ j ne. get_elem?-modify_ne arc j (send_packet packet) s.arcs ne;
  rest = refl;
}

plain_fits : (pid : ℕ) → IsVarint (length (write_u16 pid []))
unfolding write_u16
plain_fits pid = omega arith

with_code_fits :
    (pid code : ℕ)
    → IsVarint (
        length (encode_pub_ack_properties no_pub_ack_properties (write_u8 code (write_u16 pid []))))
unfolding write_u16 write_u8 pub_ack_fields push_user_properties push_some section_bytes groups
with_code_fits pid code =
    rw
      (encode_pub_ack_properties_lem no_pub_ack_properties (write_u8 code (write_u16 pid []))
        (omega arith))
      (omega arith)

pub ack_pkt-fits : (pid code : ℕ) → IsVarint (length (header_and_payload (ack_pkt pid code)).1)
unfolding header_and_payload pub_ack_payload
ack_pkt-fits pid code = elim (Bool-cases (code == 0)) [
  | inl e ↦ rw e (plain_fits pid)
  | inr e ↦ rw e (with_code_fits pid code)
]
