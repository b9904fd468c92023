-- ===== src/Connection/Refused.antt =====
-- A packet that `process_client_packet` of src/main.rs refuses changes nothing.
use pipistrelle.Prelude.{ℕ, ◌≡◌, Option, none, some}
use pipistrelle.PacketLoop.{refused}
use pipistrelle.Codec.Packet.{
  Packet, connect, conn_ack, publish, pub_ack, subscribe, sub_ack, ping_req, ping_resp, disconnect,
}
use pipistrelle.Session.State.{ClientSession, BrokerState, deref}
use pipistrelle.Connection.Process.{process, process_for, process_client_packet}

process-refused :
    (now arc : ℕ) (session : ClientSession) (packet : Packet) (s : BrokerState) {t : BrokerState}
    → process now arc session packet s ≡ refused t
    → t ≡ s
unfolding process
process-refused now arc session (connect pkt) s e = cc
process-refused now arc session (conn_ack pkt) s e = cc
process-refused now arc session (publish pkt) s e = cc
process-refused now arc session (pub_ack pkt) s e = cc
process-refused now arc session (subscribe pkt) s e = cc
process-refused now arc session (sub_ack pkt) s e = cc
process-refused now arc session ping_req s e = cc
process-refused now arc session ping_resp s e = cc
process-refused now arc session (disconnect pkt) s e = cc

process_for-refused :
    (now arc : ℕ) (packet : Packet) (s : BrokerState) (session : Option ClientSession)
    {t : BrokerState}
    → process_for now arc packet s session ≡ refused t
    → t ≡ s
process_for-refused now arc packet s none e = cc
process_for-refused now arc packet s (some session) e = process-refused now arc session packet s e

pub refused_same :
    (now arc : ℕ) (packet : Packet) (s : BrokerState) {t : BrokerState}
    → process_client_packet now arc packet s ≡ refused t
    → t ≡ s
unfolding process_client_packet
refused_same now arc packet s e = process_for-refused now arc packet s (deref arc s) e
