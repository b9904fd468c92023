-- ===== src/Connection/Process.antt =====
-- `process_client_packet` of src/main.rs.
use pipistrelle.Prelude.{ℕ, not, List, [], ◌∷◌, Option, none, some, bit_and, ◌==◌, if◌then◌else◌}
use pipistrelle.Prelude.Text.{Str}
use pipistrelle.PacketLoop.{Handled, done, refused}
use pipistrelle.Config.{authorize, read_action, write_action}
use pipistrelle.Codec.Packet.{
  Packet, connect, conn_ack, publish, pub_ack, subscribe, sub_ack, ping_req, ping_resp, disconnect,
  Publish, Subscribe, Subscription, PubAck,
}
use pipistrelle.Codec.Properties.PubAck.{no_pub_ack_properties}
use pipistrelle.Codec.Properties.SubAck.{no_sub_ack_properties}
use pipistrelle.Session.State.{
  ClientSession, BrokerState, send_packet, remove_in_flight, on_session, spawn, deref,
  delete_in_flight,
}
use pipistrelle.Session.Deliver.{Message, route_publish}
use pipistrelle.Session.Registry

abbrev pub not_authorized : ℕ
not_authorized = 0x87

abbrev pub or_empty : Option Str → Str
or_empty none = []
or_empty (some s) = s

-- `session.sender.send(..)` of an encoded packet
abbrev pub reply : (arc : ℕ) → Packet → BrokerState → BrokerState
reply arc packet = on_session arc (send_packet packet)

abbrev pub ack_pkt : (packet_id reason_code : ℕ) → Packet
ack_pkt packet_id reason_code = pub_ack (record {
  packet_id = packet_id;
  reason_code = reason_code;
  properties = no_pub_ack_properties;
})

abbrev pub reply_ack : (arc reason_code : ℕ) → Option ℕ → BrokerState → BrokerState
reply_ack arc reason_code none state = state
reply_ack arc reason_code (some pid) state = reply arc (ack_pkt pid reason_code) state

-- The PUBACK of a PUBLISH with QoS 1.
unfoldable pub acknowledge : (arc reason_code : ℕ) → Publish → BrokerState → BrokerState
acknowledge arc reason_code pkt state =
    if pkt.qos == 1 then reply_ack arc reason_code pkt.packet_id state else state

abbrev pub message_of : (now : ℕ) → Publish → Message
message_of now pkt = record {
  now = now;
  topic = pkt.topic;
  payload = pkt.payload;
  qos = pkt.qos;
  retain = pkt.retain;
}

unfoldable pub process_publish : (now arc : ℕ) → ClientSession → Publish → BrokerState → BrokerState
process_publish now arc session pkt state =
    if not (authorize state.auth (or_empty session.username) pkt.topic write_action)
    then acknowledge arc not_authorized pkt state
    else acknowledge arc 0 pkt (route_publish session.client_id (message_of now pkt) state)

-- One filter, with its reason code.
unfoldable pub subscribe_one :
    ClientSession → Option ℕ → Subscription → BrokerState → ℕ × BrokerState
subscribe_one session subscription_identifier sub state =
    if authorize state.auth (or_empty session.username) sub.topic_filter read_action
    then (
      bit_and sub.options 0x03,
      Registry.subscribe session.client_id sub.topic_filter (bit_and sub.options 0x03)
          subscription_identifier state,
    )
    else (not_authorized, state)

-- The loop over the filters, with the reason codes.
unfoldable pub subscribe_all :
    ClientSession → Option ℕ → List Subscription → BrokerState → List ℕ × BrokerState
subscribe_all session subscription_identifier [] state = ([], state)
subscribe_all session subscription_identifier (sub ∷ subs) state =
    let (code, state') = subscribe_one session subscription_identifier sub state in
    let (codes, state'') = subscribe_all session subscription_identifier subs state' in
    (code ∷ codes, state'')

unfoldable pub process_subscribe : (arc : ℕ) → ClientSession → Subscribe → BrokerState → BrokerState
process_subscribe arc session pkt state =
    let (reason_codes, state') =
      subscribe_all session pkt.properties.subscription_identifier pkt.subscriptions state in
    reply arc
      (sub_ack (record {
        packet_id = pkt.packet_id;
        properties = no_sub_ack_properties;
        reason_codes = reason_codes;
      }))
      state'

unfoldable pub process_pub_ack : (arc : ℕ) → ClientSession → PubAck → BrokerState → BrokerState
process_pub_ack arc session pkt state =
    spawn (delete_in_flight session.client_id pkt.packet_id)
      (on_session arc (remove_in_flight pkt.packet_id) state)

-- `match packet`, for the session at `arc`.
unfoldable pub process : (now arc : ℕ) → ClientSession → Packet → BrokerState → Handled BrokerState
process now arc session (publish pkt) state = done (process_publish now arc session pkt state)
process now arc session (subscribe pkt) state = done (process_subscribe arc session pkt state)
process now arc session (pub_ack pkt) state = done (process_pub_ack arc session pkt state)
process now arc session ping_req state = done (reply arc ping_resp state)
process now arc session (disconnect pkt) state = done state
process now arc session (connect pkt) state = refused state
process now arc session (conn_ack pkt) state = done state
process now arc session (sub_ack pkt) state = done state
process now arc session ping_resp state = done state

abbrev pub process_for :
    (now arc : ℕ) → Packet → BrokerState → Option ClientSession → Handled BrokerState
process_for now arc packet state none = done state
process_for now arc packet state (some session) = process now arc session packet state

-- The client's identifier and user name do not change, so they are read when the call begins. An `Arc`
-- always points to a session: `none` does not occur.
unfoldable pub process_client_packet : (now arc : ℕ) → Packet → BrokerState → Handled BrokerState
process_client_packet now arc packet state = process_for now arc packet state (deref arc state)
