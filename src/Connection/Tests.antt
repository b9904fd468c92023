-- ===== src/Connection/Tests.antt =====
-- Concrete clients of src/main.rs and src/session.rs, and the theorems at them.
use pipistrelle.Prelude.{
  ◌^◌, ℕ, suc, ◌<◌, ◌≡◌, ◌≢◌, refl, arith, Bool, false, List, [], ◌∷◌, length, Option, none, some,
}
use pipistrelle.Prelude.Text.{Str, split_slash, starts_with}
use pipistrelle.PacketLoop.{done, drain}
use pipistrelle.PacketLoop.Laws.{resume, resume-drain, Settled, drain-Settled}
use pipistrelle.Config.{AuthConfig, authorize}
use pipistrelle.Codec.Packet.{Publish, publish, Subscribe, subscribe}
use pipistrelle.Codec.Properties.Publish.{
  no_publish_properties, publish_fields, encode_publish_properties,
}
use pipistrelle.Codec.Properties.SubAck.{sub_ack_fields, encode_sub_ack_properties}
use pipistrelle.Codec.Properties.Subscribe.{no_subscribe_properties}
use pipistrelle.Codec.Utf8.{is_utf8}
use pipistrelle.Codec.Varint.{encode_varint}
use pipistrelle.Codec.Properties.{push_some, push_user_properties, push_section}
use pipistrelle.Codec.Encode.{header_and_payload, publish_payload, sub_ack_payload}
use pipistrelle.Router.Maps.{get}
use pipistrelle.Router.Trie.{SubscriptionInfo, default_node, parse_shared_subscription}
use pipistrelle.Session.State.{ClientSession, BrokerState, new_broker, deref}
use pipistrelle.Session.Deliver.{
  Message, publish_pkt, send_publish_to_client, send_group, bridge_client, route_publish,
}
use pipistrelle.Session.Registry.{remove_session, restore_sessions_from_db}
use pipistrelle.Session.Invariant.{IsValid}
use pipistrelle.Session.Delivery.{CanCarry, HasSent, send_publish_to_client-HasSent}
use pipistrelle.Session.Counts.{frames_at}
use pipistrelle.Session.Reached.{frames_at-route_publish-subscribe}
use pipistrelle.Session.Registry
use pipistrelle.Router.Filter.{matches}
use pipistrelle.Session.Turns.{counters_after, send_group_turn}
use pipistrelle.Session.Routed.{bridge_sender-route_publish}
use pipistrelle.Connection.{ReadResult, received, closed, serve}
use pipistrelle.Connection.Process.{process_client_packet, ack_pkt}
use pipistrelle.Connection.Handshake.{handshake}
use pipistrelle.Connection.Reach.{here, next, is_bridged, leaves, Reach-IsValid}
use pipistrelle.Connection.Trace.{OnTrace}
use pipistrelle.Connection.ReadLoop.{serve-OnTrace}
use pipistrelle.Connection.Answer.{Answers}
use pipistrelle.Connection.Replies.{
  routed, ack_code, process_client_packet-publish, reason_codes, allowed, make_all, sub_ack_pkt,
  process_client_packet-subscribe, OnlyAnswers, process_client_packet-OnlyAnswers,
}
use pipistrelle.Connection.Admission.{Outcome, handshake-Outcome}

abbrev client_a : Str
client_a = b'a' ∷ []

abbrev topic_t : Str
topic_t = b't' ∷ []

abbrev session_a : ClientSession
session_a = record {
  client_id = client_a;
  username = none;
  clean_start = false;
  keep_alive = 60;
  session_expiry_interval = 100;
  last_activity = 0;
  sender = [];
  topic_aliases = [];
  next_packet_id = 1;
  in_flight = [];
}

-- `users` is none where everyone may do everything, and empty where no one may.
abbrev broker_with : AuthConfig → BrokerState
broker_with auth = record {
  router = default_node;
  arcs = session_a ∷ [];
  sessions = (client_a, 0) ∷ [];
  auth = auth;
  tasks = [];
  shared_group_counters = [];
  metrics_messages_published = 0;
  metrics_subscriptions = 0;
  bridge_sender = some [];
}

abbrev open_auth : AuthConfig
open_auth = record { users = none }

abbrev closed_auth : AuthConfig
closed_auth = record { users = some [] }

abbrev broker : BrokerState
broker = broker_with open_auth

broker-IsValid : IsValid broker
broker-IsValid = record {
  arcs = (record { next_packet_id = omega arith; in_flight = tt }, tt);
  sessions = (refl, tt);
}

abbrev greeting : Message
greeting = record { now = 5; topic = topic_t; payload = 1 ∷ 2 ∷ []; qos = 1; retain = false }

greeting_fits :
    (pid : Option ℕ) → length (header_and_payload (publish_pkt greeting pid none)).1 < 2 ^ 28
unfolding header_and_payload publish_payload encode_publish_properties push_section encode_varint
    publish_fields push_user_properties push_some
greeting_fits none = omega arith
greeting_fits (some pid) = omega arith

greeting-CanCarry : CanCarry greeting none
unfolding is_utf8
greeting-CanCarry = record {
  qos = omega arith;
  topic = (refl, omega arith);
  identifier = tt;
  fits = greeting_fits;
}

resume-drain_example :
    resume
      (process_client_packet 7 0)
      (0 ∷ 0xC0 ∷ [])
      (drain (process_client_packet 7 0) (0xC0 ∷ []) broker)
    ≡ drain (process_client_packet 7 0) (0xC0 ∷ 0 ∷ 0xC0 ∷ []) broker
resume-drain_example = resume-drain (process_client_packet 7 0) (0xC0 ∷ []) (0 ∷ 0xC0 ∷ []) broker

drain-Settled_example :
    Settled
      (process_client_packet 7 0)
      (drain (process_client_packet 7 0) (0xC0 ∷ 0 ∷ 0xC0 ∷ []) broker)
drain-Settled_example = drain-Settled (process_client_packet 7 0) (0xC0 ∷ 0 ∷ 0xC0 ∷ []) broker

send_publish_to_client-HasSent_example :
    (t : ClientSession) × (deref 0 (send_publish_to_client greeting client_a none broker) ≡ some t)
    × HasSent greeting none session_a t
    × ((j : ℕ)
        → j ≢ 0
        → deref j (send_publish_to_client greeting client_a none broker) ≡ deref j broker)
unfolding get
send_publish_to_client-HasSent_example =
    send_publish_to_client-HasSent greeting client_a none broker 0 session_a broker-IsValid
      greeting-CanCarry refl

abbrev sub_a : SubscriptionInfo
sub_a = record { client_id = client_a; qos = 1; subscription_identifier = none }

frames_at-route_publish-subscribe_example :
    frames_at 0 broker
    < frames_at 0
        (route_publish (b'b' ∷ []) greeting (Registry.subscribe client_a topic_t 0 none broker))
unfolding get parse_shared_subscription split_slash starts_with matches
frames_at-route_publish-subscribe_example =
    frames_at-route_publish-subscribe (b'b' ∷ []) greeting client_a topic_t 0 none broker 0
      broker-IsValid refl refl refl

abbrev sub_b : SubscriptionInfo
sub_b = record { client_id = b'b' ∷ []; qos = 0; subscription_identifier = none }

send_group_turn_example :
    (k : ℕ) × (k < 2)
    × (send_group greeting topic_t
          (sub_a ∷ sub_b ∷ [])
          (record broker { shared_group_counters = counters_after topic_t k [] })
        ≡ send_publish_to_client greeting
            (b'b' ∷ [])
            none
            (record broker { shared_group_counters = counters_after topic_t (suc k) [] }))
unfolding get
send_group_turn_example =
    send_group_turn greeting topic_t (sub_a ∷ sub_b ∷ []) sub_b broker 1 refl (omega arith)

bridge_sender-route_publish_example :
    (route_publish client_a greeting broker).bridge_sender ≡ some ((topic_t, 1 ∷ 2 ∷ []) ∷ [])
bridge_sender-route_publish_example = bridge_sender-route_publish client_a greeting broker

abbrev packet_a : Publish
packet_a = record {
  dup = false;
  qos = 1;
  retain = false;
  topic = topic_t;
  packet_id = some 9;
  properties = no_publish_properties;
  payload = 1 ∷ 2 ∷ [];
}

process_client_packet-publish_example :
    (t : BrokerState) × (process_client_packet 7 0 (publish packet_a) broker ≡ done t)
    × Answers 0
        (ack_pkt 9 (ack_code session_a topic_t broker))
        (routed 7 session_a packet_a broker)
        t
process_client_packet-publish_example =
    process_client_packet-publish 7 0 9 session_a packet_a broker refl refl refl (omega arith)

process_client_packet-OnlyAnswers_example :
    (t : BrokerState) × (process_client_packet 7 0 (publish packet_a) (broker_with closed_auth)
      ≡ done t)
    × OnlyAnswers 0 session_a (broker_with closed_auth) t
unfolding authorize get
process_client_packet-OnlyAnswers_example =
    process_client_packet-OnlyAnswers 7 0 session_a packet_a (broker_with closed_auth) refl refl

abbrev subscribe_a : Subscribe
subscribe_a = record {
  packet_id = 3;
  properties = no_subscribe_properties;
  subscriptions = record { topic_filter = topic_t; options = 1 } ∷ [];
}

process_client_packet-subscribe_example :
    (t : BrokerState) × (process_client_packet 7 0 (subscribe subscribe_a) broker ≡ done t)
    × Answers 0
        (sub_ack_pkt 3 (reason_codes session_a broker subscribe_a.subscriptions))
        (make_all client_a none (allowed session_a broker subscribe_a.subscriptions) broker)
        t
unfolding header_and_payload sub_ack_payload encode_sub_ack_properties push_section encode_varint
    sub_ack_fields push_user_properties push_some
process_client_packet-subscribe_example =
    process_client_packet-subscribe 7 0 session_a subscribe_a broker refl (omega arith)
      (omega arith)

abbrev no_password : Str → Str → Bool
no_password password hash = false

-- Here the lossy conversion changes nothing.
abbrev as_is : List ℕ → Str
as_is bytes = bytes

-- A CONNECT of the client `b` with the clean start flag, and the first byte of another packet.
abbrev connect_bytes : List ℕ
connect_bytes =
    0x10 ∷ 14 ∷ 0 ∷ 4 ∷ b'M' ∷ b'Q' ∷ b'T' ∷ b'T' ∷ 5 ∷ 2 ∷ 0 ∷ 60 ∷ 0 ∷ 0 ∷ 1 ∷ b'b' ∷ 0xC0 ∷ []

handshake-Outcome_example :
    Outcome no_password as_is connect_bytes broker
      (handshake no_password as_is 7 connect_bytes broker)
handshake-Outcome_example = handshake-Outcome no_password as_is 7 connect_bytes broker

-- A ping in the first read, a byte that begins no packet in the second, and the end.
abbrev two_reads : List ReadResult
two_reads = received (0xC0 ∷ []) ∷ received (0 ∷ []) ∷ closed ∷ []

serve-OnTrace_example :
    OnTrace 7 0 client_a [] broker two_reads (serve 7 0 client_a two_reads [] broker)
serve-OnTrace_example = serve-OnTrace 7 0 client_a two_reads [] broker

-- A session and a message of it that the database holds.
abbrev restored : BrokerState
restored =
    restore_sessions_from_db 3 (some ((client_a, none, false, 100) ∷ [])) none
      (some ((client_a, 4, topic_t, 1 ∷ [], 1) ∷ [])) (new_broker open_auth)

Reach-IsValid_example :
    IsValid (remove_session client_a (route_publish bridge_client greeting restored))
Reach-IsValid_example =
    Reach-IsValid open_auth 3 (some ((client_a, none, false, 100) ∷ [])) none
      (some ((client_a, 4, topic_t, 1 ∷ [], 1) ∷ [])) ((omega arith, omega arith), tt)
      (next (next here (is_bridged greeting refl)) (leaves client_a refl))
