-- ===== src/Connection/Reach.antt =====
-- The states that src/main.rs and src/bridge.rs bring the broker to, one call after the other.
use pipistrelle.Prelude.{
  ℕ, ◌≡◌, refl, Bool, not, Bool-cases, inl, inr, List, [], ◌∷◌, ◌++◌, All, Option, none, some,
  length, ltb, ◌==◌,
}
use pipistrelle.Prelude.Text.{Str}
use pipistrelle.PacketLoop.{OnHandled, done}
use pipistrelle.Config.{AuthConfig, authorize, read_action, write_action}
use pipistrelle.Codec.Packet.{
  Packet, connect, conn_ack, publish, pub_ack, subscribe, sub_ack, ping_req, ping_resp, disconnect,
  Connect, Publish, Subscription,
}
use pipistrelle.Session.State.{
  ClientSession, BrokerState, new_broker, update_activity, on_session, deref,
}
use pipistrelle.Session.Deliver.{Message, route_publish, bridge_client}
use pipistrelle.Session.Registry.{
  register_session, remove_session, graceful_shutdown, restore_sessions_from_db, loaded,
}
use pipistrelle.Session.Invariant.{
  IsSession, IsValid, IsValid-same, new_broker-IsValid, on_session-IsValid, update_activity-Keeps,
  send_packet-Keeps, remove_in_flight-Keeps, new_session-IsSession, new_arc-IsValid,
}
use pipistrelle.Session.Preserved.{
  route_publish-IsValid, remove_session-IsValid, subscribe-IsValid, graceful_shutdown-IsValid,
  IsRow, restore_sessions_from_db-IsValid,
}
use pipistrelle.Connection.Process.{
  reply_ack, acknowledge, or_empty, process_publish, subscribe_one, subscribe_all,
  process_subscribe, process_pub_ack, process, process_for, process_client_packet,
}
use pipistrelle.Connection.Handshake.{Handshake, accepted, turned_away, crashed, accept}

-- A call by one of the broker's tasks. Each is a step by itself, in any order and on any session.
pub data Step (s t : BrokerState) : Type 0 where
  connects :
      (now : ℕ) (pkt : Connect) (read_buf : List ℕ) {arc : ℕ} {client_id : Str} {rest : List ℕ}
      → accept now pkt read_buf s ≡ accepted arc client_id rest t
      → Step s t
  reads : (now arc : ℕ) → t ≡ on_session arc (update_activity now) s → Step s t
  handles :
      (now arc : ℕ) (packet : Packet) → process_client_packet now arc packet s ≡ done t → Step s t
  leaves : (client_id : Str) → t ≡ remove_session client_id s → Step s t
  is_bridged : (m : Message) → t ≡ route_publish bridge_client m s → Step s t
  starts_bridge : t ≡ record s { bridge_sender = some [] } → Step s t
  shuts_down : t ≡ graceful_shutdown s → Step s t

pub data Reach (s : BrokerState) : BrokerState → Type 0 where
  here : Reach s s
  next : {t u : BrokerState} → Reach s t → Step t u → Reach s u

abbrev state_of : Handshake → BrokerState
state_of (accepted arc client_id read_buf state) = state
state_of (turned_away bytes state) = state
state_of (crashed state) = state

register-IsValid :
    (session : ClientSession) (s : BrokerState)
    → IsSession session
    → IsValid s
    → IsValid
        (register_session (length s.arcs) session (record s { arcs = s.arcs ++ session ∷ [] }))
unfolding register_session
register-IsValid session s v h = elim (Bool-cases (ltb 0 session.session_expiry_interval)) [
  | inl e ↦ rw e (IsValid-same refl refl (new_arc-IsValid session s v h))
  | inr e ↦ rw e (new_arc-IsValid session s v h)
]

accept-IsValid :
    (now : ℕ) (pkt : Connect) (read_buf : List ℕ) (s : BrokerState)
    → IsValid s
    → IsValid (state_of (accept now pkt read_buf s))
unfolding accept
accept-IsValid now pkt read_buf s h = on_session-IsValid _ _ (send_packet-Keeps _) (
    register-IsValid _ s
      (new_session-IsSession now pkt.client_id pkt.username pkt.clean_start pkt.keep_alive _) h)

acknowledge-IsValid :
    (arc code : ℕ) (pkt : Publish) (s : BrokerState)
    → IsValid s
    → IsValid (acknowledge arc code pkt s)
unfolding acknowledge
acknowledge-IsValid arc code pkt s h = elim (Bool-cases (pkt.qos == 1)) [
  | inl e ↦ rw e (ack pkt.packet_id)
  | inr e ↦ rw e h
]
  where
    ack : (id : Option ℕ) → IsValid (reply_ack arc code id s)
    ack none = h
    ack (some pid) = on_session-IsValid arc s (send_packet-Keeps _) h

process_publish-IsValid :
    (now arc : ℕ) (session : ClientSession) (pkt : Publish) (s : BrokerState)
    → IsValid s
    → IsValid (process_publish now arc session pkt s)
unfolding process_publish
process_publish-IsValid now arc session pkt s h =
    elim (Bool-cases (not (authorize s.auth (or_empty session.username) pkt.topic write_action))) [
      | inl e ↦ rw e (acknowledge-IsValid arc _ pkt s h)
      | inr e ↦
          rw e (acknowledge-IsValid arc 0 pkt _ (route_publish-IsValid session.client_id _ s h))
    ]

subscribe_one-IsValid :
    (session : ClientSession) (id : Option ℕ) (sub : Subscription) (s : BrokerState)
    → IsValid s
    → IsValid (subscribe_one session id sub s).1
unfolding subscribe_one
subscribe_one-IsValid session id sub s h =
    elim (Bool-cases (authorize s.auth (or_empty session.username) sub.topic_filter read_action)) [
      | inl e ↦ rw e (subscribe-IsValid session.client_id sub.topic_filter _ id s h)
      | inr e ↦ rw e h
    ]

subscribe_all-IsValid :
    (session : ClientSession) (id : Option ℕ) (subs : List Subscription) (s : BrokerState)
    → IsValid s
    → IsValid (subscribe_all session id subs s).1
unfolding subscribe_all
subscribe_all-IsValid session id [] s h = h
subscribe_all-IsValid session id (sub ∷ subs) s h =
    subscribe_all-IsValid session id subs (subscribe_one session id sub s).1
      (subscribe_one-IsValid session id sub s h)

process-IsValid :
    (now arc : ℕ) (session : ClientSession) (packet : Packet) (s : BrokerState)
    → IsValid s
    → OnHandled IsValid (process now arc session packet s)
unfolding process process_subscribe process_pub_ack
process-IsValid now arc session (publish pkt) s h = process_publish-IsValid now arc session pkt s h
process-IsValid now arc session (subscribe pkt) s h =
    on_session-IsValid arc _ (send_packet-Keeps _)
      (subscribe_all-IsValid session pkt.properties.subscription_identifier pkt.subscriptions s h)
process-IsValid now arc session (pub_ack pkt) s h =
    IsValid-same refl refl (on_session-IsValid arc s (remove_in_flight-Keeps pkt.packet_id) h)
process-IsValid now arc session ping_req s h = on_session-IsValid arc s (send_packet-Keeps _) h
process-IsValid now arc session (disconnect pkt) s h = h
process-IsValid now arc session (connect pkt) s h = h
process-IsValid now arc session (conn_ack pkt) s h = h
process-IsValid now arc session (sub_ack pkt) s h = h
process-IsValid now arc session ping_resp s h = h

process_for-IsValid :
    (now arc : ℕ) (packet : Packet) (s : BrokerState) (session : Option ClientSession)
    → IsValid s
    → OnHandled IsValid (process_for now arc packet s session)
process_for-IsValid now arc packet s none h = h
process_for-IsValid now arc packet s (some session) h = process-IsValid now arc session packet s h

pub process_client_packet-IsValid :
    (now arc : ℕ) (packet : Packet) (s : BrokerState)
    → IsValid s
    → OnHandled IsValid (process_client_packet now arc packet s)
unfolding process_client_packet
process_client_packet-IsValid now arc packet s h =
    process_for-IsValid now arc packet s (deref arc s) h

pub Step-IsValid : {s t : BrokerState} → Step s t → IsValid s → IsValid t
Step-IsValid (connects now pkt read_buf e) h = rw e at (accept-IsValid now pkt read_buf _ h)
Step-IsValid (reads now arc e) h = rw e (on_session-IsValid arc _ (update_activity-Keeps now) h)
Step-IsValid (handles now arc packet e) h =
    rw e at (process_client_packet-IsValid now arc packet _ h)
Step-IsValid (leaves client_id e) h = rw e (remove_session-IsValid client_id _ h)
Step-IsValid (is_bridged m e) h = rw e (route_publish-IsValid bridge_client m _ h)
Step-IsValid (starts_bridge e) h = rw e (IsValid-same refl refl h)
Step-IsValid (shuts_down e) h = rw e (graceful_shutdown-IsValid _ h)

Reach-keeps : {s t : BrokerState} → IsValid s → Reach s t → IsValid t
Reach-keeps h here = h
Reach-keeps h (next r st) = Step-IsValid st (Reach-keeps h r)

-- Whatever the broker's tasks do after a start from the database, in whatever order their calls fall: each
-- entry of `sessions` leads to a session of its client, and each session has its messages in flight
-- under identifiers from 1 to 65535. The rows of messages that it started from have such identifiers.
pub Reach-IsValid :
    (auth : AuthConfig) (now : ℕ) (sessions : Option (List (Str × Option Str × Bool × ℕ)))
    (subscriptions : Option (List (Str × Str × ℕ × Option ℕ)))
    (in_flight : Option (List (Str × ℕ × Str × List ℕ × ℕ))) {t : BrokerState}
    → All IsRow (loaded in_flight)
    → Reach (restore_sessions_from_db now sessions subscriptions in_flight (new_broker auth)) t
    → IsValid t
Reach-IsValid auth now sessions subscriptions in_flight rows r =
    Reach-keeps
      (restore_sessions_from_db-IsValid now sessions subscriptions in_flight (new_broker auth) rows
        (new_broker-IsValid auth))
      r
