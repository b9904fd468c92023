-- ===== src/Session/Preserved.antt =====
-- Each call of src/session.rs keeps the broker's state well-formed.
use pipistrelle.Prelude.{
  ℕ, ◌≤◌, ◌<◌, refl, Bool, ◌||◌, Bool-cases, inl, inr, List, [], ◌∷◌, All, length, get_elem?,
  Option, none, some, ◌%◌, ◌==◌,
}
use pipistrelle.Prelude.Text.{Str, bytes_eq}
use pipistrelle.Router.Maps.{HashMap, get, values, All-remove}
use pipistrelle.Router.Trie.{SubscriptionInfo}
use pipistrelle.Codec.Packet.{Packet}
use pipistrelle.Session.State.{ClientSession, BrokerState, new_session, deref}
use pipistrelle.Session.Deliver.{
  Message, send_publish_to_client, live_session, deliver, forward_to_bridge, bridge_client,
  send_normal, send_selected, next_index, send_group, send_shared, route_publish,
}
use pipistrelle.Session.Registry.{
  forget_session, drop_session, remove_session, subscribe, send_to_all, graceful_shutdown,
  restore_sessions, restore_subscriptions, restore_message, restore_in_flight, loaded,
  restore_sessions_from_db,
}
use pipistrelle.Session.Invariant.{
  IsValid, IsValid-same, IsEntry, on_session-IsValid, send_publish-Keeps, send_packet-Keeps,
  new_session-IsSession, new_arc-IsValid, add_in_flight-Keeps,
}

deliver-IsValid :
    (m : Message) (id : Option ℕ) (state : BrokerState) (target : Option (ℕ × ClientSession))
    → IsValid state
    → IsValid (deliver m id state target)
deliver-IsValid m id state none h = h
deliver-IsValid m id state (some (arc, session)) h =
    IsValid-same refl refl (on_session-IsValid arc state (send_publish-Keeps m id) h)

pub send_publish_to_client-IsValid :
    (m : Message) (client_id : Str) (id : Option ℕ) (state : BrokerState)
    → IsValid state
    → IsValid (send_publish_to_client m client_id id state)
unfolding send_publish_to_client
send_publish_to_client-IsValid m client_id id state h =
    deliver-IsValid m id state (live_session client_id state) h

pub send_normal-IsValid :
    (m : Message) (subs : List SubscriptionInfo) (state : BrokerState)
    → IsValid state
    → IsValid (send_normal m subs state)
unfolding send_normal
send_normal-IsValid m [] state h = h
send_normal-IsValid m (sub ∷ subs) state h =
    send_normal-IsValid m subs
      (send_publish_to_client m sub.client_id sub.subscription_identifier state)
      (send_publish_to_client-IsValid m sub.client_id sub.subscription_identifier state h)

send_selected-IsValid :
    (m : Message) (sub : Option SubscriptionInfo) (state : BrokerState)
    → IsValid state
    → IsValid (send_selected m sub state)
send_selected-IsValid m none state h = h
send_selected-IsValid m (some sub) state h =
    send_publish_to_client-IsValid m sub.client_id sub.subscription_identifier state h

pub send_group-IsValid :
    (m : Message) (group : Str) (subs : List SubscriptionInfo) (state : BrokerState)
    → IsValid state
    → IsValid (send_group m group subs state)
unfolding send_group
send_group-IsValid m group [] state h = h
send_group-IsValid m group (sub ∷ subs) state h =
    let r = next_index group state.shared_group_counters in
    send_selected-IsValid m (get_elem? (sub ∷ subs) (r.0 % length (sub ∷ subs)))
      (record state { shared_group_counters = r.1 }) (IsValid-same refl refl h)

send_shared-IsValid :
    (m : Message) (groups : HashMap (List SubscriptionInfo)) (state : BrokerState)
    → IsValid state
    → IsValid (send_shared m groups state)
unfolding send_shared
send_shared-IsValid m [] state h = h
send_shared-IsValid m ((group, subs) ∷ groups) state h =
    send_shared-IsValid m groups (send_group m group subs state)
      (send_group-IsValid m group subs state h)

forward_to_bridge-IsValid :
    (from : Str) (m : Message) (state : BrokerState)
    → IsValid state
    → IsValid (forward_to_bridge from m state)
unfolding forward_to_bridge
forward_to_bridge-IsValid from m state h = elim (Bool-cases (bytes_eq from bridge_client)) [
  | inl e ↦ rw e h
  | inr e ↦ rw e (IsValid-same refl refl h)
]

pub route_publish-IsValid :
    (from_client : Str) (m : Message) (state : BrokerState)
    → IsValid state
    → IsValid (route_publish from_client m state)
unfolding route_publish
route_publish-IsValid from_client m state h = send_shared-IsValid m _ _ (
    send_normal-IsValid m _ _
      (forward_to_bridge-IsValid from_client m _ (IsValid-same refl refl h)))

forget_session-IsValid :
    (client_id : Str) (session : Option ClientSession) (state : BrokerState)
    → IsValid state
    → IsValid (forget_session client_id session state)
forget_session-IsValid client_id none state h = h
forget_session-IsValid client_id (some session) state h =
    elim (Bool-cases (session.clean_start || session.session_expiry_interval == 0)) [
      | inl e ↦ rw e (IsValid-same refl refl h)
      | inr e ↦ rw e h
    ]

drop_session-IsValid :
    (client_id : Str) (state : BrokerState) (arc : Option ℕ)
    → IsValid state
    → IsValid (drop_session client_id state arc)
drop_session-IsValid client_id state none h = h
drop_session-IsValid client_id state (some arc) h =
    forget_session-IsValid client_id (deref arc state) _ (record {
      arcs = h.arcs;
      sessions = All-remove (IsEntry state.arcs) client_id state.sessions h.sessions;
    })

pub remove_session-IsValid :
    (client_id : Str) (state : BrokerState)
    → IsValid state
    → IsValid (remove_session client_id state)
unfolding remove_session
remove_session-IsValid client_id state h =
    drop_session-IsValid client_id state (get client_id state.sessions) h

pub subscribe-IsValid :
    (client_id topic_filter : Str) (qos : ℕ) (id : Option ℕ) (state : BrokerState)
    → IsValid state
    → IsValid (subscribe client_id topic_filter qos id state)
unfolding subscribe
subscribe-IsValid client_id topic_filter qos id state h = IsValid-same refl refl h

send_to_all-IsValid :
    (packet : Packet) (arcs : List ℕ) (state : BrokerState)
    → IsValid state
    → IsValid (send_to_all packet arcs state)
unfolding send_to_all
send_to_all-IsValid packet [] state h = h
send_to_all-IsValid packet (arc ∷ arcs) state h =
    send_to_all-IsValid packet arcs _ (on_session-IsValid arc state (send_packet-Keeps packet) h)

pub graceful_shutdown-IsValid :
    (state : BrokerState) → IsValid state → IsValid (graceful_shutdown state)
unfolding graceful_shutdown
graceful_shutdown-IsValid state h = send_to_all-IsValid _ (values state.sessions) state h

restore_sessions-IsValid :
    (now : ℕ) (rows : List (Str × Option Str × Bool × ℕ)) (state : BrokerState)
    → IsValid state
    → IsValid (restore_sessions now rows state)
unfolding restore_sessions
restore_sessions-IsValid now [] state h = h
restore_sessions-IsValid now ((client_id, username, clean_start, expiry) ∷ rows) state h =
    restore_sessions-IsValid now rows _ (
      unfold new_session in
      new_arc-IsValid (new_session now client_id username clean_start 0 expiry) state
        (new_session-IsSession now client_id username clean_start 0 expiry) h)

restore_subscriptions-IsValid :
    (rows : List (Str × Str × ℕ × Option ℕ)) (state : BrokerState)
    → IsValid state
    → IsValid (restore_subscriptions rows state)
unfolding restore_subscriptions
restore_subscriptions-IsValid [] state h = h
restore_subscriptions-IsValid ((client_id, topic_filter, qos, sub_id) ∷ rows) state h =
    restore_subscriptions-IsValid rows _ (IsValid-same refl refl h)

-- A row of a message has an identifier that is not 0 and fits 16 bits.
abbrev pub IsRow : Str × ℕ × Str × List ℕ × ℕ → Type 0
IsRow (client_id, packet_id, topic, payload, qos) = (1 ≤ packet_id) × (packet_id < 65536)

restore_message-IsValid :
    (now packet_id : ℕ) (topic : Str) (payload : List ℕ) (qos : ℕ) (state : BrokerState)
    (arc : Option ℕ)
    → (1 ≤ packet_id) × (packet_id < 65536)
    → IsValid state
    → IsValid (restore_message now packet_id topic payload qos state arc)
restore_message-IsValid now packet_id topic payload qos state none r h = h
restore_message-IsValid now packet_id topic payload qos state (some arc) r h =
    on_session-IsValid arc state (add_in_flight-Keeps now packet_id topic payload qos r.0 r.1) h

restore_in_flight-IsValid :
    (now : ℕ) (rows : List (Str × ℕ × Str × List ℕ × ℕ)) (state : BrokerState)
    → All IsRow rows
    → IsValid state
    → IsValid (restore_in_flight now rows state)
unfolding restore_in_flight
restore_in_flight-IsValid now [] state r h = h
restore_in_flight-IsValid now ((client_id, packet_id, topic, payload, qos) ∷ rows) state r h =
    restore_in_flight-IsValid now rows _ r.1 (
      restore_message-IsValid now packet_id topic payload qos state (get client_id state.sessions)
        r.0 h)

pub restore_sessions_from_db-IsValid :
    (now : ℕ) (sessions : Option (List (Str × Option Str × Bool × ℕ)))
    (subscriptions : Option (List (Str × Str × ℕ × Option ℕ)))
    (in_flight : Option (List (Str × ℕ × Str × List ℕ × ℕ))) (state : BrokerState)
    → All IsRow (loaded in_flight)
    → IsValid state
    → IsValid (restore_sessions_from_db now sessions subscriptions in_flight state)
unfolding restore_sessions_from_db
restore_sessions_from_db-IsValid now sessions subscriptions in_flight state r h =
    restore_in_flight-IsValid now (loaded in_flight) _ r (
      restore_subscriptions-IsValid (loaded subscriptions) _
        (restore_sessions-IsValid now (loaded sessions) state h))
