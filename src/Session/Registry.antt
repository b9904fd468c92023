-- ===== src/Session/Registry.antt =====
-- The sessions and subscriptions of `BrokerState` in src/session.rs.
use pipistrelle.Prelude.{
  ℕ, ◌+◌, ◌%◌, ◌^◌, Bool, ◌||◌, List, [], ◌∷◌, ◌++◌, Option, none, some, length, ltb, ◌==◌,
  if◌then◌else◌,
}
use pipistrelle.Prelude.Text.{Str}
use pipistrelle.Router.Maps.{get, insert, remove, values}
use pipistrelle.Router.Trie
use pipistrelle.Codec.Packet.{Packet, disconnect}
use pipistrelle.Codec.Properties.Disconnect.{no_disconnect_properties}
use pipistrelle.Session.State.{
  ClientSession, BrokerState, save_session, delete_session, save_subscription, delete_subscription,
  new_session, add_in_flight, send_packet, on_session, spawn, deref,
}

-- `Arc::new(session)`: the index of the session, and the state that holds it.
abbrev pub new_arc : ClientSession → BrokerState → ℕ × BrokerState
new_arc session state = (length state.arcs, record state { arcs = state.arcs ++ session ∷ [] })

-- `session` is what the `Arc` points to.
unfoldable pub register_session : (arc : ℕ) → ClientSession → BrokerState → BrokerState
register_session arc session state =
    let state' = record state { sessions = insert session.client_id arc state.sessions } in
    if ltb 0 session.session_expiry_interval
    then spawn
        (save_session session.client_id session.username session.clean_start
          session.session_expiry_interval)
        state'
    else state'

-- The row is deleted if the session is not to outlive its connection.
abbrev pub forget_session : Str → Option ClientSession → BrokerState → BrokerState
forget_session client_id none state = state
forget_session client_id (some session) state =
    if session.clean_start || session.session_expiry_interval == 0
    then spawn (delete_session client_id) state
    else state

abbrev pub drop_session : Str → BrokerState → Option ℕ → BrokerState
drop_session client_id state none = state
drop_session client_id state (some arc) =
    forget_session client_id (deref arc state)
      (record state { sessions = remove client_id state.sessions })

unfoldable pub remove_session : Str → BrokerState → BrokerState
remove_session client_id state = drop_session client_id state (get client_id state.sessions)

unfoldable pub subscribe : Str → Str → ℕ → Option ℕ → BrokerState → BrokerState
subscribe client_id topic_filter qos subscription_identifier state =
    spawn (save_subscription client_id topic_filter qos subscription_identifier) (record state {
      metrics_subscriptions = (state.metrics_subscriptions + 1) % 2 ^ 64;
      router = Trie.subscribe client_id topic_filter qos subscription_identifier state.router;
    })

unfoldable pub unsubscribe : Str → Str → BrokerState → BrokerState × Bool
unsubscribe client_id topic_filter state =
    let (router, removed) = Trie.unsubscribe client_id topic_filter state.router in
    let state' = record state { router = router } in
    (if removed then spawn (delete_subscription client_id topic_filter) state' else state', removed)

-- The loop over the sessions.
unfoldable pub send_to_all : Packet → List ℕ → BrokerState → BrokerState
send_to_all packet [] state = state
send_to_all packet (arc ∷ arcs) state =
    send_to_all packet arcs (on_session arc (send_packet packet) state)

unfoldable pub graceful_shutdown : BrokerState → BrokerState
graceful_shutdown state =
    let disconnect_pkt =
      disconnect (record { reason_code = 0x00; properties = no_disconnect_properties }) in
    send_to_all disconnect_pkt (values state.sessions) state

-- 1. A session for each row, with no connection.
unfoldable pub restore_sessions :
    (now : ℕ) → List (Str × Option Str × Bool × ℕ) → BrokerState → BrokerState
restore_sessions now [] state = state
restore_sessions now ((client_id, username, clean_start, expiry) ∷ rows) state =
    let (arc, state') = new_arc (new_session now client_id username clean_start 0 expiry) state in
    restore_sessions now rows (record state' { sessions = insert client_id arc state.sessions })

-- 2. The subscriptions go to the router alone.
unfoldable pub restore_subscriptions : List (Str × Str × ℕ × Option ℕ) → BrokerState → BrokerState
restore_subscriptions [] state = state
restore_subscriptions ((client_id, topic_filter, qos, sub_id) ∷ rows) state =
    restore_subscriptions rows
      (record state { router = Trie.subscribe client_id topic_filter qos sub_id state.router })

abbrev pub restore_message :
    (now packet_id : ℕ) → Str → List ℕ → ℕ → BrokerState → Option ℕ → BrokerState
restore_message now packet_id topic payload qos state none = state
restore_message now packet_id topic payload qos state (some arc) =
    on_session arc (add_in_flight now packet_id topic payload qos) state

-- 3. The messages that wait for an acknowledgement.
unfoldable pub restore_in_flight :
    (now : ℕ) → List (Str × ℕ × Str × List ℕ × ℕ) → BrokerState → BrokerState
restore_in_flight now [] state = state
restore_in_flight now ((client_id, packet_id, topic, payload, qos) ∷ rows) state =
    restore_in_flight now rows
      (restore_message now packet_id topic payload qos state (get client_id state.sessions))

-- What a query gives; an error restores nothing.
abbrev pub loaded {ℓ} : {A : Type ℓ} → Option (List A) → List A
loaded none = []
loaded (some rows) = rows

-- The rows are what the three queries return, `none` where one fails.
unfoldable pub restore_sessions_from_db :
    (now : ℕ)
    → Option (List (Str × Option Str × Bool × ℕ))
    → Option (List (Str × Str × ℕ × Option ℕ))
    → Option (List (Str × ℕ × Str × List ℕ × ℕ))
    → BrokerState
    → BrokerState
restore_sessions_from_db now sessions subscriptions in_flight state =
    restore_in_flight now (loaded in_flight)
      (restore_subscriptions (loaded subscriptions) (restore_sessions now (loaded sessions) state))
