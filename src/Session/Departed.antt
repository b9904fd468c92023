-- ===== src/Session/Departed.antt =====
-- `remove_session` of src/session.rs, and what is routed afterwards.
use pipistrelle.Prelude.{ℕ, ◌≡◌, refl, ◌||◌, Bool-cases, inl, inr, Option, none, some, ◌==◌}
use pipistrelle.Prelude.Text.{Str}
use pipistrelle.Router.Maps.{get, remove, get-remove}
use pipistrelle.Session.State.{ClientSession, BrokerState, deref}
use pipistrelle.Session.Deliver.{Message, send_publish_to_client}
use pipistrelle.Session.Registry.{forget_session, drop_session, remove_session}

forgotten :
    (client_id : Str) (session : Option ClientSession) (state : BrokerState)
    → (forget_session client_id session state).sessions ≡ state.sessions
forgotten client_id none state = refl
forgotten client_id (some session) state =
    elim (Bool-cases (session.clean_start || session.session_expiry_interval == 0)) [
      | inl e ↦ rw e refl
      | inr e ↦ rw e refl
    ]

dropped :
    (client_id : Str) (state : BrokerState) (entry : Option ℕ)
    → get client_id state.sessions ≡ entry
    → get client_id (drop_session client_id state entry).sessions ≡ none
dropped client_id state none e = e
dropped client_id state (some arc) e =
    rw
      (forgotten client_id (deref arc state)
        (record state { sessions = remove client_id state.sessions }))
      (get-remove client_id state.sessions)

get-remove_session :
    (client_id : Str) (state : BrokerState)
    → get client_id (remove_session client_id state).sessions ≡ none
unfolding remove_session
get-remove_session client_id state = dropped client_id state (get client_id state.sessions) refl

-- Once any connection of a client has ended, no message reaches a session of that client, not even one
-- that another connection has registered since: sending changes nothing.
send_publish_to_client-remove_session :
    (m : Message) (client_id : Str) (id : Option ℕ) (state : BrokerState)
    → send_publish_to_client m client_id id (remove_session client_id state)
      ≡ remove_session client_id state
unfolding send_publish_to_client
send_publish_to_client-remove_session m client_id id state =
    rw (get-remove_session client_id state) refl
