-- ===== src/Session/Counts.antt =====
-- How many frames `route_publish` of src/session.rs puts into each channel for its normal subscribers.
use pipistrelle.Prelude.{
  ℕ, zero, suc, ◌+◌, ◌≡◌, refl, arith, Bool-cases, inl, inr, List, [], ◌∷◌, length, length-append,
  get_elem?, get_elem?-modify, get_elem?-modify_ne, Option, none, some, ltb, ◌==◌, if◌then◌else◌,
}
use pipistrelle.Prelude.Text.{Str}
use pipistrelle.Router.Maps.{HashMap, get, All-get}
use pipistrelle.Router.Trie.{SubscriptionInfo}
use pipistrelle.Session.State.{
  ClientSession, BrokerState, add_in_flight, send_packet, on_session, deref,
}
use pipistrelle.Session.Deliver.{
  Message, take_packet_id, send_publish, live_session, follow, deliver, send_publish_to_client,
  send_normal,
}
use pipistrelle.Session.Invariant.{IsValid, IsEntry, client_at}
use pipistrelle.Session.Preserved.{send_publish_to_client-IsValid}

abbrev frames : Option ClientSession → ℕ
frames none = 0
frames (some s) = length s.sender

-- The frames that have been put into the channel of the session at `arc`.
abbrev pub frames_at : ℕ → BrokerState → ℕ
frames_at arc state = frames (deref arc state)

abbrev pub leads_to : ℕ → Option ℕ → ℕ
leads_to arc none = 0
leads_to arc (some i) = if i == arc then 1 else 0

-- The subscriptions of the client whose session stands at `arc`.
abbrev pub addressed : HashMap ℕ → ℕ → List SubscriptionInfo → ℕ
addressed sessions arc [] = 0
addressed sessions arc (sub ∷ subs) =
    leads_to arc (get sub.client_id sessions) + addressed sessions arc subs

one_frame :
    (m : Message) (id : Option ℕ) (s : ClientSession)
    → length (send_publish m id s).0.sender ≡ length s.sender + 1
unfolding send_publish take_packet_id add_in_flight send_packet
one_frame m id s = elim (Bool-cases (ltb 0 m.qos)) [
  | inl e ↦ rw e (length-append s.sender _)
  | inr e ↦ rw e (length-append s.sender _)
]

entered :
    (arcs : List ClientSession) (i : ℕ) {c : Str}
    → client_at arcs i ≡ some c
    → (s : ClientSession) × (get_elem? arcs i ≡ some s)
entered [] i e = cc
entered (s ∷ arcs) zero e = (s, refl)
entered (s ∷ arcs) (suc i) e = entered arcs i e

frames-on_session :
    (m : Message) (id : Option ℕ) (state : BrokerState) (i arc : ℕ) (s : ClientSession)
    → deref i state ≡ some s
    → frames (deref arc (on_session i (λ s. (send_publish m id s).0) state))
      ≡ frames_at arc state + leads_to arc (some i)
frames-on_session m id state i arc s e = elim (Bool-cases (i == arc)) [
  | inl same ↦
      let at_arc : i ≡ arc = ground arith in
      rw (← at_arc) (
        rw (get_elem?-modify i (λ s. (send_publish m id s).0) state.arcs e, e)
          (rw (one_frame m id s) (ground arith)))
  | inr other ↦
      rw
        (
          other,
          get_elem?-modify_ne i arc (λ s. (send_publish m id s).0) state.arcs (λ x. ground arith),
        )
        (omega arith)
]

frames-deliver :
    (m : Message) (id : Option ℕ) (state : BrokerState) (arc : ℕ) (c : Str) (entry : Option ℕ)
    → IsValid state
    → get c state.sessions ≡ entry
    → frames_at arc (deliver m id state (follow state entry))
      ≡ frames_at arc state + leads_to arc entry
frames-deliver m id state arc c none h e = omega arith
frames-deliver m id state arc c (some i) h e =
    let (s, at_i) =
      entered state.arcs i (All-get (IsEntry state.arcs) c state.sessions h.sessions e) in
    rw at_i (frames-on_session m id state i arc s at_i)

sessions-deliver :
    (m : Message) (id : Option ℕ) (state : BrokerState) (target : Option (ℕ × ClientSession))
    → (deliver m id state target).sessions ≡ state.sessions
sessions-deliver m id state none = refl
sessions-deliver m id state (some (arc, s)) = refl

sessions-send :
    (m : Message) (c : Str) (id : Option ℕ) (state : BrokerState)
    → (send_publish_to_client m c id state).sessions ≡ state.sessions
unfolding send_publish_to_client
sessions-send m c id state = sessions-deliver m id state (live_session c state)

pub frames-send :
    (m : Message) (c : Str) (id : Option ℕ) (state : BrokerState) (arc : ℕ)
    → IsValid state
    → frames_at arc (send_publish_to_client m c id state)
      ≡ frames_at arc state + leads_to arc (get c state.sessions)
unfolding send_publish_to_client
frames-send m c id state arc h = frames-deliver m id state arc c (get c state.sessions) h refl

-- Sending a message to the normal subscribers puts into a session's channel one frame for each
-- subscription of the client that `sessions` leads from to that session, and into no other channel any.
pub frames_at-send_normal :
    (m : Message) (subs : List SubscriptionInfo) (state : BrokerState) (arc : ℕ)
    → IsValid state
    → frames_at arc (send_normal m subs state)
      ≡ frames_at arc state + addressed state.sessions arc subs
unfolding send_normal
frames_at-send_normal m [] state arc h = omega arith
frames_at-send_normal m (sub ∷ subs) state arc h =
    let c = sub.client_id in
    let id = sub.subscription_identifier in
    let rest =
      frames_at-send_normal m subs (send_publish_to_client m c id state) arc
        (send_publish_to_client-IsValid m c id state h) in
    rw (rest, sessions-send m c id state, frames-send m c id state arc h) (omega arith)
