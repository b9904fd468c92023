-- ===== src/Session/Reached.antt =====
-- A subscription and a message of src/session.rs, through the router to the subscriber's channel.
use mathlib.Core.Logic.{∥∥₁_elim}
use mathlib.Core.HLevel.{⊥_prop}
use mathlib.Core.List.{Mem, Memᴰ}
use pipistrelle.Prelude.{
  ℕ, ◌+◌, ◌%◌, ◌^◌, ◌≤◌, ◌<◌, ◌≡◌, refl, sym, ◌∙◌, ap, arith, true, Bool-cases, inl, inr, List, [],
  ◌∷◌, length, get_elem?, Option, none, some, ltb,
}
use pipistrelle.Prelude.Text.{Str, bytes_eq, split_slash}
use pipistrelle.Router.Maps.{HashMap, get}
use pipistrelle.Router.Trie.{SubscriptionInfo, parse_shared_subscription}
use pipistrelle.Router.Match.{match_topic}
use pipistrelle.Router.Filter.{matches}
use pipistrelle.Router.Delivered.{mem-match_topic-subscribe}
use pipistrelle.Session.State.{BrokerState}
use pipistrelle.Session.Deliver.{
  Message, bridge_client, forward_to_bridge, send_normal, next_index, send_selected, send_group,
  send_shared, route_publish,
}
use pipistrelle.Session.Registry.{subscribe}
use pipistrelle.Session.Invariant.{IsValid, IsValid-same}
use pipistrelle.Session.Preserved.{send_normal-IsValid, send_group-IsValid}
use pipistrelle.Session.Counts.{frames_at, frames-send, addressed, frames_at-send_normal}

addressed-Memᴰ :
    (sessions : HashMap ℕ) (arc : ℕ) (sub : SubscriptionInfo) (subs : List SubscriptionInfo)
    → Memᴰ sub subs
    → get sub.client_id sessions ≡ some arc
    → 1 ≤ addressed sessions arc subs
addressed-Memᴰ sessions arc sub [] mem e = elim mem [ ]
addressed-Memᴰ sessions arc sub (x ∷ subs) (Memᴰ.head same) e =
    let at_x : get x.client_id sessions ≡ some arc =
      ap (λ s. get s.client_id sessions) (sym same) ∙ e in
    rw at_x (ground arith)
addressed-Memᴰ sessions arc sub (x ∷ subs) (Memᴰ.tail mem) e =
    omega (arith, addressed-Memᴰ sessions arc sub subs mem e)

-- A client with a subscription among `subs` is addressed.
addressed-Mem :
    (sessions : HashMap ℕ) (arc : ℕ) (sub : SubscriptionInfo) (subs : List SubscriptionInfo)
    → Mem sub subs
    → get sub.client_id sessions ≡ some arc
    → 1 ≤ addressed sessions arc subs
addressed-Mem sessions arc sub subs mem e =
    elim (Bool-cases (ltb 0 (addressed sessions arc subs))) [
      | inl more ↦ ground arith
      | inr nobody ↦ absurd (
          ∥∥₁_elim mem ⊥_prop
            (λ d. let more = addressed-Memᴰ sessions arc sub subs d e in ground arith))
    ]

-- No frame is taken back.
frames_at-send_selected :
    (m : Message) (sub : Option SubscriptionInfo) (s : BrokerState) (arc : ℕ)
    → IsValid s
    → frames_at arc s ≤ frames_at arc (send_selected m sub s)
frames_at-send_selected m none s arc h = omega arith
frames_at-send_selected m (some sub) s arc h =
    omega (arith, frames-send m sub.client_id sub.subscription_identifier s arc h)

frames_at-send_group :
    (m : Message) (group : Str) (subs : List SubscriptionInfo) (s : BrokerState) (arc : ℕ)
    → IsValid s
    → frames_at arc s ≤ frames_at arc (send_group m group subs s)
unfolding send_group
frames_at-send_group m group [] s arc h = omega arith
frames_at-send_group m group (sub ∷ subs) s arc h =
    let r = next_index group s.shared_group_counters in
    frames_at-send_selected m (get_elem? (sub ∷ subs) (r.0 % length (sub ∷ subs)))
      (record s { shared_group_counters = r.1 }) arc (IsValid-same refl refl h)

frames_at-send_shared :
    (m : Message) (groups : HashMap (List SubscriptionInfo)) (s : BrokerState) (arc : ℕ)
    → IsValid s
    → frames_at arc s ≤ frames_at arc (send_shared m groups s)
unfolding send_shared
frames_at-send_shared m [] s arc h = omega arith
frames_at-send_shared m ((group, subs) ∷ groups) s arc h =
    let first = frames_at-send_group m group subs s arc h in
    let rest =
      frames_at-send_shared m groups (send_group m group subs s) arc
        (send_group-IsValid m group subs s h) in
    omega (arith, first, rest)

-- What the bridge is handed is apart from the sessions and the router.
record Apart (s t : BrokerState) : Type 0 where
  arcs : t.arcs ≡ s.arcs
  sessions : t.sessions ≡ s.sessions
  router : t.router ≡ s.router

forward_to_bridge-Apart :
    (from_client : Str) (m : Message) (s : BrokerState)
    → Apart s (forward_to_bridge from_client m s)
unfolding forward_to_bridge
forward_to_bridge-Apart from_client m s = elim (Bool-cases (bytes_eq from_client bridge_client)) [
  | inl e ↦ rw e (record { arcs = refl; sessions = refl; router = refl })
  | inr e ↦ rw e (record { arcs = refl; sessions = refl; router = refl })
]

-- The router's normal subscribers of a message get it.
frames_at-route_publish :
    (from_client : Str) (m : Message) (s : BrokerState) (arc : ℕ) (sub : SubscriptionInfo)
    → IsValid s
    → Mem sub (match_topic m.topic s.router).normal
    → get sub.client_id s.sessions ≡ some arc
    → frames_at arc s < frames_at arc (route_publish from_client m s)
unfolding route_publish
frames_at-route_publish from_client m s arc sub h mem e =
    let counted = record s {
      metrics_messages_published = (s.metrics_messages_published + 1) % 2 ^ 64;
    } in
    let f = forward_to_bridge from_client m counted in
    let a = forward_to_bridge-Apart from_client m counted in
    let valid : IsValid f = IsValid-same a.arcs a.sessions h in
    let route = match_topic m.topic f.router in
    let all : frames_at arc (send_normal m route.normal f)
        ≡ frames_at arc f + addressed f.sessions arc route.normal =
      frames_at-send_normal m route.normal f arc valid in
    let some_frame : 1 ≤ addressed f.sessions arc route.normal =
      addressed-Mem f.sessions arc sub route.normal (rw a.router mem) (rw a.sessions e) in
    let shared =
      frames_at-send_shared m route.shared (send_normal m route.normal f) arc
        (send_normal-IsValid m route.normal f valid) in
    let same : frames_at arc f ≡ frames_at arc s = rw a.arcs refl in
    omega (arith, all, some_frame, shared, same)

-- A message on a topic that a client's filter matches, when the client has subscribed to it and its entry
-- leads to a session, puts a frame or more into that session's channel, whoever publishes it and whatever
-- other subscriptions there are. The filter is not a shared one.
pub frames_at-route_publish-subscribe :
    (from_client : Str) (m : Message) (client_id topic_filter : Str) (qos : ℕ) (id : Option ℕ)
    (s : BrokerState) (arc : ℕ)
    → IsValid s
    → get client_id s.sessions ≡ some arc
    → (parse_shared_subscription topic_filter).0 ≡ none
    → matches (split_slash (parse_shared_subscription topic_filter).1) (split_slash m.topic) ≡ true
    → frames_at arc s
      < frames_at arc (route_publish from_client m (subscribe client_id topic_filter qos id s))
unfolding subscribe
frames_at-route_publish-subscribe from_client m client_id topic_filter qos id s arc h e normal
      fits =
    frames_at-route_publish from_client m (subscribe client_id topic_filter qos id s) arc
      (record { client_id = client_id; qos = qos; subscription_identifier = id })
      (IsValid-same refl refl h)
      (mem-match_topic-subscribe client_id topic_filter qos id s.router m.topic normal fits) e
