-- ===== src/Session/Routed.antt =====
-- What routing a message by src/session.rs leaves as it is, and what it hands to the bridge.
use pipistrelle.Prelude.{
  ◌^◌, ◌+◌, if◌then◌else◌, ℕ, ◌≡◌, refl, sym, ◌∙◌, true, false, Bool-cases, inl, inr, List, [], ◌∷◌,
  ◌++◌, length, length-modify, get_elem?, get_elem?_lt, get_elem?-some, Option, none, some, ◌%◌,
}
use pipistrelle.Prelude.Text.{Str, bytes_eq}
use pipistrelle.Router.Maps.{HashMap}
use pipistrelle.Router.Trie.{SubscriptionInfo}
use pipistrelle.Session.State.{ClientSession, BrokerState, deref}
use pipistrelle.Session.Deliver.{
  Message, send_publish, live_session, deliver, send_publish_to_client, bridge_client,
  push_to_bridge, forward_to_bridge, send_normal, next_index, send_selected, send_group,
  send_shared, route_publish,
}

-- Sending adds no session, and leaves alone the entries, the router, the users and the bridge.
pub record Routed (s t : BrokerState) : Type 0 where
  pub arcs : length t.arcs ≡ length s.arcs
  pub sessions : t.sessions ≡ s.sessions
  pub router : t.router ≡ s.router
  pub auth : t.auth ≡ s.auth
  pub bridge_sender : t.bridge_sender ≡ s.bridge_sender

Routed-trans : {s t u : BrokerState} → Routed s t → Routed t u → Routed s u
Routed-trans h k = record {
  arcs = k.arcs ∙ h.arcs;
  sessions = k.sessions ∙ h.sessions;
  router = k.router ∙ h.router;
  auth = k.auth ∙ h.auth;
  bridge_sender = k.bridge_sender ∙ h.bridge_sender;
}

unmoved : (s : BrokerState) → Routed s s
unmoved s = record {
  arcs = refl;
  sessions = refl;
  router = refl;
  auth = refl;
  bridge_sender = refl;
}

deliver-Routed :
    (m : Message) (id : Option ℕ) (s : BrokerState) (target : Option (ℕ × ClientSession))
    → Routed s (deliver m id s target)
deliver-Routed m id s none = unmoved s
deliver-Routed m id s (some (arc, session)) = record {
  arcs = length-modify arc (λ x. (send_publish m id x).0) s.arcs;
  sessions = refl;
  router = refl;
  auth = refl;
  bridge_sender = refl;
}

send_publish_to_client-Routed :
    (m : Message) (client_id : Str) (id : Option ℕ) (s : BrokerState)
    → Routed s (send_publish_to_client m client_id id s)
unfolding send_publish_to_client
send_publish_to_client-Routed m client_id id s = deliver-Routed m id s (live_session client_id s)

send_normal-Routed :
    (m : Message) (subs : List SubscriptionInfo) (s : BrokerState) → Routed s (send_normal m subs s)
unfolding send_normal
send_normal-Routed m [] s = unmoved s
send_normal-Routed m (sub ∷ subs) s =
    Routed-trans (send_publish_to_client-Routed m sub.client_id sub.subscription_identifier s)
      (send_normal-Routed m subs _)

send_selected-Routed :
    (m : Message) (sub : Option SubscriptionInfo) (s : BrokerState)
    → Routed s (send_selected m sub s)
send_selected-Routed m none s = unmoved s
send_selected-Routed m (some sub) s =
    send_publish_to_client-Routed m sub.client_id sub.subscription_identifier s

send_group-Routed :
    (m : Message) (group : Str) (subs : List SubscriptionInfo) (s : BrokerState)
    → Routed s (send_group m group subs s)
unfolding send_group
send_group-Routed m group [] s = unmoved s
send_group-Routed m group (sub ∷ subs) s =
    let r = next_index group s.shared_group_counters in
    let counted : Routed s (record s { shared_group_counters = r.1 }) = record {
      arcs = refl;
      sessions = refl;
      router = refl;
      auth = refl;
      bridge_sender = refl;
    } in
    Routed-trans counted (
      send_selected-Routed m (get_elem? (sub ∷ subs) (r.0 % length (sub ∷ subs)))
        (record s { shared_group_counters = r.1 }))

send_shared-Routed :
    (m : Message) (groups : HashMap (List SubscriptionInfo)) (s : BrokerState)
    → Routed s (send_shared m groups s)
unfolding send_shared
send_shared-Routed m [] s = unmoved s
send_shared-Routed m ((group, subs) ∷ groups) s =
    Routed-trans (send_group-Routed m group subs s) (send_shared-Routed m groups _)

-- What the bridge's channel holds after a message of the client.
abbrev pub forwarded : Str → Message → Option (List (Str × List ℕ)) → Option (List (Str × List ℕ))
forwarded from_client m none = none
forwarded from_client m (some sent) =
    some (if bytes_eq from_client bridge_client then sent else sent ++ (m.topic, m.payload) ∷ [])

by_bridge :
    (from_client : Str) (m : Message) (o : Option (List (Str × List ℕ)))
    → bytes_eq from_client bridge_client ≡ true
    → forwarded from_client m o ≡ o
by_bridge from_client m none e = refl
by_bridge from_client m (some sent) e = rw e refl

by_client :
    (from_client : Str) (m : Message) (o : Option (List (Str × List ℕ)))
    → bytes_eq from_client bridge_client ≡ false
    → forwarded from_client m o ≡ push_to_bridge m o
by_client from_client m none e = refl
by_client from_client m (some sent) e = rw e refl

forward_to_bridge-bridge_sender :
    (from_client : Str) (m : Message) (s : BrokerState)
    → (forward_to_bridge from_client m s).bridge_sender ≡ forwarded from_client m s.bridge_sender
unfolding forward_to_bridge
forward_to_bridge-bridge_sender from_client m s =
    elim (Bool-cases (bytes_eq from_client bridge_client)) [
      | inl e ↦ rw e (sym (by_bridge from_client m s.bridge_sender e))
      | inr e ↦ rw e (sym (by_client from_client m s.bridge_sender e))
    ]

arcs-forward_to_bridge :
    (from_client : Str) (m : Message) (s : BrokerState)
    → length (forward_to_bridge from_client m s).arcs ≡ length s.arcs
unfolding forward_to_bridge
arcs-forward_to_bridge from_client m s = elim (Bool-cases (bytes_eq from_client bridge_client)) [
  | inl e ↦ rw e refl
  | inr e ↦ rw e refl
]

abbrev counted : BrokerState → BrokerState
counted s = record s { metrics_messages_published = (s.metrics_messages_published + 1) % 2 ^ 64 }

route_publish-Routed :
    (from_client : Str) (m : Message) (s : BrokerState)
    → Routed (forward_to_bridge from_client m (counted s)) (route_publish from_client m s)
unfolding route_publish
route_publish-Routed from_client m s =
    Routed-trans (send_normal-Routed m _ (forward_to_bridge from_client m (counted s)))
      (send_shared-Routed m _ _)

-- A routed message is handed to the bridge once, behind what has been handed to it before, if there is
-- a bridge and the message is not the bridge's own; no subscription changes that.
pub bridge_sender-route_publish :
    (from_client : Str) (m : Message) (s : BrokerState)
    → (route_publish from_client m s).bridge_sender ≡ forwarded from_client m s.bridge_sender
bridge_sender-route_publish from_client m s =
    (route_publish-Routed from_client m s).bridge_sender
    ∙ forward_to_bridge-bridge_sender from_client m (counted s)

-- A session that is there is still there.
pub deref-route_publish :
    (from_client : Str) (m : Message) (s : BrokerState) (arc : ℕ) {session : ClientSession}
    → deref arc s ≡ some session
    → (session' : ClientSession) × (deref arc (route_publish from_client m s) ≡ some session')
deref-route_publish from_client m s arc e =
    let kept : length (route_publish from_client m s).arcs ≡ length s.arcs =
      (route_publish-Routed from_client m s).arcs
      ∙ arcs-forward_to_bridge from_client m (counted s) in
    get_elem?-some arc (route_publish from_client m s).arcs (rw kept (get_elem?_lt arc s.arcs e))
