-- ===== src/Session/Deliver.antt =====
-- `route_publish` and `send_publish_to_client` of src/session.rs.
use pipistrelle.Prelude.{
  ℕ, ◌+◌, ◌%◌, ◌^◌, Bool, false, List, [], ◌∷◌, ◌++◌, Option, none, some, length, get_elem?, ltb,
  if◌then◌else◌,
}
use pipistrelle.Prelude.Text.{Str, bytes_eq}
use pipistrelle.Router.Maps.{HashMap, get, insert}
use pipistrelle.Router.Trie.{SubscriptionInfo}
use pipistrelle.Router.Match.{match_topic}
use pipistrelle.Codec.Packet.{Packet, publish}
use pipistrelle.Codec.Properties.Publish.{no_publish_properties}
use pipistrelle.Session.PacketId.{get_next_packet_id}
use pipistrelle.Session.State.{
  ClientSession, BrokerState, Task, save_in_flight, add_in_flight, send_packet, on_session, deref,
}

-- A published message as it is routed; `now` is the time of the call.
pub record Message : Type 0 where
  pub now : ℕ
  pub topic : Str
  pub payload : List ℕ
  pub qos : ℕ
  pub retain : Bool

abbrev pub publish_pkt : Message → Option ℕ → Option ℕ → Packet
publish_pkt m packet_id subscription_identifier = publish (record {
  dup = false;
  qos = m.qos;
  retain = m.retain;
  topic = m.topic;
  packet_id = packet_id;
  properties = record no_publish_properties { subscription_identifier = subscription_identifier };
  payload = m.payload;
})

-- The identifier is taken, and the message kept until its acknowledgement.
unfoldable pub take_packet_id : Message → ClientSession → ℕ × ClientSession
take_packet_id m session =
    let (pid, next) = get_next_packet_id session.next_packet_id in
    (
      pid,
      add_in_flight m.now pid m.topic m.payload m.qos (record session { next_packet_id = next }),
    )

-- A session's part of `send_publish_to_client`, with the task that it spawns.
unfoldable pub send_publish : Message → Option ℕ → ClientSession → ClientSession × List Task
send_publish m subscription_identifier session =
    if ltb 0 m.qos
    then (let (pid, session') = take_packet_id m session in
        (
          send_packet (publish_pkt m (some pid) subscription_identifier) session',
          save_in_flight session.client_id pid m.topic m.payload m.qos ∷ [],
        ))
    else (send_packet (publish_pkt m none subscription_identifier) session, [])

-- The session that the client's identifier stands for, if there is one, with its index.
abbrev pub with_arc : ℕ → Option ClientSession → Option (ℕ × ClientSession)
with_arc arc none = none
with_arc arc (some session) = some (arc, session)

abbrev pub follow : BrokerState → Option ℕ → Option (ℕ × ClientSession)
follow state none = none
follow state (some arc) = with_arc arc (deref arc state)

abbrev pub live_session : Str → BrokerState → Option (ℕ × ClientSession)
live_session client_id state = follow state (get client_id state.sessions)

abbrev pub deliver : Message → Option ℕ → BrokerState → Option (ℕ × ClientSession) → BrokerState
deliver m subscription_identifier state none = state
deliver m subscription_identifier state (some (arc, session)) =
    record (on_session arc (λ s. (send_publish m subscription_identifier s).0) state) {
      tasks = state.tasks ++ (send_publish m subscription_identifier session).1;
    }

unfoldable pub send_publish_to_client : Message → Str → Option ℕ → BrokerState → BrokerState
send_publish_to_client m client_id subscription_identifier state =
    deliver m subscription_identifier state (live_session client_id state)

abbrev pub bridge_client : Str
bridge_client =
    b'b' ∷ b'r' ∷ b'i' ∷ b'd' ∷ b'g' ∷ b'e' ∷ b'_' ∷ b'c' ∷ b'l' ∷ b'i' ∷ b'e' ∷ b'n' ∷ b't' ∷ []

abbrev pub push_to_bridge : Message → Option (List (Str × List ℕ)) → Option (List (Str × List ℕ))
push_to_bridge m none = none
push_to_bridge m (some sent) = some (sent ++ (m.topic, m.payload) ∷ [])

unfoldable pub forward_to_bridge : Str → Message → BrokerState → BrokerState
forward_to_bridge from_client m state =
    if bytes_eq from_client bridge_client
    then state
    else record state { bridge_sender = push_to_bridge m state.bridge_sender }

-- 1. The normal subscribers.
unfoldable pub send_normal : Message → List SubscriptionInfo → BrokerState → BrokerState
send_normal m [] state = state
send_normal m (sub ∷ subs) state =
    send_normal m subs (send_publish_to_client m sub.client_id sub.subscription_identifier state)

-- The group's counter, made if there is none, and `fetch_add(1)` of an `AtomicUsize`.
abbrev pub counter_of : Option ℕ → ℕ
counter_of none = 0
counter_of (some counter) = counter

unfoldable pub next_index : Str → HashMap ℕ → ℕ × HashMap ℕ
next_index group counters =
    let index = counter_of (get group counters) in
    (index, insert group ((index + 1) % 2 ^ 64) counters)

abbrev pub send_selected : Message → Option SubscriptionInfo → BrokerState → BrokerState
send_selected m none state = state
send_selected m (some sub) state =
    send_publish_to_client m sub.client_id sub.subscription_identifier state

-- One member of a group that is not empty: `&subs[index % subs.len()]`.
unfoldable pub send_group : Message → Str → List SubscriptionInfo → BrokerState → BrokerState
send_group m group [] state = state
send_group m group (sub ∷ subs) state =
    let (index, counters) = next_index group state.shared_group_counters in
    send_selected m (get_elem? (sub ∷ subs) (index % length (sub ∷ subs)))
      (record state { shared_group_counters = counters })

-- 2. The shared subscribers.
unfoldable pub send_shared : Message → HashMap (List SubscriptionInfo) → BrokerState → BrokerState
send_shared m [] state = state
send_shared m ((group, subs) ∷ groups) state = send_shared m groups (send_group m group subs state)

unfoldable pub route_publish : Str → Message → BrokerState → BrokerState
route_publish from_client m state =
    let counted = record state {
      metrics_messages_published = (state.metrics_messages_published + 1) % 2 ^ 64;
    } in
    let forwarded = forward_to_bridge from_client m counted in
    let route = match_topic m.topic forwarded.router in
    send_shared m route.shared (send_normal m route.normal forwarded)
