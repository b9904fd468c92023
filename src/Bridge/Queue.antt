-- ===== src/Bridge/Queue.antt =====
-- What comes into the channel that src/bridge.rs takes its messages from.
use pipistrelle.Prelude.{
  ℕ, ◌≡◌, refl, ◌∙◌, ap, Bool, true, false, Bool-cases, inl, inr, List, [], ◌∷◌, ◌++◌, append_assoc,
  append-nil, Option, none, some, if◌then◌else◌,
}
use pipistrelle.Prelude.Text.{Str, bytes_eq}
use pipistrelle.PacketLoop.{OnHandled, OnDrained, Drained, waiting, failed, panicked, spent}
use pipistrelle.PacketLoop.Laws.{drain-keeps}
use pipistrelle.Codec.Packet.{
  Packet, connect, conn_ack, publish, pub_ack, subscribe, sub_ack, ping_req, ping_resp, disconnect,
}
use pipistrelle.Session.State.{BrokerState}
use pipistrelle.Session.Deliver.{bridge_client}
use pipistrelle.Session.Routed.{forwarded, bridge_sender-route_publish}
use pipistrelle.Connection.Process.{message_of}
use pipistrelle.Bridge.{
  Bridge, Ran, running, stopped, crashed, handle_remote, with_drained, local_pub_pattern,
  starts_with, local_pkt, try_write, forward_local, recv, on_local, Event, remote, remote_error,
  local, ping, elsewhere, on_event, and_then, run_bridge,
}

-- The messages that other tasks hand over: what their clients publish, and nothing of the remote broker.
abbrev pub routed_by : Event → List (Str × List ℕ)
routed_by (remote now bytes) = []
routed_by remote_error = []
routed_by (local is_ok) = []
routed_by (ping is_ok) = []
routed_by (elsewhere from_client m) =
    if bytes_eq from_client bridge_client then [] else (m.topic, m.payload) ∷ []

abbrev pub routed_in : List Event → List (Str × List ℕ)
routed_in [] = []
routed_in (e ∷ events) = routed_by e ++ routed_in events

abbrev pub HasQueue : List (Str × List ℕ) → Bridge → Type 0
HasQueue queue b = b.broker.bridge_sender ≡ some queue

-- Behind `queue` the channel has got what the events hand over, up to the one at which the loop ended.
abbrev pub OnQueue : List (Str × List ℕ) → List Event → Ran → Type 0
OnQueue queue events (running c) = HasQueue (queue ++ routed_in events) c
OnQueue queue events (stopped c) =
    (past : List Event) × (rest : List Event) × (events ≡ past ++ rest)
    × HasQueue (queue ++ routed_in past) c
OnQueue queue events (crashed c) =
    (past : List Event) × (rest : List Event) × (events ≡ past ++ rest)
    × HasQueue (queue ++ routed_in past) c

pub remote_keeps :
    (now : ℕ) (q : List (Str × List ℕ)) (p : Packet) (s : BrokerState)
    → s.bridge_sender ≡ some q
    → OnHandled (λ t. t.bridge_sender ≡ some q) (handle_remote now p s)
unfolding handle_remote
remote_keeps now q (publish pkt) s e =
    rw (bridge_sender-route_publish bridge_client (message_of now pkt) s, e) refl
remote_keeps now q ping_resp s e = e
remote_keeps now q (sub_ack pkt) s e = e
remote_keeps now q (connect pkt) s e = e
remote_keeps now q (conn_ack pkt) s e = e
remote_keeps now q (pub_ack pkt) s e = e
remote_keeps now q (subscribe pkt) s e = e
remote_keeps now q ping_req s e = e
remote_keeps now q (disconnect pkt) s e = e

-- One event: where the loop goes on, what it hands over is behind the queue; else nothing is.
abbrev OnOne : List (Str × List ℕ) → Event → Ran → Type 0
OnOne queue e (running c) = HasQueue (queue ++ routed_by e) c
OnOne queue e (stopped c) = HasQueue queue c
OnOne queue e (crashed c) = HasQueue queue c

drained-OnOne :
    (queue : List (Str × List ℕ)) (now : ℕ) (bytes : List ℕ) (c : Bridge) (r : Drained BrokerState)
    → OnDrained (λ t. t.bridge_sender ≡ some queue) r
    → OnOne queue (remote now bytes) (with_drained c r)
drained-OnOne queue now bytes c (waiting rest s) e = rw (append-nil queue) e
drained-OnOne queue now bytes c (failed s) e = e
drained-OnOne queue now bytes c (panicked s) e = e
drained-OnOne queue now bytes c (spent s) e = e

written-OnOne :
    (queue : List (Str × List ℕ)) (is_ok : Bool) (e : Event) (p : Packet) (c : Bridge)
    → routed_by e ≡ []
    → HasQueue queue c
    → OnOne queue e (try_write is_ok p c)
written-OnOne queue true e p c none_by h = rw (none_by, append-nil queue) h
written-OnOne queue false e p c none_by h = h

local-OnOne :
    (queue : List (Str × List ℕ)) (is_ok : Bool) (c : Bridge) (msg : Option (Str × List ℕ))
    → HasQueue queue c
    → OnOne queue (local is_ok) (on_local is_ok c msg)
unfolding forward_local
local-OnOne queue is_ok c none h = rw (append-nil queue) h
local-OnOne queue is_ok c (some (topic, payload)) h =
    elim (Bool-cases (starts_with local_pub_pattern topic)) [
      | inl e ↦ rw e (written-OnOne queue is_ok (local is_ok) (local_pkt topic payload) _ refl h)
      | inr e ↦ rw (e, append-nil queue) h
    ]

on_event-OnOne :
    (queue : List (Str × List ℕ)) (e : Event) (c : Bridge)
    → HasQueue queue c
    → OnOne queue e (on_event e c)
unfolding on_event
on_event-OnOne queue (remote now []) c h = h
on_event-OnOne queue (remote now (x ∷ bytes)) c h = drained-OnOne queue now (x ∷ bytes) c _ (
    drain-keeps (handle_remote now) (λ t. t.bridge_sender ≡ some queue) (remote_keeps now queue)
      (c.read_buf ++ x ∷ bytes) c.broker h)
on_event-OnOne queue remote_error c h = h
on_event-OnOne queue (local is_ok) c h =
    local-OnOne queue is_ok c (recv c.taken c.broker.bridge_sender) h
on_event-OnOne queue (ping is_ok) c h = written-OnOne queue is_ok (ping is_ok) ping_req c refl h
on_event-OnOne queue (elsewhere from m) c h =
    let sent = bridge_sender-route_publish from m c.broker ∙ ap (forwarded from m) h in
    elim (Bool-cases (bytes_eq from bridge_client)) [
      | inl e ↦ rw (e, append-nil queue) (rw e at sent)
      | inr e ↦ rw e (rw e at sent)
    ]

goes_on :
    (queue : List (Str × List ℕ)) (e : Event) (events : List Event) (r : Ran)
    → OnQueue (queue ++ routed_by e) events r
    → OnQueue queue (e ∷ events) r
goes_on queue e events (running c) h = rw append_assoc at h
goes_on queue e events (stopped c) (past, rest, split, h) =
    (e ∷ past, rest, ap (λ l. e ∷ l) split, rw append_assoc at h)
goes_on queue e events (crashed c) (past, rest, split, h) =
    (e ∷ past, rest, ap (λ l. e ∷ l) split, rw append_assoc at h)

and_then-OnQueue :
    (queue : List (Str × List ℕ)) (e : Event) (events : List Event) (following : Bridge → Ran)
    (r : Ran)
    → ((c : Bridge)
        → HasQueue (queue ++ routed_by e) c
        → OnQueue (queue ++ routed_by e) events (following c))
    → OnOne queue e r
    → OnQueue queue (e ∷ events) (and_then following r)
and_then-OnQueue queue e events following (running c) k h =
    goes_on queue e events (following c) (k c h)
and_then-OnQueue queue e events following (stopped c) k h =
    ([], e ∷ events, refl, rw (append-nil queue) h)
and_then-OnQueue queue e events following (crashed c) k h =
    ([], e ∷ events, refl, rw (append-nil queue) h)

pub run_bridge-OnQueue :
    (queue : List (Str × List ℕ)) (events : List Event) (c : Bridge)
    → HasQueue queue c
    → OnQueue queue events (run_bridge events c)
unfolding run_bridge
run_bridge-OnQueue queue [] c h = rw (append-nil queue) h
run_bridge-OnQueue queue (e ∷ events) c h =
    and_then-OnQueue queue e events (run_bridge events) (on_event e c)
      (λ d k. run_bridge-OnQueue (queue ++ routed_by e) events d k) (on_event-OnOne queue e c h)
