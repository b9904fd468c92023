-- ===== src/Bridge/Forwarding.antt =====
-- What the main loop of src/bridge.rs writes to the remote broker.
use pipistrelle.Prelude.{
  ℕ, suc, ◌≤◌, ◌≡◌, refl, sym, ◌∙◌, ap, arith, Bool, true, false, Bool-cases, ◌⊎◌, inl, inr, List,
  [], ◌∷◌, ◌++◌, append_assoc, append-nil, length, length-append, take, take-append_le, take-suc,
  get_elem?, get_elem?_lt, Option, none, some,
}
use pipistrelle.Prelude.Text.{Str, bytes_eq}
use pipistrelle.PacketLoop.{OnDrained, Drained, waiting, failed, panicked, spent}
use pipistrelle.PacketLoop.Laws.{drain-keeps}
use pipistrelle.Codec.Packet.{ping_req}
use pipistrelle.Codec.Encode.{encode_packet}
use pipistrelle.Session.State.{BrokerState}
use pipistrelle.Session.Deliver.{bridge_client}
use pipistrelle.Session.Routed.{forwarded, bridge_sender-route_publish}
use pipistrelle.Bridge.Queue.{OnQueue, remote_keeps, run_bridge-OnQueue}
use pipistrelle.Bridge.{
  Bridge, Ran, running, stopped, crashed, handle_remote, with_drained, local_pub_pattern,
  starts_with, local_pkt, try_write, forward_local, recv, on_local, Event, remote, remote_error,
  local, ping, elsewhere, on_event, and_then, run_bridge,
}

-- The frames that stand for the messages: a PUBLISH for each whose topic has the prefix, in their order, and
-- between them any number of pings.
pub data Forwards (start : List (List ℕ)) : List (Str × List ℕ) → List (List ℕ) → Type 0 where
  starts : Forwards start [] start
  sends :
      {msgs : List (Str × List ℕ)} {frames : List (List ℕ)} (topic : Str) (payload : List ℕ)
      → starts_with local_pub_pattern topic ≡ true
      → Forwards start msgs frames
      → Forwards start
          (msgs ++ (topic, payload) ∷ [])
          (frames ++ encode_packet (local_pkt topic payload) [] ∷ [])
  skips :
      {msgs : List (Str × List ℕ)} {frames : List (List ℕ)} (topic : Str) (payload : List ℕ)
      → starts_with local_pub_pattern topic ≡ false
      → Forwards start msgs frames
      → Forwards start (msgs ++ (topic, payload) ∷ []) frames
  pings :
      {msgs : List (Str × List ℕ)} {frames : List (List ℕ)}
      → Forwards start msgs frames
      → Forwards start msgs (frames ++ encode_packet ping_req [] ∷ [])

-- From `b` to `c` the bridge has taken `msgs` from the channel, and written `frames` behind its own.
pub record Took (b c : Bridge) (msgs : List (Str × List ℕ)) : Type 0 where
  pub queue : List (Str × List ℕ)
  pub is_queue : c.broker.bridge_sender ≡ some queue
  pub from : b.taken ≤ c.taken
  pub until : c.taken ≤ length queue
  pub taken : take c.taken queue ≡ take b.taken queue ++ msgs

-- All that was taken is written.
abbrev pub AllForwarded : Bridge → Bridge → Type 0
AllForwarded b c = (msgs : List (Str × List ℕ)) × Took b c msgs × Forwards b.written msgs c.written

-- All but the last, whose write has failed.
abbrev pub LastLost : Bridge → Bridge → Type 0
LastLost b c =
    (msgs : List (Str × List ℕ)) × (lost : Str × List ℕ) × Took b c (msgs ++ lost ∷ [])
    × Forwards b.written msgs c.written

abbrev pub OnRan : Bridge → Ran → Type 0
OnRan b (running c) = AllForwarded b c
OnRan b (stopped c) = AllForwarded b c ⊎ LastLost b c
OnRan b (crashed c) = AllForwarded b c

-- The queue grows at its end.
grown :
    (b c d : Bridge) (more msgs : List (Str × List ℕ)) (h : Took b c msgs)
    → d.broker.bridge_sender ≡ some (h.queue ++ more)
    → d.taken ≡ c.taken
    → Took b d msgs
grown b c d more msgs h e same = record {
  queue = h.queue ++ more;
  is_queue = e;
  from = rw same h.from;
  until = rw same (omega (arith, length-append h.queue more, h.until));
  taken =
      rw
        (
          same,
          take-append_le c.taken h.queue more h.until,
          take-append_le b.taken h.queue more (omega (arith, h.from, h.until)),
        )
        h.taken;
}

same_queue :
    (b c d : Bridge) (msgs : List (Str × List ℕ)) (h : Took b c msgs)
    → d.broker.bridge_sender ≡ some h.queue
    → d.taken ≡ c.taken
    → Took b d msgs
same_queue b c d msgs h e same = grown b c d [] msgs h (rw (append-nil h.queue) e) same

with_drained-OnRan :
    (b c : Bridge) (msgs : List (Str × List ℕ)) (h : Took b c msgs) (r : Drained BrokerState)
    → Forwards b.written msgs c.written
    → OnDrained (λ t. t.bridge_sender ≡ some h.queue) r
    → OnRan b (with_drained c r)
with_drained-OnRan b c msgs h (waiting rest s) f e = (msgs, same_queue b c _ msgs h e refl, f)
with_drained-OnRan b c msgs h (failed s) f e = inl (msgs, same_queue b c _ msgs h e refl, f)
with_drained-OnRan b c msgs h (panicked s) f e = (msgs, same_queue b c _ msgs h e refl, f)
with_drained-OnRan b c msgs h (spent s) f e = (msgs, same_queue b c _ msgs h e refl, f)

Took-one :
    (b c d : Bridge) (msgs : List (Str × List ℕ)) (h : Took b c msgs) (msg : Str × List ℕ)
    → get_elem? h.queue c.taken ≡ some msg
    → d.broker ≡ c.broker
    → d.taken ≡ suc c.taken
    → Took b d (msgs ++ msg ∷ [])
Took-one b c d msgs h msg e broker taken = record {
  queue = h.queue;
  is_queue = ap (λ s. s.bridge_sender) broker ∙ h.is_queue;
  from = omega (arith, h.from, taken);
  until = omega (arith, taken, get_elem?_lt c.taken h.queue e);
  taken =
      rw (taken, take-suc c.taken h.queue e, h.taken)
        (append_assoc (take b.taken h.queue) msgs (msg ∷ []));
}

on_local-OnRan :
    (b c : Bridge) (is_ok : Bool) (msgs : List (Str × List ℕ)) (h : Took b c msgs)
    (msg : Option (Str × List ℕ))
    → Forwards b.written msgs c.written
    → recv c.taken c.broker.bridge_sender ≡ msg
    → OnRan b (on_local is_ok c msg)
unfolding forward_local
on_local-OnRan b c is_ok msgs h none f e = (msgs, h, f)
on_local-OnRan b c is_ok msgs h (some (topic, payload)) f e =
    let c' = record c { taken = suc c.taken } in
    let at_front : get_elem? h.queue c.taken ≡ some (topic, payload) =
      ap (recv c.taken) (sym h.is_queue) ∙ e in
    elim (Bool-cases (starts_with local_pub_pattern topic)) [
      | inl has_prefix ↦ rw has_prefix (tried is_ok at_front has_prefix)
      | inr other ↦ rw other (
        msgs ++ (topic, payload) ∷ [],
        Took-one b c c' msgs h (topic, payload) at_front refl refl,
        skips topic payload other f,
      )
    ]
  where
    tried :
        (is_ok : Bool)
        → get_elem? h.queue c.taken ≡ some (topic, payload)
        → starts_with local_pub_pattern topic ≡ true
        → OnRan b (try_write is_ok (local_pkt topic payload) (record c { taken = suc c.taken }))
    tried true at_front has_prefix = (
      msgs ++ (topic, payload) ∷ [],
      Took-one b c _ msgs h (topic, payload) at_front refl refl,
      sends topic payload has_prefix f,
    )
    tried false at_front has_prefix =
        inr (msgs, (topic, payload), Took-one b c _ msgs h (topic, payload) at_front refl refl, f)

on_event-OnRan : (e : Event) (b c : Bridge) → AllForwarded b c → OnRan b (on_event e c)
unfolding on_event
on_event-OnRan (remote now []) b c h = inl h
on_event-OnRan (remote now (x ∷ bytes)) b c (msgs, h, f) = with_drained-OnRan b c msgs h _ f (
    drain-keeps (handle_remote now) (λ t. t.bridge_sender ≡ some h.queue) (remote_keeps now h.queue)
      (c.read_buf ++ x ∷ bytes) c.broker h.is_queue)
on_event-OnRan remote_error b c h = inl h
on_event-OnRan (local is_ok) b c (msgs, h, f) =
    on_local-OnRan b c is_ok msgs h (recv c.taken c.broker.bridge_sender) f refl
on_event-OnRan (ping true) b c (msgs, h, f) =
    (msgs, same_queue b c _ msgs h h.is_queue refl, pings f)
on_event-OnRan (ping false) b c h = inl h
on_event-OnRan (elsewhere from m) b c (msgs, h, f) =
    let sent = bridge_sender-route_publish from m c.broker ∙ ap (forwarded from m) h.is_queue in
    elim (Bool-cases (bytes_eq from bridge_client)) [
      | inl e ↦ (msgs, same_queue b c _ msgs h (rw e at sent) refl, f)
      | inr e ↦ (msgs, grown b c _ ((m.topic, m.payload) ∷ []) msgs h (rw e at sent) refl, f)
    ]

and_then-OnRan :
    (b : Bridge) (next : Bridge → Ran) (r : Ran)
    → ((c : Bridge) → AllForwarded b c → OnRan b (next c))
    → OnRan b r
    → OnRan b (and_then next r)
and_then-OnRan b next (running c) k h = k c h
and_then-OnRan b next (stopped c) k h = h
and_then-OnRan b next (crashed c) k h = h

run_from : (events : List Event) (b c : Bridge) → AllForwarded b c → OnRan b (run_bridge events c)
unfolding run_bridge
run_from [] b c h = h
run_from (e ∷ events) b c h =
    and_then-OnRan b (run_bridge events) (on_event e c) (λ d k. run_from events b d k)
      (on_event-OnRan e b c h)

-- Whatever comes from the remote broker and from the broker's other tasks, in whatever order: into the
-- channel come, in order, the messages that other tasks route for clients but the bridge's own, and none
-- that the remote broker sends; the bridge writes behind what it has written a PUBLISH for each message
-- that it takes from the channel and whose topic begins with `sensor/`, in order, none twice, and
-- else only pings. If a write fails, at most the message taken last is lost.
pub run_bridge-OnRan :
    (events : List Event) (b : Bridge) (queue : List (Str × List ℕ))
    → b.broker.bridge_sender ≡ some queue
    → b.taken ≤ length queue
    → OnRan b (run_bridge events b) × OnQueue queue events (run_bridge events b)
run_bridge-OnRan events b queue e h =
    let at_start : Took b b [] = record {
      queue = queue;
      is_queue = e;
      from = omega arith;
      until = h;
      taken = sym (append-nil (take b.taken queue));
    } in
    (run_from events b b ([], at_start, starts), run_bridge-OnQueue queue events b e)
