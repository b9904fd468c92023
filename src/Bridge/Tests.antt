-- ===== src/Bridge/Tests.antt =====
-- Concrete runs of src/bridge.rs, and the theorems at them.
use pipistrelle.Prelude.{◌≡◌, refl, arith, true, false, List, [], ◌∷◌, ◌++◌, none}
use pipistrelle.Session.State.{new_broker}
use pipistrelle.Session.Deliver.{Message}
use pipistrelle.Bridge.{
  Bridge, start_bridge_engine, retry_after, local_pub_pattern, Event, remote, local, ping,
  elsewhere, run_bridge,
}
use pipistrelle.Bridge.Queue.{OnQueue}
use pipistrelle.Bridge.Forwarding.{OnRan, run_bridge-OnRan}

-- After four errors in a row the bridge waits for a minute, and five seconds more.
waits : retry_after true 40 ≡ (45, 60)
unfolding retry_after
waits = refl

abbrev started : Bridge
started = start_bridge_engine (new_broker (record { users = none }))

abbrev reading : Message
reading = record {
  now = 1;
  topic = local_pub_pattern ++ b't' ∷ [];
  payload = 7 ∷ [];
  qos = 0;
  retain = false;
}

abbrev events : List Event
events = elsewhere [] reading ∷ local true ∷ ping true ∷ remote 2 (0xD0 ∷ 0 ∷ []) ∷ local false ∷ []

run_bridge-OnRan_example :
    OnRan started (run_bridge events started) × OnQueue [] events (run_bridge events started)
unfolding start_bridge_engine
run_bridge-OnRan_example = run_bridge-OnRan events started [] refl (omega arith)
