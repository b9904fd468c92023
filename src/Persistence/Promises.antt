-- ===== src/Persistence/Promises.antt =====
-- Calls on the messages in flight of src/session.rs, and what SQLite does for src/persistence.rs.
use pipistrelle.Prelude.{ℕ, ◌≡◌, refl, List, [], ◌∷◌, ◌++◌, Option, none, some, ◌==◌, if◌then◌else◌}
use pipistrelle.Prelude.Text.{Str}
use pipistrelle.PacketLoop.{Handled, done, refused}
use pipistrelle.Codec.Packet.{PubAck, pub_ack}
use pipistrelle.Session.State.{
  InFlightMessage, BrokerState, Task, save_session, delete_session, save_subscription,
  delete_subscription, save_in_flight, delete_in_flight,
}
use pipistrelle.Session.Deliver.{Message, send_publish_to_client}
use pipistrelle.Connection.Process.{process_client_packet}
use pipistrelle.Persistence.{Sqlite, run_task, run_tasks}

-- A message for the client, and an acknowledgement that its connection reads.
pub data Call : Type 0 where
  sends : Message → Option ℕ → Call
  acknowledges : PubAck → Call

abbrev pub state_of : Handled BrokerState → BrokerState
state_of (done s) = s
state_of (refused s) = s

abbrev pub call : (now arc : ℕ) → Str → Call → BrokerState → BrokerState
call now arc client_id (sends m id) s = send_publish_to_client m client_id id s
call now arc client_id (acknowledges pkt) s =
    state_of (process_client_packet now arc (pub_ack pkt) s)

abbrev pub after : (now arc : ℕ) → Str → List Call → BrokerState → BrokerState
after now arc client_id [] s = s
after now arc client_id (c ∷ calls) s = after now arc client_id calls (call now arc client_id c s)

-- The columns of a message's row beside its key.
abbrev pub columns : Option InFlightMessage → Option (Str × List ℕ × ℕ)
columns none = none
columns (some msg) = some (msg.topic, msg.payload, msg.qos)

-- What SQLite promises of the table in_flight: `row` finds the row of a primary key. An INSERT OR REPLACE
-- that succeeds puts in a row or replaces the one with its key, a DELETE that succeeds takes out the row
-- that the condition selects.
pub record Promises {D : Type 0} (sqlite : Sqlite D) (row : Str → ℕ → D → Option (Str × List ℕ × ℕ))
    : Type 0 where
  pub inserted :
      (client_id : Str) (pid : ℕ) (topic : Str) (payload : List ℕ) (qos : ℕ) (d d' : D)
      → sqlite.insert_in_flight client_id pid topic payload qos d ≡ some d'
      → (k : ℕ)
      → row client_id k d' ≡ (if pid == k then some (topic, payload, qos) else row client_id k d)
  pub deleted :
      (client_id : Str) (pid : ℕ) (d d' : D)
      → sqlite.delete_one_in_flight client_id pid d ≡ some d'
      → (k : ℕ) → row client_id k d' ≡ (if pid == k then none else row client_id k d)

module _ {D : Type 0} (sqlite : Sqlite D) where
  -- A statement on one message succeeds; the other tasks may fail.
  abbrev pub Succeeds : Task → D → Type 0
  Succeeds (save_in_flight client_id pid topic payload qos) d =
      (d' : D) × (sqlite.insert_in_flight client_id pid topic payload qos d ≡ some d')
  Succeeds (delete_in_flight client_id pid) d =
      (d' : D) × (sqlite.delete_one_in_flight client_id pid d ≡ some d')
  Succeeds (save_session client_id username clean_start expiry) d = Unit
  Succeeds (delete_session client_id) d = Unit
  Succeeds (save_subscription client_id topic_filter qos sub_id) d = Unit
  Succeeds (delete_subscription client_id topic_filter) d = Unit

  abbrev pub Succeed : (now : ℕ) → List Task → D → Type 0
  Succeed now [] d = Unit
  Succeed now (task ∷ tasks) d = Succeeds task d × Succeed now tasks (run_task sqlite now task d)

  pub run_tasks-append :
      (now : ℕ) (tasks more : List Task) (d : D)
      → run_tasks sqlite now (tasks ++ more) d
        ≡ run_tasks sqlite now more (run_tasks sqlite now tasks d)
  unfolding run_tasks
  run_tasks-append now [] more d = refl
  run_tasks-append now (task ∷ tasks) more d =
      run_tasks-append now tasks more (run_task sqlite now task d)

  pub Succeed-first :
      (now : ℕ) (tasks more : List Task) (d : D)
      → Succeed now (tasks ++ more) d
      → Succeed now tasks d
  Succeed-first now [] more d h = tt
  Succeed-first now (task ∷ tasks) more d (one, h) =
      (one, Succeed-first now tasks more (run_task sqlite now task d) h)

  pub Succeed-rest :
      (now : ℕ) (tasks more : List Task) (d : D)
      → Succeed now (tasks ++ more) d
      → Succeed now more (run_tasks sqlite now tasks d)
  unfolding run_tasks
  Succeed-rest now [] more d h = h
  Succeed-rest now (task ∷ tasks) more d (one, h) =
      Succeed-rest now tasks more (run_task sqlite now task d) h
