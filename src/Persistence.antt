-- ===== src/Persistence.antt =====
-- The calls of src/persistence.rs.
pub mod Promises
pub mod Mirrors
mod Tests
use pipistrelle.Prelude.{ℕ, Bool, true, false, List, [], ◌∷◌, Option, none, some, ◌==◌, not}
use pipistrelle.Prelude.Text.{Str}
use pipistrelle.Session.State.{
  Task, save_session, delete_session, save_subscription, delete_subscription, save_in_flight,
  delete_in_flight,
}

-- The statements that the code gives to SQLite, by what they do to a database `D`: `none` is an error. The
-- values are bound in the order of the statement's parameters.
pub record Sqlite (D : Type 0) : Type 0 where
  -- INSERT OR REPLACE INTO sessions, subscriptions and in_flight
  pub insert_session : Str → Option Str → (clean_start_int expiry now : ℕ) → D → Option D
  pub insert_subscription : Str → Str → ℕ → Option ℕ → D → Option D
  pub insert_in_flight : Str → ℕ → Str → List ℕ → ℕ → D → Option D
  -- DELETE FROM .. WHERE client_id = ?1
  pub delete_from_sessions : Str → D → Option D
  pub delete_from_subscriptions : Str → D → Option D
  pub delete_from_in_flight : Str → D → Option D
  -- DELETE FROM .. WHERE client_id = ?1 AND ..
  pub delete_one_subscription : Str → Str → D → Option D
  pub delete_one_in_flight : Str → ℕ → D → Option D
  -- SELECT .. FROM sessions, subscriptions and in_flight
  pub select_sessions : D → Option (List (Str × Option Str × ℕ × ℕ))
  pub select_subscriptions : D → Option (List (Str × Str × ℕ × Option ℕ))
  pub select_in_flight : D → Option (List (Str × ℕ × Str × List ℕ × ℕ))

-- An error is logged or ignored; a statement that fails changes nothing.
abbrev pub or_unchanged {ℓ} : {D : Type ℓ} → D → Option D → D
or_unchanged d none = d
or_unchanged d (some d') = d'

abbrev pub int_of : Bool → ℕ
int_of true = 1
int_of false = 0

abbrev pub session_row : Str × Option Str × ℕ × ℕ → Str × Option Str × Bool × ℕ
session_row (client_id, username, clean_start_int, expiry) =
    (client_id, username, not (clean_start_int == 0), expiry)

abbrev pub session_rows : List (Str × Option Str × ℕ × ℕ) → List (Str × Option Str × Bool × ℕ)
session_rows [] = []
session_rows (row ∷ rows) = session_row row ∷ session_rows rows

abbrev pub loaded_sessions :
    Option (List (Str × Option Str × ℕ × ℕ)) → Option (List (Str × Option Str × Bool × ℕ))
loaded_sessions none = none
loaded_sessions (some rows) = some (session_rows rows)

module _ {D : Type 0} (sqlite : Sqlite D) where
  abbrev pub delete_session_rows : Str → D → D
  delete_session_rows client_id d =
      let d = or_unchanged d (sqlite.delete_from_sessions client_id d) in
      let d = or_unchanged d (sqlite.delete_from_subscriptions client_id d) in
      or_unchanged d (sqlite.delete_from_in_flight client_id d)

  -- A call of a method of `Persistence`, by its task.
  unfoldable pub run_task : (now : ℕ) → Task → D → D
  run_task now (save_session client_id username clean_start expiry) d =
      or_unchanged d (sqlite.insert_session client_id username (int_of clean_start) expiry now d)
  run_task now (delete_session client_id) d = delete_session_rows client_id d
  run_task now (save_subscription client_id topic_filter qos sub_id) d =
      or_unchanged d (sqlite.insert_subscription client_id topic_filter qos sub_id d)
  run_task now (delete_subscription client_id topic_filter) d =
      or_unchanged d (sqlite.delete_one_subscription client_id topic_filter d)
  run_task now (save_in_flight client_id packet_id topic payload qos) d =
      or_unchanged d (sqlite.insert_in_flight client_id packet_id topic payload qos d)
  run_task now (delete_in_flight client_id packet_id) d =
      or_unchanged d (sqlite.delete_one_in_flight client_id packet_id d)

  -- The tasks in the order in which they were spawned.
  unfoldable pub run_tasks : (now : ℕ) → List Task → D → D
  run_tasks now [] d = d
  run_tasks now (task ∷ tasks) d = run_tasks now tasks (run_task now task d)

  abbrev pub load_all_sessions : D → Option (List (Str × Option Str × Bool × ℕ))
  load_all_sessions d = loaded_sessions (sqlite.select_sessions d)

  abbrev pub load_all_subscriptions : D → Option (List (Str × Str × ℕ × Option ℕ))
  load_all_subscriptions d = sqlite.select_subscriptions d

  abbrev pub load_all_in_flight : D → Option (List (Str × ℕ × Str × List ℕ × ℕ))
  load_all_in_flight d = sqlite.select_in_flight d
