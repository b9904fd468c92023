-- ===== src/Connection.antt =====
-- A client's connection: `handle_connection` and `process_client_packet` of src/main.rs.
pub mod Process
pub mod Handshake
pub mod Answer
pub mod Reach
pub mod Refused
pub mod Trace
pub mod ReadLoop
pub mod Replies
pub mod Admission
mod Tests
use pipistrelle.Prelude.{ℕ, List, [], ◌∷◌, ◌++◌}
use pipistrelle.Prelude.Text.{Str}
use pipistrelle.PacketLoop.{Handled, Drained, waiting, failed, panicked, spent, drain}
use pipistrelle.Session.State.{BrokerState, update_activity, on_session}
use pipistrelle.Session.Registry.{remove_session}
use pipistrelle.Connection.Process.{process_client_packet}

-- What `timeout(keep_alive_duration, read_half.read_buf(&mut read_buf))` gives: one byte or more, the
-- end of the stream (no byte), an error, or nothing in time.
pub data ReadResult : Type 0 where
  received : List ℕ → ReadResult
  closed read_error timed_out : ReadResult

-- `open` while the loop goes on, with the bytes not yet taken; `returned` after the cleanup. After
-- a panic nothing is cleaned up.
pub data Served : Type 0 where
  open_with : List ℕ → BrokerState → Served
  returned : BrokerState → Served
  aborted : BrokerState → Served

abbrev pub on_drained : Str → (List ℕ → BrokerState → Served) → Drained BrokerState → Served
on_drained client_id next (waiting read_buf state) = next read_buf state
on_drained client_id next (failed state) = returned (remove_session client_id state)
on_drained client_id next (panicked state) = aborted state
on_drained client_id next (spent state) = aborted state

-- 5. and 6. The loop over the reads of one connection, and the cleanup.
unfoldable pub serve :
    (now arc : ℕ) (client_id : Str) → List ReadResult → List ℕ → BrokerState → Served
serve now arc client_id [] read_buf state = open_with read_buf state
serve now arc client_id (received bytes ∷ reads) read_buf state =
    on_drained client_id (serve now arc client_id reads) (
      drain (process_client_packet now arc) (read_buf ++ bytes)
        (on_session arc (update_activity now) state))
serve now arc client_id (closed ∷ reads) read_buf state = returned (remove_session client_id state)
serve now arc client_id (read_error ∷ reads) read_buf state =
    returned (remove_session client_id state)
serve now arc client_id (timed_out ∷ reads) read_buf state =
    returned (remove_session client_id state)
