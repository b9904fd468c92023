-- ===== src/WebSocket/Tests.antt =====
-- Concrete runs of src/websocket.rs, and the theorems at them.
use pipistrelle.Prelude.{◌≡◌, refl, true, [], ◌∷◌, ◌++◌}
use pipistrelle.WebSocket.{
  binary, text, close, ping, message, WebSocketStreamAdapter, new, ready, poll_read, ready_ok,
  is_pending, Sink, poll_write, poll_flush,
}
use pipistrelle.WebSocket.Reading.{Reads, poll_read-Reads}
use pipistrelle.WebSocket.Writing.{write, flush, output, written, output-run}

-- A ping and an empty frame are passed over; two bytes of the three fit.
reads_two :
    poll_read 2 new (message ping ∷ message (text []) ∷ message (binary (1 ∷ 2 ∷ 3 ∷ [])) ∷ [])
    ≡ (ready (1 ∷ 2 ∷ []), record new { read_buffer = 1 ∷ 2 ∷ 3 ∷ []; read_cursor = 2 }, [])
unfolding poll_read new
reads_two = refl

poll_read-Reads_example :
    Reads 2 new
      (message ping ∷ message (binary (1 ∷ 2 ∷ 3 ∷ [])) ∷ message close ∷ [])
      (poll_read 2 new (message ping ∷ message (binary (1 ∷ 2 ∷ 3 ∷ [])) ∷ message close ∷ []))
poll_read-Reads_example =
    poll_read-Reads 2 new (message ping ∷ message (binary (1 ∷ 2 ∷ 3 ∷ [])) ∷ message close ∷ [])

-- The WebSocket takes the message, and is not done with it when it is flushed.
abbrev slow : Sink
slow = record {
  poll_ready = ready_ok;
  start_send = true;
  poll_flush = is_pending;
  poll_close = is_pending;
}

abbrev sent_slowly : WebSocketStreamAdapter
sent_slowly = record {
  sent = (1 ∷ 2 ∷ []) ∷ [];
  read_buffer = [];
  read_cursor = 0;
  write_buffer = [];
}

-- The next call says that all is flushed, without asking the WebSocket.
flushed_early : poll_flush slow sent_slowly ≡ (ready_ok, sent_slowly)
unfolding poll_flush
flushed_early = refl

output-run_example :
    output sent_slowly ≡ output new ++ written (write (1 ∷ []) ∷ write (2 ∷ []) ∷ flush slow ∷ [])
unfolding poll_write poll_flush new
output-run_example =
    output-run (write (1 ∷ []) ∷ write (2 ∷ []) ∷ flush slow ∷ []) new sent_slowly refl
