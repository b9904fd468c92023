-- ===== src/WebSocket.antt =====
-- `WebSocketStreamAdapter` of src/websocket.rs: a stream of bytes over the frames of a WebSocket.
pub mod Reading
pub mod Writing
mod Tests
use pipistrelle.Prelude.{
  ℕ, ◌+◌, ◌-◌, Bool, true, false, List, [], ◌∷◌, ◌++◌, length, take, drop, ltb, if◌then◌else◌,
}

-- A message of the WebSocket; a text is its bytes (`into_bytes`), and `other` is `Message::Frame`.
pub data Message : Type 0 where
  binary text : List ℕ → Message
  close ping pong other : Message

-- What `poll_next` gives when it is ready: `Some(Ok(msg))`, `Some(Err(e))` or `None`.
pub data Next : Type 0 where
  message : Message → Next
  broken ended : Next

-- The adapter; `sent` is what `start_send` of the WebSocket has taken, in order.
pub record WebSocketStreamAdapter : Type 0 where
  pub sent : List (List ℕ)
  pub read_buffer : List ℕ
  pub read_cursor : ℕ
  pub write_buffer : List ℕ

unfoldable pub new : WebSocketStreamAdapter
new = record { sent = []; read_buffer = []; read_cursor = 0; write_buffer = [] }

-- `Poll::Ready(Ok(()))` with the bytes put into `buf`, `Poll::Ready(Err(..))`, or `Poll::Pending`.
pub data Read : Type 0 where
  ready : List ℕ → Read
  failed pending : Read

-- What `poll_read` returns, the adapter, and what `poll_next` has still to give.
abbrev pub ReadResult : Type 0
ReadResult = Read × WebSocketStreamAdapter × List Next

-- `min` of the two lengths, by `take`.
abbrev pub copy : (remaining : ℕ) → WebSocketStreamAdapter → List Next → ReadResult
copy remaining this nexts =
    let bytes = take remaining (drop this.read_cursor this.read_buffer) in
    (ready bytes, record this { read_cursor = this.read_cursor + length bytes }, nexts)

abbrev pub has_data : WebSocketStreamAdapter → Bool
has_data this = ltb this.read_cursor (length this.read_buffer)

abbrev pub is_empty : List ℕ → Bool
is_empty [] = true
is_empty (b ∷ bytes) = false

-- A frame with data replaces the buffer.
abbrev pub refill : List ℕ → WebSocketStreamAdapter → WebSocketStreamAdapter
refill bytes this =
    if is_empty bytes then this else record this { read_buffer = bytes; read_cursor = 0 }

abbrev pub on_next :
    (WebSocketStreamAdapter → ReadResult) → Next → WebSocketStreamAdapter → List Next → ReadResult
on_next loop (message (binary bin)) this nexts = loop (refill bin this)
on_next loop (message (text txt)) this nexts = loop (refill txt this)
on_next loop (message close) this nexts = (ready [], this, nexts)
on_next loop (message ping) this nexts = loop this
on_next loop (message pong) this nexts = loop this
on_next loop (message other) this nexts = loop this
on_next loop broken this nexts = (failed, this, nexts)
on_next loop ended this nexts = (ready [], this, nexts)

-- `nexts` is what `poll_next` gives before it is pending; `remaining` is the room in `buf`.
unfoldable pub poll_read : (remaining : ℕ) → WebSocketStreamAdapter → List Next → ReadResult
poll_read remaining this [] = if has_data this then copy remaining this [] else (pending, this, [])
poll_read remaining this (next ∷ nexts) =
    if has_data this
    then copy remaining this (next ∷ nexts)
    else on_next (λ this. poll_read remaining this nexts) next this nexts

-- What a call of the WebSocket's sink gives.
pub data Poll : Type 0 where
  ready_ok ready_err is_pending : Poll

-- What `poll_ready`, `start_send` (is it `Ok`?), `poll_flush` and `poll_close` of the WebSocket give.
pub record Sink : Type 0 where
  pub poll_ready : Poll
  pub start_send : Bool
  pub poll_flush : Poll
  pub poll_close : Poll

unfoldable pub poll_write : List ℕ → WebSocketStreamAdapter → ℕ × WebSocketStreamAdapter
poll_write buf this = (length buf, record this { write_buffer = this.write_buffer ++ buf })

-- `mem::take` empties the buffer before `start_send` is called.
abbrev pub send_buffer : Sink → WebSocketStreamAdapter → Poll × WebSocketStreamAdapter
send_buffer ws this =
    if ws.start_send
    then (
      ws.poll_flush,
      record this { sent = this.sent ++ this.write_buffer ∷ []; write_buffer = [] },
    )
    else (ready_err, record this { write_buffer = [] })

abbrev pub when_ready : Sink → WebSocketStreamAdapter → Poll → Poll × WebSocketStreamAdapter
when_ready ws this ready_ok = send_buffer ws this
when_ready ws this ready_err = (ready_err, this)
when_ready ws this is_pending = (is_pending, this)

unfoldable pub poll_flush : Sink → WebSocketStreamAdapter → Poll × WebSocketStreamAdapter
poll_flush ws this =
    if is_empty this.write_buffer then (ready_ok, this) else when_ready ws this ws.poll_ready

-- `ready!(..)?` returns what is not `Ok`.
abbrev pub then_close : Sink → Poll × WebSocketStreamAdapter → Poll × WebSocketStreamAdapter
then_close ws (ready_ok, this) = (ws.poll_close, this)
then_close ws (ready_err, this) = (ready_err, this)
then_close ws (is_pending, this) = (is_pending, this)

unfoldable pub poll_shutdown : Sink → WebSocketStreamAdapter → Poll × WebSocketStreamAdapter
poll_shutdown ws this = then_close ws (poll_flush ws this)
