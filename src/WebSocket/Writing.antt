-- ===== src/WebSocket/Writing.antt =====
-- The messages that src/websocket.rs makes of what is written.
use pipistrelle.Prelude.{
  ℕ, ◌≡◌, refl, sym, ◌∙◌, ap, Bool-cases, inl, inr, List, [], ◌∷◌, ◌++◌, append_assoc, append-nil,
  Option, none, some,
}
use pipistrelle.WebSocket.{
  WebSocketStreamAdapter, is_empty, Poll, ready_ok, ready_err, is_pending, Sink, poll_write,
  when_ready, poll_flush, then_close, poll_shutdown,
}

-- A call of the adapter's writing half.
pub data Call : Type 0 where
  write : List ℕ → Call
  flush shutdown : Sink → Call

abbrev pub call : Call → WebSocketStreamAdapter → Poll × WebSocketStreamAdapter
call (write buf) this = (ready_ok, (poll_write buf this).1)
call (flush ws) this = poll_flush ws this
call (shutdown ws) this = poll_shutdown ws this

abbrev unless_err :
    (WebSocketStreamAdapter → Option WebSocketStreamAdapter)
    → Poll × WebSocketStreamAdapter
    → Option WebSocketStreamAdapter
unless_err next (ready_ok, this) = next this
unless_err next (is_pending, this) = next this
unless_err next (ready_err, this) = none

-- The calls one after the other, up to an error, at which the connection is given up.
abbrev pub run : List Call → WebSocketStreamAdapter → Option WebSocketStreamAdapter
run [] this = some this
run (c ∷ calls) this = unless_err (run calls) (call c this)

abbrev pub concat : List (List ℕ) → List ℕ
concat [] = []
concat (x ∷ xs) = x ++ concat xs

-- The bytes that the calls write.
abbrev pub written : List Call → List ℕ
written [] = []
written (write buf ∷ calls) = buf ++ written calls
written (flush ws ∷ calls) = written calls
written (shutdown ws ∷ calls) = written calls

-- What has been sent, with what waits behind it.
abbrev pub output : WebSocketStreamAdapter → List ℕ
output this = concat this.sent ++ this.write_buffer

concat-snoc : (xs : List (List ℕ)) (x : List ℕ) → concat (xs ++ x ∷ []) ≡ concat xs ++ x
concat-snoc [] x = append-nil x
concat-snoc (y ∷ xs) x = ap (λ l. y ++ l) (concat-snoc xs x) ∙ sym (append_assoc y (concat xs) x)

-- Unless it is an error, the call has put `more` behind the output.
abbrev Extends : WebSocketStreamAdapter → List ℕ → Poll × WebSocketStreamAdapter → Type 0
Extends this more (ready_ok, this') = output this' ≡ output this ++ more
Extends this more (is_pending, this') = output this' ≡ output this ++ more
Extends this more (ready_err, this') = Unit

sends :
    (this : WebSocketStreamAdapter)
    → output (record this { sent = this.sent ++ this.write_buffer ∷ []; write_buffer = [] })
      ≡ output this ++ []
sends this = ap (λ l. l ++ []) (concat-snoc this.sent this.write_buffer)

flushed :
    (this : WebSocketStreamAdapter) (p : Poll)
    → Extends this []
        (p, record this { sent = this.sent ++ this.write_buffer ∷ []; write_buffer = [] })
flushed this ready_ok = sends this
flushed this is_pending = sends this
flushed this ready_err = tt

poll_flush-Extends :
    (ws : Sink) (this : WebSocketStreamAdapter) → Extends this [] (poll_flush ws this)
unfolding poll_flush
poll_flush-Extends ws this = elim (Bool-cases (is_empty this.write_buffer)) [
  | inl e ↦ rw e (sym (append-nil (output this)))
  | inr e ↦ rw e (ready_for ws.poll_ready)
]
  where
    ready_for : (p : Poll) → Extends this [] (when_ready ws this p)
    ready_for ready_err = tt
    ready_for is_pending = sym (append-nil (output this))
    ready_for ready_ok = elim (Bool-cases ws.start_send) [
      | inl e ↦ rw e (flushed this ws.poll_flush)
      | inr e ↦ rw e tt
    ]

closed :
    (this this' : WebSocketStreamAdapter) (p : Poll)
    → output this' ≡ output this ++ []
    → Extends this [] (p, this')
closed this this' ready_ok e = e
closed this this' is_pending e = e
closed this this' ready_err e = tt

then_close-Extends :
    (ws : Sink) (this : WebSocketStreamAdapter) (r : Poll × WebSocketStreamAdapter)
    → Extends this [] r
    → Extends this [] (then_close ws r)
then_close-Extends ws this (ready_ok, this') e = closed this this' ws.poll_close e
then_close-Extends ws this (is_pending, this') e = e
then_close-Extends ws this (ready_err, this') e = tt

call-Extends :
    (c : Call) (this : WebSocketStreamAdapter) → Extends this (written (c ∷ [])) (call c this)
unfolding poll_write poll_shutdown
call-Extends (write buf) this =
    rw (append-nil buf) (sym (append_assoc (concat this.sent) this.write_buffer buf))
call-Extends (flush ws) this = poll_flush-Extends ws this
call-Extends (shutdown ws) this =
    then_close-Extends ws this (poll_flush ws this) (poll_flush-Extends ws this)

after :
    (this : WebSocketStreamAdapter) (more : List ℕ) (calls : List Call)
    (r : Poll × WebSocketStreamAdapter) {end : WebSocketStreamAdapter}
    → ((x : WebSocketStreamAdapter)
        → run calls x ≡ some end
        → output end ≡ output x ++ written calls)
    → Extends this more r
    → unless_err (run calls) r ≡ some end
    → output end ≡ output this ++ (more ++ written calls)
after this more calls (ready_ok, x) ih e r =
    rw (ih x r, e) (append_assoc (output this) more (written calls))
after this more calls (is_pending, x) ih e r =
    rw (ih x r, e) (append_assoc (output this) more (written calls))
after this more calls (ready_err, x) ih e r = cc

written-cons :
    (c : Call) (calls : List Call) → written (c ∷ calls) ≡ written (c ∷ []) ++ written calls
written-cons (write buf) calls = rw (append-nil buf) refl
written-cons (flush ws) calls = refl
written-cons (shutdown ws) calls = refl

-- However the writes, the flushes and the shutdown fall, and whatever the WebSocket answers, as long as no
-- call gives an error: the messages given to the WebSocket, with what waits in the buffer behind them, are
-- what they were with the bytes that have been written behind it, none lost, repeated or moved.
pub output-run :
    (calls : List Call) (this end : WebSocketStreamAdapter)
    → run calls this ≡ some end
    → output end ≡ output this ++ written calls
output-run [] this end e =
    let same : this ≡ end = cc in rw (← same) (sym (append-nil (output this)))
output-run (c ∷ calls) this end e = rw (written-cons c calls) (
    after this (written (c ∷ [])) calls (call c this) (λ x r. output-run calls x end r)
      (call-Extends c this) e)
