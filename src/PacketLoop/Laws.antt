-- ===== src/PacketLoop/Laws.antt =====
-- What the packet loop of src/main.rs and src/bridge.rs does to a stream of bytes.
use pipistrelle.Prelude.{
  ℕ, zero, suc, ◌<◌, ◌≡◌, ◌≢◌, refl, sym, ◌∙◌, arith, List, ◌++◌, length, drop, length-drop,
  drop-append_le,
}
use pipistrelle.Codec.Outcome.{
  incomplete, invalid_varint, malformed_packet, unsupported_protocol_version, Result, ok, err,
  panic, stuck,
}
use pipistrelle.Codec.Packet.{Packet}
use pipistrelle.Codec.Decode.{decode_packet}
use pipistrelle.Codec.Decode.Streaming.{decode_packet_bounds}
use pipistrelle.Codec.Decode.Settled.{decode_packet_settled}
use pipistrelle.Codec.Decode.Total.{decode_packet-ne-stuck}
use pipistrelle.PacketLoop.{
  OnHandled, OnDrained, Handled, done, refused, Drained, waiting, failed, panicked, spent,
  on_handled, on_decoded, drain_loop, drain,
}

module _ {ℓ} {S : Type ℓ} (handle : Packet → S → Handled S) where
  on_handled_same :
      (a b : S → Drained S) (h : Handled S)
      → ((s : S) → a s ≡ b s)
      → on_handled a h ≡ on_handled b h
  on_handled_same a b (done s) same = same s
  on_handled_same a b (refused s) same = refl

  on_decoded_same :
      (a b : ℕ → S → Drained S) (buf : List ℕ) (s : S) (r : Result (Packet × ℕ))
      → ((p : Packet) (n : ℕ) (s : S) → r ≡ ok (p, n) → a n s ≡ b n s)
      → on_decoded handle a buf s r ≡ on_decoded handle b buf s r
  on_decoded_same a b buf s (ok (p, n)) same =
      on_handled_same (a n) (b n) (handle p s) (λ s'. same p n s' refl)
  on_decoded_same a b buf s (err e) same = refl
  on_decoded_same a b buf s panic same = refl
  on_decoded_same a b buf s stuck same = refl

  shorter :
      (buf : List ℕ) {p : Packet} {n : ℕ}
      → decode_packet buf ≡ ok (p, n)
      → length (drop n buf) < length buf
  shorter buf {n = n} e = omega (arith, length-drop n buf, decode_packet_bounds buf e)

  -- Fuel beyond the buffer's length makes no difference.
  drain_loop_fuel :
      (f g : ℕ) (buf : List ℕ) (s : S)
      → length buf < f
      → length buf < g
      → drain_loop handle f buf s ≡ drain_loop handle g buf s
  unfolding drain_loop
  drain_loop_fuel zero g buf s h k = absurd (omega arith)
  drain_loop_fuel (suc f) zero buf s h k = absurd (omega arith)
  drain_loop_fuel (suc f) (suc g) buf s h k =
      on_decoded_same (λ n. drain_loop handle f (drop n buf))
        (λ n. drain_loop handle g (drop n buf)) buf s (decode_packet buf)
        λ p n s' e.
          drain_loop_fuel f g (drop n buf) s' (omega (arith, shorter buf e))
            (omega (arith, shorter buf e))

  -- One round of the loop, then the rest.
  pub drain_lem :
      (buf : List ℕ) (s : S)
      → drain handle buf s
        ≡ on_decoded handle (λ n. drain handle (drop n buf)) buf s (decode_packet buf)
  unfolding drain drain_loop
  drain_lem buf s =
      on_decoded_same (λ n. drain_loop handle (length buf) (drop n buf))
        (λ n. drain_loop handle (suc (length (drop n buf))) (drop n buf)) buf s (decode_packet buf)
        λ p n s' e.
          drain_loop_fuel (length buf) (suc (length (drop n buf))) (drop n buf) s' (shorter buf e)
            (omega arith)

  -- More bytes arrive, if the loop still waits for them.
  abbrev pub resume : List ℕ → Drained S → Drained S
  resume more (waiting buf s) = drain handle (buf ++ more) s
  resume more (failed s) = failed s
  resume more (panicked s) = panicked s
  resume more (spent s) = spent s

  resume-on_handled :
      (more : List ℕ) (a b : S → Drained S) (h : Handled S)
      → ((s : S) → resume more (a s) ≡ b s)
      → resume more (on_handled a h) ≡ on_handled b h
  resume-on_handled more a b (done s) same = same s
  resume-on_handled more a b (refused s) same = refl

  final :
      {r : Result (Packet × ℕ)} (buf more : List ℕ)
      → decode_packet buf ≡ r
      → r ≢ err incomplete
      → decode_packet (buf ++ more) ≡ r
  final buf more e ne = decode_packet_settled buf more (λ i. ne (sym e ∙ i)) ∙ e

  -- The case of one answer of the codec; `next` is what holds after a packet.
  resume_round :
      (buf more : List ℕ) (s : S) (r : Result (Packet × ℕ))
      → decode_packet buf ≡ r
      → ((p : Packet) (n : ℕ) (s' : S)
          → decode_packet buf ≡ ok (p, n)
          → resume more (drain handle (drop n buf) s') ≡ drain handle (drop n buf ++ more) s')
      → resume more (on_decoded handle (λ n. drain handle (drop n buf)) buf s r)
        ≡ drain handle (buf ++ more) s
  resume_round buf more s (ok (p, n)) e next =
      rw
        (
          drain_lem (buf ++ more) s,
          final buf more e (λ x. cc),
          drop-append_le n buf more (decode_packet_bounds buf e).1,
        )
        (resume-on_handled more (drain handle (drop n buf)) (drain handle (drop n buf ++ more))
          (handle p s) (λ s'. next p n s' e))
  resume_round buf more s (err incomplete) e next = refl
  resume_round buf more s (err invalid_varint) e next =
      rw (drain_lem (buf ++ more) s, final buf more e (λ x. cc)) refl
  resume_round buf more s (err malformed_packet) e next =
      rw (drain_lem (buf ++ more) s, final buf more e (λ x. cc)) refl
  resume_round buf more s (err (unsupported_protocol_version v)) e next =
      rw (drain_lem (buf ++ more) s, final buf more e (λ x. cc)) refl
  resume_round buf more s panic e next =
      rw (drain_lem (buf ++ more) s, final buf more e (λ x. cc)) refl
  resume_round buf more s stuck e next = absurd (decode_packet-ne-stuck buf e)

  resume_within :
      (k : ℕ) (buf more : List ℕ) (s : S)
      → length buf < k
      → resume more (drain handle buf s) ≡ drain handle (buf ++ more) s
  resume_within zero buf more s h = absurd (omega arith)
  resume_within (suc k) buf more s h = rw (drain_lem buf s) (
      resume_round buf more s (decode_packet buf) refl
        λ p n s' e. resume_within k (drop n buf) more s' (omega (arith, shorter buf e)))

  -- How the bytes of a stream are split into reads makes no difference: to take the packets of `buf` and
  -- then, when `more` has arrived, those of what is left with `more` behind it, is to take the packets of
  -- both at once, with the same state, the same rest, and the same failure if there is one.
  pub resume-drain :
      (buf more : List ℕ) (s : S) → resume more (drain handle buf s) ≡ drain handle (buf ++ more) s
  resume-drain buf more s = resume_within (suc (length buf)) buf more s (omega arith)

  -- The loop has ended, and what is left where it waits decodes to Incomplete.
  abbrev pub Settled : Drained S → Type 0
  Settled (waiting rest s) = decode_packet rest ≡ err incomplete
  Settled (failed s) = Unit
  Settled (panicked s) = Unit
  Settled (spent s) = ⊥

  on_handled-Settled :
      (a : S → Drained S) (h : Handled S) → ((s : S) → Settled (a s)) → Settled (on_handled a h)
  on_handled-Settled a (done s) all = all s
  on_handled-Settled a (refused s) all = tt

  round-Settled :
      (buf : List ℕ) (s : S) (r : Result (Packet × ℕ))
      → decode_packet buf ≡ r
      → ((p : Packet) (n : ℕ) (s' : S)
          → decode_packet buf ≡ ok (p, n)
          → Settled (drain handle (drop n buf) s'))
      → Settled (on_decoded handle (λ n. drain handle (drop n buf)) buf s r)
  round-Settled buf s (ok (p, n)) e next =
      on_handled-Settled (drain handle (drop n buf)) (handle p s) (λ s'. next p n s' e)
  round-Settled buf s (err incomplete) e next = e
  round-Settled buf s (err invalid_varint) e next = tt
  round-Settled buf s (err malformed_packet) e next = tt
  round-Settled buf s (err (unsupported_protocol_version v)) e next = tt
  round-Settled buf s panic e next = tt
  round-Settled buf s stuck e next = decode_packet-ne-stuck buf e

  within-Settled : (k : ℕ) (buf : List ℕ) (s : S) → length buf < k → Settled (drain handle buf s)
  within-Settled zero buf s h = absurd (omega arith)
  within-Settled (suc k) buf s h = rw (drain_lem buf s) (
      round-Settled buf s (decode_packet buf) refl
        λ p n s' e. within-Settled k (drop n buf) s' (omega (arith, shorter buf e)))

  -- The loop ends on every buffer, never for want of fuel, and where it waits, `decode_packet` answers
  -- Incomplete for what is left.
  pub drain-Settled : (buf : List ℕ) (s : S) → Settled (drain handle buf s)
  drain-Settled buf s = within-Settled (suc (length buf)) buf s (omega arith)

-- What the handling of every packet keeps, the loop keeps.
module _ {ℓ κ} {S : Type ℓ} (handle : Packet → S → Handled S) (P : S → Type κ)
    (keeps : (p : Packet) (s : S) → P s → OnHandled P (handle p s)) where
  handled-keeps :
      (next : S → Drained S) (h : Handled S)
      → ((s : S) → P s → OnDrained P (next s))
      → OnHandled P h
      → OnDrained P (on_handled next h)
  handled-keeps next (done s) k h = k s h
  handled-keeps next (refused s) k h = h

  round-keeps :
      (next : ℕ → S → Drained S) (buf : List ℕ) (s : S) (r : Result (Packet × ℕ))
      → ((n : ℕ) (s : S) → P s → OnDrained P (next n s))
      → P s
      → OnDrained P (on_decoded handle next buf s r)
  round-keeps next buf s (ok (p, n)) k h = handled-keeps (next n) (handle p s) (k n) (keeps p s h)
  round-keeps next buf s (err incomplete) k h = h
  round-keeps next buf s (err invalid_varint) k h = h
  round-keeps next buf s (err malformed_packet) k h = h
  round-keeps next buf s (err (unsupported_protocol_version v)) k h = h
  round-keeps next buf s panic k h = h
  round-keeps next buf s stuck k h = h

  loop-keeps : (f : ℕ) (buf : List ℕ) (s : S) → P s → OnDrained P (drain_loop handle f buf s)
  unfolding drain_loop
  loop-keeps zero buf s h = h
  loop-keeps (suc f) buf s h =
      round-keeps (λ n. drain_loop handle f (drop n buf)) buf s (decode_packet buf)
        (λ n t k. loop-keeps f (drop n buf) t k) h

  pub drain-keeps : (buf : List ℕ) (s : S) → P s → OnDrained P (drain handle buf s)
  unfolding drain
  drain-keeps buf s h = loop-keeps (suc (length buf)) buf s h
