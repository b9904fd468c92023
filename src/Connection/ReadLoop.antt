-- ===== src/Connection/ReadLoop.antt =====
-- The loop over the reads of a connection, and its cleanup, in src/main.rs.
use pipistrelle.Prelude.{
  ℕ, suc, ◌≡◌, refl, sym, ◌∙◌, ap, arith, ◌⊎◌, inl, inr, List, [], ◌∷◌, ◌++◌, append_assoc,
  append-nil, All, All-append, length, length-append,
}
use pipistrelle.Prelude.Text.{Str}
use pipistrelle.PacketLoop.{Drained, waiting, failed, panicked, spent}
use pipistrelle.Codec.Outcome.{incomplete, err}
use pipistrelle.Codec.Decode.{decode_packet}
use pipistrelle.Session.State.{BrokerState, update_activity, on_session}
use pipistrelle.Session.Registry.{remove_session}
use pipistrelle.Connection.{
  ReadResult, received, closed, read_error, timed_out, Served, returned, on_drained, serve,
}
use pipistrelle.Connection.Trace.{
  ends, Parses-append, starts, notes, IsReceived, bytes_of, Progress, After, OnTrace, OnBuffer,
  within-OnBuffer,
}

bytes_of-snoc :
    (past : List ReadResult) (bytes : List ℕ)
    → bytes_of (past ++ received bytes ∷ []) ≡ bytes_of past ++ bytes
bytes_of-snoc [] bytes = append-nil bytes
bytes_of-snoc (received b ∷ past) bytes =
    ap (λ l. b ++ l) (bytes_of-snoc past bytes) ∙ sym (append_assoc b (bytes_of past) bytes)
bytes_of-snoc (closed ∷ past) bytes = bytes_of-snoc past bytes
bytes_of-snoc (read_error ∷ past) bytes = bytes_of-snoc past bytes
bytes_of-snoc (timed_out ∷ past) bytes = bytes_of-snoc past bytes

module _ (now arc : ℕ) (client_id : Str) (buf₀ : List ℕ) (s₀ : BrokerState) where
  abbrev Waits : List ReadResult → List ℕ → Type 0
  Waits past rest = (past ≡ []) ⊎ (decode_packet rest ≡ err incomplete)

  -- One read more, before its packets are taken.
  noted :
      (past : List ReadResult) (bytes buf : List ℕ) (s : BrokerState)
      → After now arc client_id buf₀ s₀ past buf s
      → Progress now arc client_id buf₀ s₀
          (suc (length past))
          ((buf₀ ++ bytes_of past) ++ bytes)
          (buf ++ bytes)
          (on_session arc (update_activity now) s)
  noted past bytes buf s (all, (ps, parsed, run)) = (ps, Parses-append bytes parsed, notes run)

  -- The same, with the read among those of the past.
  arrived :
      (past : List ReadResult) (bytes rest : List ℕ) (t : BrokerState)
      → All IsReceived past
      → Progress now arc client_id buf₀ s₀
          (suc (length past))
          ((buf₀ ++ bytes_of past) ++ bytes)
          rest
          t
      → After now arc client_id buf₀ s₀ (past ++ received bytes ∷ []) rest t
  arrived past bytes rest t all g =
      let count : length (past ++ received bytes ∷ []) ≡ suc (length past) =
        omega (arith, length-append past (received bytes ∷ [])) in
      (
        All-append IsReceived past (received bytes ∷ []) all (tt, tt),
        rw (count, bytes_of-snoc past bytes, ← append_assoc buf₀ (bytes_of past) bytes) g,
      )

  drained-OnTrace :
      (past results later : List ReadResult) (bytes : List ℕ)
      (go_on : List ℕ → BrokerState → Served) (d : Drained BrokerState)
      → results ≡ past ++ received bytes ∷ later
      → All IsReceived past
      → ((rest : List ℕ) (t : BrokerState)
          → results ≡ (past ++ received bytes ∷ []) ++ later
          → After now arc client_id buf₀ s₀ (past ++ received bytes ∷ []) rest t
          → decode_packet rest ≡ err incomplete
          → OnTrace now arc client_id buf₀ s₀ results (go_on rest t))
      → OnBuffer now arc client_id buf₀ s₀ (suc (length past)) ((buf₀ ++ bytes_of past) ++ bytes) d
      → OnTrace now arc client_id buf₀ s₀ results (on_drained client_id go_on d)
  drained-OnTrace past results later bytes go_on (waiting rest t) e all k (g, i) =
      k rest t (e ∙ sym (append_assoc past (received bytes ∷ []) later))
        (arrived past bytes rest t all g) i
  drained-OnTrace past results later bytes go_on (failed t) e all k (rest, g, f) = (
    past ++ received bytes ∷ [],
    later,
    rest,
    t,
    refl,
    arrived past bytes rest t all g,
    inr (e ∙ sym (append_assoc past (received bytes ∷ []) later), f),
  )
  drained-OnTrace past results later bytes go_on (panicked t) e all k (rest, g, p) = (
    past ++ received bytes ∷ [],
    later,
    rest,
    e ∙ sym (append_assoc past (received bytes ∷ []) later),
    arrived past bytes rest t all g,
    p,
  )
  drained-OnTrace past results later bytes go_on (spent t) e all k h = elim h [ ]

  stopped_by :
      (past results later : List ReadResult) (last : ReadResult) (buf : List ℕ) (s : BrokerState)
      → results ≡ past ++ last ∷ later
      → (IsReceived last → ⊥)
      → After now arc client_id buf₀ s₀ past buf s
      → OnTrace now arc client_id buf₀ s₀ results (returned (remove_session client_id s))
  stopped_by past results later last buf s e none_came a =
      (past, later, buf, s, refl, a, inl (last, e, none_came))

  serve_from :
      (later past results : List ReadResult) (buf : List ℕ) (s : BrokerState)
      → results ≡ past ++ later
      → After now arc client_id buf₀ s₀ past buf s
      → Waits past buf
      → OnTrace now arc client_id buf₀ s₀ results (serve now arc client_id later buf s)
  unfolding serve
  serve_from [] past results buf s e a w = rw (e, append-nil past) (a, w)
  serve_from (received bytes ∷ later) past results buf s e a w =
      drained-OnTrace past results later bytes (serve now arc client_id later) _ e a.0
        (λ rest t f b i. serve_from later (past ++ received bytes ∷ []) results rest t f b (inr i))
        (within-OnBuffer now arc client_id buf₀ s₀ (suc (length (buf ++ bytes))) (suc (length past))
          ((buf₀ ++ bytes_of past) ++ bytes) (buf ++ bytes) (on_session arc (update_activity now) s)
          (omega arith) (noted past bytes buf s a))
  serve_from (closed ∷ later) past results buf s e a w =
      stopped_by past results later closed buf s e (λ x. x) a
  serve_from (read_error ∷ later) past results buf s e a w =
      stopped_by past results later read_error buf s e (λ x. x) a
  serve_from (timed_out ∷ later) past results buf s e a w =
      stopped_by past results later timed_out buf s e (λ x. x) a

-- The loop of a connection handles in order the packets of the stream that its reads make, behind what was
-- in the buffer before, however the reads cut it, noting the client's activity once for each read. It stays
-- open only when every read had bytes, and then waits on a rest that the codec calls incomplete, or has read
-- nothing. It returns when a read has no bytes, or when the codec refuses the rest or the handling its first
-- packet, and behind the packets handled it has then done `remove_session` for the client and nothing else.
-- It aborts only where the codec panics.
pub serve-OnTrace :
    (now arc : ℕ) (client_id : Str) (results : List ReadResult) (buf : List ℕ) (s : BrokerState)
    → OnTrace now arc client_id buf s results (serve now arc client_id results buf s)
serve-OnTrace now arc client_id results buf s =
    serve_from now arc client_id buf s results [] results buf s refl
      (tt, ([], rw (append-nil buf) ends, starts)) (inl refl)
