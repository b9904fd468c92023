-- ===== src/Connection/Trace.antt =====
-- What the loop of `handle_connection` in src/main.rs does, told by the packets of the stream.
use pipistrelle.Prelude.{
  ℕ, zero, suc, ◌<◌, ◌≡◌, ◌≢◌, refl, sym, ◌∙◌, arith, ◌⊎◌, inl, inr, List, [], ◌∷◌, ◌++◌, All,
  length, length-drop, drop, drop-append_le,
}
use pipistrelle.Prelude.Text.{Str}
use pipistrelle.PacketLoop.{
  Handled, done, refused, Drained, waiting, failed, panicked, spent, on_handled, on_decoded, drain,
}
use pipistrelle.PacketLoop.Laws.{drain_lem}
use pipistrelle.Codec.Outcome.{
  CodecError, incomplete, invalid_varint, malformed_packet, unsupported_protocol_version, Result,
  ok, err, panic, stuck,
}
use pipistrelle.Codec.Packet.{Packet}
use pipistrelle.Codec.Decode.{decode_packet}
use pipistrelle.Codec.Decode.Streaming.{decode_packet_bounds}
use pipistrelle.Codec.Decode.Settled.{decode_packet_settled}
use pipistrelle.Codec.Decode.Total.{decode_packet-ne-stuck}
use pipistrelle.Session.State.{BrokerState, update_activity, on_session}
use pipistrelle.Session.Registry.{remove_session}
use pipistrelle.Connection.{
  ReadResult, received, closed, read_error, timed_out, Served, open_with, returned, aborted,
}
use pipistrelle.Connection.Process.{process_client_packet}
use pipistrelle.Connection.Refused.{refused_same}

-- The bytes begin with the packets, one behind the other, and then `rest`.
pub data Parses : List ℕ → List Packet → List ℕ → Type 0 where
  ends : {bytes : List ℕ} → Parses bytes [] bytes
  begins :
      {bytes rest : List ℕ} {p : Packet} {n : ℕ} {ps : List Packet}
      → decode_packet bytes ≡ ok (p, n)
      → Parses (drop n bytes) ps rest
      → Parses bytes (p ∷ ps) rest

-- From `s` to `t` the packets have been handled in order, and the session's activity has been noted
-- `reads` times.
pub data Handles (now arc : ℕ) (s : BrokerState)
    : (reads : ℕ) → List Packet → BrokerState → Type 0 where
  starts : Handles now arc s 0 [] s
  notes :
      {reads : ℕ} {ps : List Packet} {t : BrokerState}
      → Handles now arc s reads ps t
      → Handles now arc s (suc reads) ps (on_session arc (update_activity now) t)
  handles :
      {reads : ℕ} {ps : List Packet} {t u : BrokerState} (p : Packet)
      → Handles now arc s reads ps t
      → process_client_packet now arc p t ≡ done u
      → Handles now arc s reads (ps ++ p ∷ []) u

pub Parses-append :
    {bytes rest : List ℕ} {ps : List Packet} (more : List ℕ)
    → Parses bytes ps rest
    → Parses (bytes ++ more) ps (rest ++ more)
Parses-append more ends = ends
Parses-append {bytes = bytes} more (begins {n = n} e h) =
    begins (decode_packet_settled bytes more (λ i. (let both = sym e ∙ i in cc)) ∙ e)
      (rw (drop-append_le n bytes more (decode_packet_bounds bytes e).1) (Parses-append more h))

Parses-snoc :
    {bytes rest : List ℕ} {ps : List Packet} {p : Packet} {n : ℕ}
    → Parses bytes ps rest
    → decode_packet rest ≡ ok (p, n)
    → Parses bytes (ps ++ p ∷ []) (drop n rest)
Parses-snoc ends e = begins e ends
Parses-snoc (begins f h) e = begins f (Parses-snoc h e)

abbrev pub IsReceived : ReadResult → Type 0
IsReceived (received bytes) = Unit
IsReceived closed = ⊥
IsReceived read_error = ⊥
IsReceived timed_out = ⊥

-- The bytes of the reads.
abbrev pub bytes_of : List ReadResult → List ℕ
bytes_of [] = []
bytes_of (received bytes ∷ results) = bytes ++ bytes_of results
bytes_of (closed ∷ results) = bytes_of results
bytes_of (read_error ∷ results) = bytes_of results
bytes_of (timed_out ∷ results) = bytes_of results

module _ (now arc : ℕ) (client_id : Str) (buf₀ : List ℕ) (s₀ : BrokerState) where
  -- The packets of `bytes` up to `rest` have been handled.
  abbrev pub Progress : (reads : ℕ) (bytes rest : List ℕ) → BrokerState → Type 0
  Progress reads bytes rest t =
      (ps : List Packet) × Parses bytes ps rest × Handles now arc s₀ reads ps t

  -- All the reads of `past` had bytes, and their packets have been handled up to `rest`.
  abbrev pub After : List ReadResult → List ℕ → BrokerState → Type 0
  After past rest t = All IsReceived past × Progress (length past) (buf₀ ++ bytes_of past) rest t

  -- The codec refuses what is left, or the handling its first packet.
  abbrev pub Fails : List ℕ → BrokerState → Type 0
  Fails rest t =
      ((e : CodecError) × (decode_packet rest ≡ err e) × (e ≢ incomplete))
      ⊎ ((p : Packet) × (n : ℕ) × (decode_packet rest ≡ ok (p, n))
          × (process_client_packet now arc p t ≡ refused t))

  -- How the loop over all `results` ends.
  abbrev pub OnTrace : List ReadResult → Served → Type 0
  OnTrace results (open_with rest t) =
      After results rest t × ((results ≡ []) ⊎ (decode_packet rest ≡ err incomplete))
  OnTrace results (returned t) =
      (past : List ReadResult) × (later : List ReadResult) × (rest : List ℕ) × (u : BrokerState)
      × (t ≡ remove_session client_id u)
      × After past rest u
      × (((last : ReadResult) × (results ≡ past ++ last ∷ later) × (IsReceived last → ⊥))
          ⊎ ((results ≡ past ++ later) × Fails rest u))
  OnTrace results (aborted t) =
      (past : List ReadResult) × (later : List ReadResult) × (rest : List ℕ) × (results
        ≡ past ++ later)
      × After past rest t
      × (decode_packet rest ≡ panic)

  -- The packet loop on a buffer that is what is left of `bytes`.
  abbrev pub OnBuffer : (reads : ℕ) (bytes : List ℕ) → Drained BrokerState → Type 0
  OnBuffer reads bytes (waiting rest t) =
      Progress reads bytes rest t × (decode_packet rest ≡ err incomplete)
  OnBuffer reads bytes (failed t) = (rest : List ℕ) × Progress reads bytes rest t × Fails rest t
  OnBuffer reads bytes (panicked t) =
      (rest : List ℕ) × Progress reads bytes rest t × (decode_packet rest ≡ panic)
  OnBuffer reads bytes (spent t) = ⊥

  handled-OnBuffer :
      (reads : ℕ) (bytes buf : List ℕ) (s : BrokerState) (p : Packet) (n : ℕ)
      (h : Handled BrokerState)
      → Progress reads bytes buf s
      → decode_packet buf ≡ ok (p, n)
      → process_client_packet now arc p s ≡ h
      → ((t : BrokerState)
          → Progress reads bytes (drop n buf) t
          → OnBuffer reads bytes (drain (process_client_packet now arc) (drop n buf) t))
      → OnBuffer reads bytes (on_handled (drain (process_client_packet now arc) (drop n buf)) h)
  handled-OnBuffer reads bytes buf s p n (done t) (ps, parsed, run) e d k =
      k t (ps ++ p ∷ [], Parses-snoc parsed e, handles p run d)
  handled-OnBuffer reads bytes buf s p n (refused t) (ps, parsed, run) e d k =
      let same = refused_same now arc p s d in
      rw same (buf, (ps, parsed, run), inr (p, n, e, rw same at d))

  round-OnBuffer :
      (reads : ℕ) (bytes buf : List ℕ) (s : BrokerState) (r : Result (Packet × ℕ))
      → Progress reads bytes buf s
      → decode_packet buf ≡ r
      → ((p : Packet) (n : ℕ) (t : BrokerState)
          → decode_packet buf ≡ ok (p, n)
          → Progress reads bytes (drop n buf) t
          → OnBuffer reads bytes (drain (process_client_packet now arc) (drop n buf) t))
      → OnBuffer reads bytes (
          on_decoded
            (process_client_packet now arc)
            (λ n. drain (process_client_packet now arc) (drop n buf))
            buf
            s
            r)
  round-OnBuffer reads bytes buf s (ok (p, n)) g e k =
      handled-OnBuffer reads bytes buf s p n (process_client_packet now arc p s) g e refl
        (λ t h. k p n t e h)
  round-OnBuffer reads bytes buf s (err incomplete) g e k = (g, e)
  round-OnBuffer reads bytes buf s (err invalid_varint) g e k =
      (buf, g, inl (invalid_varint, e, λ x. cc))
  round-OnBuffer reads bytes buf s (err malformed_packet) g e k =
      (buf, g, inl (malformed_packet, e, λ x. cc))
  round-OnBuffer reads bytes buf s (err (unsupported_protocol_version v)) g e k =
      (buf, g, inl (unsupported_protocol_version v, e, λ x. cc))
  round-OnBuffer reads bytes buf s panic g e k = (buf, g, e)
  round-OnBuffer reads bytes buf s stuck g e k = decode_packet-ne-stuck buf e

  pub within-OnBuffer :
      (k reads : ℕ) (bytes buf : List ℕ) (s : BrokerState)
      → length buf < k
      → Progress reads bytes buf s
      → OnBuffer reads bytes (drain (process_client_packet now arc) buf s)
  within-OnBuffer zero reads bytes buf s h g = absurd (omega arith)
  within-OnBuffer (suc k) reads bytes buf s h g =
      rw (drain_lem (process_client_packet now arc) buf s) (
        round-OnBuffer reads bytes buf s (decode_packet buf) g refl λ p n t e f.
          within-OnBuffer k reads bytes (drop n buf) t
            (omega (arith, h, length-drop n buf, decode_packet_bounds buf e)) f)
