-- ===== src/Connection/Admission.antt =====
-- Which first bytes src/main.rs accepts.
use pipistrelle.Prelude.{
  ℕ, ◌≡◌, refl, sym, ap, arith, Bool, true, false, Bool-cases, inl, inr, List, [], ◌∷◌, ◌++◌, drop,
  length, modify, append-nil, get_elem?-modify, get_elem?-new, some, ltb,
}
use pipistrelle.Prelude.Text.{Str, bytes_eq_refl}
use pipistrelle.Router.Maps.{get, insert, get-insert}
use pipistrelle.Codec.Decode.Total.{decode_packet-ne-stuck}
use pipistrelle.Codec.Decode.Streaming.{decode_packet_bounds}
use pipistrelle.Session.Registry.{register_session}
use pipistrelle.Codec.Outcome.{Result, ok, err, panic, stuck}
use pipistrelle.Codec.Packet.{
  Packet, Connect, connect, conn_ack, publish, pub_ack, subscribe, sub_ack, ping_req, ping_resp,
  disconnect,
}
use pipistrelle.Codec.Decode.{decode_packet}
use pipistrelle.Codec.Encode.{encode_packet}
use pipistrelle.Session.State.{
  ClientSession, BrokerState, Task, new_session, send_packet, on_session, deref,
}
use pipistrelle.Session.Deliver.{live_session}
use pipistrelle.Connection.Handshake.{
  Handshake, or_zero, accepted, turned_away, crashed, conn_ack_pkt, accept, authenticated,
  on_connect, on_first, handshake,
}

-- The state with the new session, once it is answered, and whether its row is to be written or not.
pub record Joined (pkt : Connect) (s : BrokerState) (arc : ℕ) (t : BrokerState) : Type 0 where
  pub session : ClientSession
  pub live : live_session pkt.client_id t ≡ some (arc, session)
  pub client : session.client_id ≡ pkt.client_id
  pub user : session.username ≡ pkt.username
  pub answered : session.sender ≡ encode_packet (conn_ack_pkt 0) [] ∷ []
  pub is_new : arc ≡ length s.arcs
  pub router : t.router ≡ s.router

-- The entry of a client that has just been put in.
joined_live :
    (c : Str) (session : ClientSession) (s t : BrokerState)
    → t.sessions ≡ insert c (length s.arcs) s.sessions
    → deref (length s.arcs) t ≡ some session
    → live_session c t ≡ some (length s.arcs, session)
joined_live c session s t e d =
    let entry : get c t.sessions ≡ some (length s.arcs) =
      rw (e, get-insert c c (length s.arcs) s.sessions, bytes_eq_refl c) refl in
    rw (entry, d) refl

registered :
    (arc : ℕ) (session : ClientSession) (s : BrokerState)
    → (task : List Task) × (register_session arc session s
        ≡ record s { sessions = insert session.client_id arc s.sessions; tasks = s.tasks ++ task })
unfolding register_session
registered arc session s = elim (Bool-cases (ltb 0 session.session_expiry_interval)) [
  | inl e ↦ rw e (_, refl)
  | inr e ↦ rw e (
    [],
    ap (λ t. record s { sessions = insert session.client_id arc s.sessions; tasks = t })
        (sym (append-nil s.tasks)),
  )
]

joins :
    (now : ℕ) (pkt : Connect) (s : BrokerState)
    → let session =
        new_session now pkt.client_id pkt.username pkt.clean_start pkt.keep_alive
          (or_zero pkt.properties.session_expiry_interval) in
      Joined pkt s (length s.arcs) (
        on_session
          (length s.arcs)
          (send_packet (conn_ack_pkt 0))
          (register_session (length s.arcs) session (record s { arcs = s.arcs ++ session ∷ [] })))
unfolding new_session send_packet
joins now pkt s =
    let session =
      new_session now pkt.client_id pkt.username pkt.clean_start pkt.keep_alive
        (or_zero pkt.properties.session_expiry_interval) in
    let (task, e) =
      registered (length s.arcs) session (record s { arcs = s.arcs ++ session ∷ [] }) in
    let new =
      get_elem?-modify (length s.arcs) (send_packet (conn_ack_pkt 0)) (s.arcs ++ session ∷ [])
        (get_elem?-new s.arcs session) in
    let t = record s {
      arcs = modify (length s.arcs) (send_packet (conn_ack_pkt 0)) (s.arcs ++ session ∷ []);
      sessions = insert pkt.client_id (length s.arcs) s.sessions;
      tasks = s.tasks ++ task;
    } in
    rw e (record {
      session = send_packet (conn_ack_pkt 0) session;
      live = joined_live pkt.client_id (send_packet (conn_ack_pkt 0) session) s t refl new;
      client = refl;
      user = refl;
      answered = refl;
      is_new = refl;
      router = refl;
    })

module _ (verify_password : Str → Str → Bool) (from_utf8_lossy : List ℕ → Str) where
  -- How the first read may end. Only a CONNECT of a known user is let in; else the state is as before.
  abbrev pub Outcome : List ℕ → BrokerState → Handshake → Type 0
  Outcome bytes s (accepted arc client_id rest t) =
      (pkt : Connect) × (bytes_read : ℕ) × (decode_packet bytes ≡ ok (connect pkt, bytes_read))
      × (authenticated verify_password from_utf8_lossy s.auth pkt.username pkt.password ≡ true)
      × (client_id ≡ pkt.client_id)
      × (rest ≡ drop bytes_read bytes)
      × Joined pkt s arc t
  Outcome bytes s (turned_away sent t) =
      (t ≡ s)
      × ((pkt : Connect) (bytes_read : ℕ)
          → decode_packet bytes ≡ ok (connect pkt, bytes_read)
          → authenticated verify_password from_utf8_lossy s.auth pkt.username pkt.password ≡ false)
  Outcome bytes s (crashed t) = (t ≡ s) × (decode_packet bytes ≡ panic)

  on_connect-Outcome :
      (now : ℕ) (pkt : Connect) (n : ℕ) (bytes : List ℕ) (s : BrokerState)
      → decode_packet bytes ≡ ok (connect pkt, n)
      → Outcome bytes s (on_connect verify_password from_utf8_lossy now pkt (drop n bytes) s)
  unfolding on_connect accept
  on_connect-Outcome now pkt n bytes s e =
      elim (Bool-cases
        (authenticated verify_password from_utf8_lossy s.auth pkt.username pkt.password)) [
          | inl known ↦ rw known (pkt, n, e, known, refl, refl, joins now pkt s)
          | inr unknown ↦ rw unknown (refl, λ p m f. let same : p ≡ pkt = cc in rw same unknown)
        ]

  on_first-Outcome :
      (now : ℕ) (bytes : List ℕ) (s : BrokerState) (r : Result (Packet × ℕ))
      → decode_packet bytes ≡ r
      → Outcome bytes s (on_first verify_password from_utf8_lossy now bytes s r)
  on_first-Outcome now bytes s (ok (connect pkt, n)) e = on_connect-Outcome now pkt n bytes s e
  on_first-Outcome now bytes s (ok (conn_ack pkt, n)) e = (refl, λ p m f. cc)
  on_first-Outcome now bytes s (ok (publish pkt, n)) e = (refl, λ p m f. cc)
  on_first-Outcome now bytes s (ok (pub_ack pkt, n)) e = (refl, λ p m f. cc)
  on_first-Outcome now bytes s (ok (subscribe pkt, n)) e = (refl, λ p m f. cc)
  on_first-Outcome now bytes s (ok (sub_ack pkt, n)) e = (refl, λ p m f. cc)
  on_first-Outcome now bytes s (ok (ping_req, n)) e = (refl, λ p m f. cc)
  on_first-Outcome now bytes s (ok (ping_resp, n)) e = (refl, λ p m f. cc)
  on_first-Outcome now bytes s (ok (disconnect pkt, n)) e = (refl, λ p m f. cc)
  on_first-Outcome now bytes s (err x) e = (refl, λ p m f. cc)
  on_first-Outcome now bytes s panic e = (refl, e)
  on_first-Outcome now bytes s stuck e = absurd (decode_packet-ne-stuck bytes e)

  -- The first read of a connection lets a client in just when it begins with a CONNECT of a user whom
  -- `authenticated` accepts: then the client's entry leads to a new session of that user, in whose channel
  -- the CONNACK stands and nothing else, and the bytes behind the CONNECT are kept. In every other case
  -- the broker's state is as before, and the codec panics only where `decode_packet` does.
  pub handshake-Outcome :
      (now : ℕ) (bytes : List ℕ) (s : BrokerState)
      → Outcome bytes s (handshake verify_password from_utf8_lossy now bytes s)
  unfolding handshake
  handshake-Outcome now [] s = (refl, λ p m e. absurd (omega (arith, decode_packet_bounds [] e)))
  handshake-Outcome now (b ∷ bytes) s =
      on_first-Outcome now (b ∷ bytes) s (decode_packet (b ∷ bytes)) refl
