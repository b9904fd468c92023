-- ===== src/Persistence/Mirrors.antt =====
-- The messages in flight of a session of src/session.rs, and their rows by src/persistence.rs.
use pipistrelle.Prelude.{
  ℕ, ◌≡◌, refl, sym, ◌∙◌, ap, Bool-cases, inl, inr, List, [], ◌∷◌, ◌++◌, append_assoc, append-nil,
  get_elem?-modify, Option, none, some, ltb, ◌==◌,
}
use pipistrelle.Prelude.Text.{Str}
use pipistrelle.Prelude.NatMap
use pipistrelle.Codec.Packet.{PubAck, pub_ack}
use pipistrelle.Router.Maps.{get}
use pipistrelle.Session.PacketId.{get_next_packet_id}
use pipistrelle.Session.State.{
  InFlightMessage, ClientSession, BrokerState, Task, save_in_flight, delete_in_flight,
  add_in_flight, remove_in_flight, send_packet, deref,
}
use pipistrelle.Session.Deliver.{
  Message, live_session, deliver, take_packet_id, send_publish, send_publish_to_client,
}
use pipistrelle.Connection.Process.{process_pub_ack, process, process_for, process_client_packet}
use pipistrelle.Persistence.{Sqlite, run_task, run_tasks}
use pipistrelle.Persistence.Promises.{
  Call, sends, acknowledges, state_of, call, after, columns, Promises, Succeed, run_tasks-append,
  Succeed-first, Succeed-rest,
}

module _ {D : Type 0} (sqlite : Sqlite D) (row : Str → ℕ → D → Option (Str × List ℕ × ℕ))
    (promises : Promises sqlite row) (now arc : ℕ) (client_id : Str) where
  -- The client's rows are the messages in flight of its session, at `arc`.
  pub record Mirrors (s : BrokerState) (d : D) : Type 0 where
    pub session : ClientSession
    pub entry : get client_id s.sessions ≡ some arc
    pub there : deref arc s ≡ some session
    pub named : session.client_id ≡ client_id
    pub rows : (k : ℕ) → row client_id k d ≡ columns (NatMap.get k session.in_flight)

  saved :
      (pid : ℕ) (m : Message) (msg : InFlightMessage) (in_flight : NatMap.NatMap InFlightMessage)
      (d : D)
      → Succeed sqlite now (save_in_flight client_id pid m.topic m.payload m.qos ∷ []) d
      → columns (some msg) ≡ some (m.topic, m.payload, m.qos)
      → ((k : ℕ) → row client_id k d ≡ columns (NatMap.get k in_flight))
      → (k : ℕ)
      → row client_id k
          (run_tasks sqlite now (save_in_flight client_id pid m.topic m.payload m.qos ∷ []) d)
        ≡ columns (NatMap.get k (NatMap.insert pid msg in_flight))
  unfolding run_tasks run_task
  saved pid m msg in_flight d ((d', e), u) same h k =
      rw
        (
          e,
          promises.inserted client_id pid m.topic m.payload m.qos d d' e k,
          NatMap.get-insert k pid msg in_flight,
        )
        (elim (Bool-cases (pid == k)) [ inl q ↦ rw q (sym same) | inr q ↦ rw q (h k) ])

  removed :
      (pid : ℕ) (in_flight : NatMap.NatMap InFlightMessage) (d : D)
      → Succeed sqlite now (delete_in_flight client_id pid ∷ []) d
      → ((k : ℕ) → row client_id k d ≡ columns (NatMap.get k in_flight))
      → (k : ℕ)
      → row client_id k (run_tasks sqlite now (delete_in_flight client_id pid ∷ []) d)
        ≡ columns (NatMap.get k (NatMap.remove pid in_flight))
  unfolding run_tasks run_task
  removed pid in_flight d ((d', e), u) h k =
      rw (e, promises.deleted client_id pid d d' e k, NatMap.get-remove k pid in_flight)
        (elim (Bool-cases (pid == k)) [ inl q ↦ rw q refl | inr q ↦ rw q (h k) ])

  -- The tasks that a call spawns.
  abbrev spawned : Call → ClientSession → List Task
  spawned (sends m id) session = (send_publish m id session).1
  spawned (acknowledges pkt) session = delete_in_flight session.client_id pkt.packet_id ∷ []

  sent_rows :
      (m : Message) (id : Option ℕ) (session : ClientSession) (d : D)
      → session.client_id ≡ client_id
      → Succeed sqlite now (send_publish m id session).1 d
      → ((k : ℕ) → row client_id k d ≡ columns (NatMap.get k session.in_flight))
      → ((send_publish m id session).0.client_id ≡ client_id)
        × ((k : ℕ)
            → row client_id k (run_tasks sqlite now (send_publish m id session).1 d)
              ≡ columns (NatMap.get k (send_publish m id session).0.in_flight))
  unfolding send_publish take_packet_id add_in_flight send_packet run_tasks
  sent_rows m id session d named ok h = elim (Bool-cases (ltb 0 m.qos)) [
    | inl e ↦
        let pid = (get_next_packet_id session.next_packet_id).0 in
        let one : Succeed sqlite now (save_in_flight client_id pid m.topic m.payload m.qos ∷ []) d =
          (rw (e, named) at ok) in
        let d' =
          run_tasks sqlite now (save_in_flight client_id pid m.topic m.payload m.qos ∷ []) d in
        let kept : (k : ℕ)
            → row client_id k d' ≡ columns (NatMap.get k (take_packet_id m session).1.in_flight) =
          saved pid m _ session.in_flight d one refl h in
        rw (e, named) (refl, kept)
    | inr e ↦ rw e (named, h)
  ]

  spawned-tasks :
      (c : Call) (s : BrokerState) (d : D) (h : Mirrors s d)
      → (call now arc client_id c s).tasks ≡ s.tasks ++ spawned c h.session
  unfolding send_publish_to_client process_client_packet process process_pub_ack
  spawned-tasks (sends m id) s d h = rw (h.entry, h.there) refl
  spawned-tasks (acknowledges pkt) s d h = rw h.there refl

  run_call :
      (c : Call) (s : BrokerState) (d₀ : D) (h : Mirrors s (run_tasks sqlite now s.tasks d₀))
      → run_tasks sqlite now (call now arc client_id c s).tasks d₀
        ≡ run_tasks sqlite now (spawned c h.session) (run_tasks sqlite now s.tasks d₀)
  run_call c s d₀ h =
      rw (spawned-tasks c s (run_tasks sqlite now s.tasks d₀) h)
        (run_tasks-append sqlite now s.tasks (spawned c h.session) d₀)

  spawned-Succeed :
      (c : Call) (s : BrokerState) (d₀ : D) (h : Mirrors s (run_tasks sqlite now s.tasks d₀))
      → Succeed sqlite now (call now arc client_id c s).tasks d₀
      → Succeed sqlite now (spawned c h.session) (run_tasks sqlite now s.tasks d₀)
  spawned-Succeed c s d₀ h ok =
      Succeed-rest sqlite now s.tasks (spawned c h.session) d₀
        (rw (spawned-tasks c s (run_tasks sqlite now s.tasks d₀) h) at ok)

  -- What a call makes of the client's session.
  abbrev changed : Call → ClientSession → ClientSession
  changed (sends m id) session = (send_publish m id session).0
  changed (acknowledges pkt) session = remove_in_flight pkt.packet_id session

  call-sessions :
      (c : Call) (s : BrokerState) (d : D) (h : Mirrors s d)
      → get client_id (call now arc client_id c s).sessions ≡ some arc
  unfolding send_publish_to_client process_client_packet process process_pub_ack
  call-sessions (sends m id) s d h = rw (h.entry, h.there) h.entry
  call-sessions (acknowledges pkt) s d h = rw h.there h.entry

  call-deref :
      (c : Call) (s : BrokerState) (d : D) (h : Mirrors s d)
      → deref arc (call now arc client_id c s) ≡ some (changed c h.session)
  unfolding send_publish_to_client process_client_packet process process_pub_ack
  call-deref (sends m id) s d h = rw (h.entry, h.there) (get_elem?-modify arc _ s.arcs h.there)
  call-deref (acknowledges pkt) s d h = rw h.there (get_elem?-modify arc _ s.arcs h.there)

  changed_rows :
      (c : Call) (session : ClientSession) (d : D)
      → session.client_id ≡ client_id
      → Succeed sqlite now (spawned c session) d
      → ((k : ℕ) → row client_id k d ≡ columns (NatMap.get k session.in_flight))
      → ((changed c session).client_id ≡ client_id)
        × ((k : ℕ)
            → row client_id k (run_tasks sqlite now (spawned c session) d)
              ≡ columns (NatMap.get k (changed c session).in_flight))
  unfolding remove_in_flight
  changed_rows (sends m id) session d named ok h = sent_rows m id session d named ok h
  changed_rows (acknowledges pkt) session d named ok h =
      (named, rw named (removed pkt.packet_id session.in_flight d (rw named at ok) h))

  call-Mirrors :
      (c : Call) (s : BrokerState) (d₀ : D)
      → Mirrors s (run_tasks sqlite now s.tasks d₀)
      → Succeed sqlite now (call now arc client_id c s).tasks d₀
      → Mirrors
          (call now arc client_id c s)
          (run_tasks sqlite now (call now arc client_id c s).tasks d₀)
  call-Mirrors c s d₀ h ok =
      let d = run_tasks sqlite now s.tasks d₀ in
      let both = changed_rows c h.session d h.named (spawned-Succeed c s d₀ h ok) h.rows in
      record {
        session = changed c h.session;
        entry = call-sessions c s d h;
        there = call-deref c s d h;
        named = both.0;
        rows = rw (run_call c s d₀ h) both.1;
      }

  abbrev Grows : BrokerState → BrokerState → Type 0
  Grows s t = (more : List Task) × (t.tasks ≡ s.tasks ++ more)

  deliver-Grows :
      (m : Message) (id : Option ℕ) (s : BrokerState) (to : Option (ℕ × ClientSession))
      → Grows s (deliver m id s to)
  deliver-Grows m id s none = ([], sym (append-nil s.tasks))
  deliver-Grows m id s (some (at, session)) = ((send_publish m id session).1, refl)

  acknowledged-Grows :
      (pkt : PubAck) (s : BrokerState) (session : Option ClientSession)
      → Grows s (state_of (process_for now arc (pub_ack pkt) s session))
  unfolding process process_pub_ack
  acknowledged-Grows pkt s none = ([], sym (append-nil s.tasks))
  acknowledged-Grows pkt s (some session) =
      (delete_in_flight session.client_id pkt.packet_id ∷ [], refl)

  call-Grows : (c : Call) (s : BrokerState) → Grows s (call now arc client_id c s)
  unfolding send_publish_to_client process_client_packet
  call-Grows (sends m id) s = deliver-Grows m id s (live_session client_id s)
  call-Grows (acknowledges pkt) s = acknowledged-Grows pkt s (deref arc s)

  after-Grows : (calls : List Call) (s : BrokerState) → Grows s (after now arc client_id calls s)
  after-Grows [] s = ([], sym (append-nil s.tasks))
  after-Grows (c ∷ calls) s =
      let (one, e) = call-Grows c s in
      let (more, f) = after-Grows calls (call now arc client_id c s) in
      (one ++ more, f ∙ ap (λ l. l ++ more) e ∙ append_assoc s.tasks one more)

  -- The database keeps SQLite's promises. Where the client's rows are the messages in flight of its session
  -- once the tasks have run, they still are after any calls that send it messages and any acknowledgements
  -- that its connection handles, once all the tasks have run in the order in which they were spawned, as long
  -- as each statement on one message succeeds.
  pub after-Mirrors :
      (calls : List Call) (s : BrokerState) (d₀ : D)
      → Mirrors s (run_tasks sqlite now s.tasks d₀)
      → Succeed sqlite now (after now arc client_id calls s).tasks d₀
      → Mirrors
          (after now arc client_id calls s)
          (run_tasks sqlite now (after now arc client_id calls s).tasks d₀)
  after-Mirrors [] s d₀ h ok = h
  after-Mirrors (c ∷ calls) s d₀ h ok =
      let t = call now arc client_id c s in
      let (more, e) = after-Grows calls t in
      let first : Succeed sqlite now t.tasks d₀ =
        Succeed-first sqlite now t.tasks more d₀ (rw e at ok) in
      after-Mirrors calls t d₀ (call-Mirrors c s d₀ h first) ok
