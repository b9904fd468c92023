-- ===== src/Session/Invariant.antt =====
-- What holds of `BrokerState` of src/session.rs between two calls.
use pipistrelle.Prelude.{
  ℕ, zero, suc, ◌≤◌, ◌<◌, ◌≡◌, refl, ◌∙◌, ap, arith, Bool, Bool-cases, inl, inr, List, [], ◌∷◌,
  ◌++◌, All, All-modify, All-append, All-map, length, modify, Option, none, some, ltb,
}
use pipistrelle.Prelude.Text.{Str}
use pipistrelle.Prelude.NatMap
use pipistrelle.Prelude.NatMap.{NatMap}
use pipistrelle.Router.Maps.{insert, All-insert}
use pipistrelle.Codec.Packet.{Packet}
use pipistrelle.Session.PacketId.{get_next_packet_id, get_next_packet_id_bounds}
use pipistrelle.Session.State.{
  InFlightMessage, ClientSession, BrokerState, new_session, new_broker, update_activity,
  add_in_flight, remove_in_flight, send_packet, on_session,
}
use pipistrelle.Session.Deliver.{Message, take_packet_id, send_publish}

-- A message waits under its own identifier, which is not 0 and fits 16 bits.
abbrev pub IsWaiting : ℕ × InFlightMessage → Type 0
IsWaiting (pid, msg) = (1 ≤ pid) × (pid < 65536) × (msg.packet_id ≡ pid)

pub record IsSession (session : ClientSession) : Type 0 where
  pub next_packet_id : session.next_packet_id < 65536
  pub in_flight : All IsWaiting session.in_flight

-- The client at an index.
abbrev pub client_at : List ClientSession → ℕ → Option Str
client_at [] i = none
client_at (session ∷ arcs) zero = some session.client_id
client_at (session ∷ arcs) (suc i) = client_at arcs i

-- An entry of `sessions` leads to a session of the client that it is for.
abbrev pub IsEntry : List ClientSession → Str × ℕ → Type 0
IsEntry arcs (client_id, arc) = client_at arcs arc ≡ some client_id

pub record IsValid (state : BrokerState) : Type 0 where
  pub arcs : All IsSession state.arcs
  pub sessions : All (IsEntry state.arcs) state.sessions

pub new_session-IsSession :
    (now : ℕ) (client_id : Str) (username : Option Str) (clean_start : Bool) (keep_alive expiry : ℕ)
    → IsSession (new_session now client_id username clean_start keep_alive expiry)
unfolding new_session
new_session-IsSession now client_id username clean_start keep_alive expiry = record {
  next_packet_id = omega arith;
  in_flight = tt;
}

pub new_broker-IsValid : (auth : _) → IsValid (new_broker auth)
unfolding new_broker
new_broker-IsValid auth = record { arcs = tt; sessions = tt }

-- A method that keeps the session well-formed and whose it is.
pub record Keeps (f : ClientSession → ClientSession) : Type 0 where
  pub valid : (s : ClientSession) → IsSession s → IsSession (f s)
  pub client : (s : ClientSession) → (f s).client_id ≡ s.client_id

pub update_activity-Keeps : (now : ℕ) → Keeps (update_activity now)
update_activity-Keeps now = record {
  valid = λ s h. record { next_packet_id = h.next_packet_id; in_flight = h.in_flight };
  client = λ s. refl;
}

pub send_packet-Keeps : (packet : Packet) → Keeps (send_packet packet)
unfolding send_packet
send_packet-Keeps packet = record {
  valid = λ s h. record { next_packet_id = h.next_packet_id; in_flight = h.in_flight };
  client = λ s. refl;
}

pub remove_in_flight-Keeps : (pid : ℕ) → Keeps (remove_in_flight pid)
unfolding remove_in_flight
remove_in_flight-Keeps pid = record {
  valid = λ s h. record {
    next_packet_id = h.next_packet_id;
    in_flight = NatMap.All-remove IsWaiting pid s.in_flight h.in_flight;
  };
  client = λ s. refl;
}

pub add_in_flight-Keeps :
    (now pid : ℕ) (topic : Str) (payload : List ℕ) (qos : ℕ)
    → 1 ≤ pid
    → pid < 65536
    → Keeps (add_in_flight now pid topic payload qos)
unfolding add_in_flight
add_in_flight-Keeps now pid topic payload qos lo hi = record {
  valid = λ s h. record {
    next_packet_id = h.next_packet_id;
    in_flight = NatMap.All-insert IsWaiting pid _ s.in_flight h.in_flight (lo, hi, refl);
  };
  client = λ s. refl;
}

take_packet_id-IsSession :
    (m : Message) (s : ClientSession) → IsSession s → IsSession (take_packet_id m s).1
unfolding take_packet_id
take_packet_id-IsSession m s h =
    let (lo, hi, next) = get_next_packet_id_bounds s.next_packet_id h.next_packet_id in
    (add_in_flight-Keeps m.now (get_next_packet_id s.next_packet_id).0 m.topic m.payload m.qos lo
        hi).valid
      (record s { next_packet_id = (get_next_packet_id s.next_packet_id).1 })
      (record { next_packet_id = next; in_flight = h.in_flight })

take_packet_id-client :
    (m : Message) (s : ClientSession) → (take_packet_id m s).1.client_id ≡ s.client_id
unfolding take_packet_id add_in_flight
take_packet_id-client m s = refl

pub send_publish-Keeps : (m : Message) (id : Option ℕ) → Keeps (λ s. (send_publish m id s).0)
unfolding send_publish
send_publish-Keeps m id = record {
  valid = λ s h. elim (Bool-cases (ltb 0 m.qos)) [
    | inl e ↦ rw e ((send_packet-Keeps _).valid _ (take_packet_id-IsSession m s h))
    | inr e ↦ rw e ((send_packet-Keeps _).valid s h)
  ];
  client = λ s. elim (Bool-cases (ltb 0 m.qos)) [
    | inl e ↦ rw e ((send_packet-Keeps _).client (take_packet_id m s).1 ∙ take_packet_id-client m s)
    | inr e ↦ rw e ((send_packet-Keeps _).client s)
  ];
}

client_at-modify :
    (f : ClientSession → ClientSession) (i j : ℕ) (arcs : List ClientSession)
    → Keeps f
    → client_at (modify i f arcs) j ≡ client_at arcs j
client_at-modify f i j [] k = refl
client_at-modify f zero zero (s ∷ arcs) k = ap some (k.client s)
client_at-modify f zero (suc j) (s ∷ arcs) k = refl
client_at-modify f (suc i) zero (s ∷ arcs) k = refl
client_at-modify f (suc i) (suc j) (s ∷ arcs) k = client_at-modify f i j arcs k

-- A method of a session keeps the broker's state well-formed.
pub on_session-IsValid :
    {f : ClientSession → ClientSession} (arc : ℕ) (state : BrokerState)
    → Keeps f
    → IsValid state
    → IsValid (on_session arc f state)
on_session-IsValid {f} arc state k h = record {
  arcs = All-modify IsSession arc f state.arcs k.valid h.arcs;
  sessions =
      All-map (IsEntry state.arcs) (IsEntry (modify arc f state.arcs)) state.sessions
        (λ (c, i) e. client_at-modify f arc i state.arcs k ∙ e) h.sessions;
}

client_at-append :
    (arcs more : List ClientSession) (i : ℕ) {c : Str}
    → client_at arcs i ≡ some c
    → client_at (arcs ++ more) i ≡ some c
client_at-append [] more i e = cc
client_at-append (s ∷ arcs) more zero e = e
client_at-append (s ∷ arcs) more (suc i) e = client_at-append arcs more i e

pub client_at-new :
    (arcs : List ClientSession) (s : ClientSession)
    → client_at (arcs ++ s ∷ []) (length arcs) ≡ some s.client_id
client_at-new [] s = refl
client_at-new (x ∷ arcs) s = client_at-new arcs s

-- A new session may be entered for its client.
pub new_arc-IsValid :
    (s : ClientSession) (state : BrokerState)
    → IsSession s
    → IsValid state
    → IsValid (record state {
      arcs = state.arcs ++ s ∷ [];
      sessions = insert s.client_id (length state.arcs) state.sessions;
    })
new_arc-IsValid s state hs h = record {
  arcs = All-append IsSession state.arcs (s ∷ []) h.arcs (hs, tt);
  sessions =
      All-insert (IsEntry (state.arcs ++ s ∷ [])) s.client_id (length state.arcs) state.sessions
        (All-map (IsEntry state.arcs) (IsEntry (state.arcs ++ s ∷ [])) state.sessions
          (λ (c, i) e. client_at-append state.arcs (s ∷ []) i e) h.sessions)
        (client_at-new state.arcs s);
}

-- What is not of the sessions may change.
pub IsValid-same :
    {s t : BrokerState} → t.arcs ≡ s.arcs → t.sessions ≡ s.sessions → IsValid s → IsValid t
IsValid-same a e h = record { arcs = rw a h.arcs; sessions = rw (a, e) h.sessions }
