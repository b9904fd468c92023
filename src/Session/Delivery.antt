-- ===== src/Session/Delivery.antt =====
-- What `send_publish_to_client` of src/session.rs puts into a session's channel.
use pipistrelle.Prelude.{
  ◌^◌, ℕ, ◌≤◌, ◌<◌, ◌≡◌, ◌≢◌, refl, sym, arith, Bool-cases, inl, inr, List, [], ◌∷◌, ◌++◌,
  append-nil, All-get_elem?, get_elem?-modify, get_elem?-modify_ne, length, Option, none, some,
  OnSome, ltb,
}
use pipistrelle.Prelude.Text.{Str}
use pipistrelle.Prelude.NatMap
use pipistrelle.Router.Maps.{get}
use pipistrelle.Codec.Outcome.{ok}
use pipistrelle.Codec.Wire.{IsStr, IsVarint}
use pipistrelle.Codec.Packet.{Packet}
use pipistrelle.Codec.Decode.{decode_packet}
use pipistrelle.Codec.Encode.{is_some, encode_packet, header_and_payload}
use pipistrelle.Codec.RoundTrip.Valid.{IsPacket}
use pipistrelle.Codec.RoundTrip.Frame.{decode_packet-encode_packet}
use pipistrelle.Session.PacketId.{get_next_packet_id, get_next_packet_id_bounds}
use pipistrelle.Session.State.{
  InFlightMessage, ClientSession, BrokerState, add_in_flight, send_packet, deref,
}
use pipistrelle.Session.Deliver.{
  Message, publish_pkt, take_packet_id, send_publish, follow, with_arc, live_session,
  send_publish_to_client,
}
use pipistrelle.Session.Invariant.{IsSession, IsValid}

-- A message that a PUBLISH with the subscription's identifier can carry.
pub record CanCarry (m : Message) (id : Option ℕ) : Type 0 where
  pub qos : m.qos ≤ 2
  pub topic : IsStr m.topic
  pub identifier : OnSome IsVarint id
  pub fits : (pid : Option ℕ) → IsVarint (length (header_and_payload (publish_pkt m pid id)).1)

abbrev pub in_flight_message : Message → ℕ → InFlightMessage
in_flight_message m pid = record {
  packet_id = pid;
  topic = m.topic;
  payload = m.payload;
  qos = m.qos;
  sent_at = m.now;
}

-- With an identifier the message waits under it; without one nothing is kept.
abbrev pub Kept : Message → ClientSession → ClientSession → Option ℕ → Type 0
Kept m s t none = t.in_flight ≡ s.in_flight
Kept m s t (some pid) =
    (1 ≤ pid) × (t.in_flight ≡ NatMap.insert pid (in_flight_message m pid) s.in_flight)

-- `t` is `s` with one frame more in its channel, which decodes to the message, under an identifier if
-- and only if its QoS is not 0.
pub record HasSent (m : Message) (id : Option ℕ) (s t : ClientSession) : Type 0 where
  pub packet_id : Option ℕ
  pub frame : List ℕ
  pub sender : t.sender ≡ s.sender ++ frame ∷ []
  pub reads : decode_packet frame ≡ ok (publish_pkt m packet_id id, length frame)
  pub identified : is_some packet_id ≡ ltb 0 m.qos
  pub kept : Kept m s t packet_id

carried :
    (m : Message) (id pid : Option ℕ)
    → CanCarry m id
    → OnSome (λ p. p < 65536) pid
    → is_some pid ≡ ltb 0 m.qos
    → IsPacket (publish_pkt m pid id)
carried m id pid c small has = record {
  qos = c.qos;
  topic = c.topic;
  packet_id = id_fits pid small;
  has_id = has;
  properties = record {
    message_expiry_interval = tt;
    content_type = tt;
    response_topic = tt;
    correlation_data = tt;
    subscription_identifier = c.identifier;
    topic_alias = tt;
    user_properties = tt;
  };
}
  where
    id_fits : (o : Option ℕ) → OnSome (λ p. p < 65536) o → OnSome (λ p. p < 2 ^ 16) o
    id_fits none h = tt
    id_fits (some p) h = omega arith

-- The frame of a packet that can be written in full.
pub frame_reads :
    (p : Packet)
    → IsPacket p
    → IsVarint (length (header_and_payload p).1)
    → decode_packet (encode_packet p []) ≡ ok (p, length (encode_packet p []))
frame_reads p h fits =
    rw (append-nil (encode_packet p [])) at (decode_packet-encode_packet p [] h fits)

send_publish-HasSent :
    (m : Message) (id : Option ℕ) (s : ClientSession)
    → IsSession s
    → CanCarry m id
    → HasSent m id s (send_publish m id s).0
unfolding send_publish take_packet_id add_in_flight send_packet
send_publish-HasSent m id s h c = elim (Bool-cases (ltb 0 m.qos)) [
  | inl e ↦
      let (lo, hi, next) = get_next_packet_id_bounds s.next_packet_id h.next_packet_id in
      let pid = (get_next_packet_id s.next_packet_id).0 in
      rw e (record {
        packet_id = some pid;
        frame = encode_packet (publish_pkt m (some pid) id) [];
        sender = refl;
        reads = frame_reads _ (carried m id (some pid) c hi (sym e)) (c.fits (some pid));
        identified = sym e;
        kept = (lo, refl);
      })
  | inr e ↦ rw e (record {
    packet_id = none;
    frame = encode_packet (publish_pkt m none id) [];
    sender = refl;
    reads = frame_reads _ (carried m id none c tt (sym e)) (c.fits none);
    identified = sym e;
    kept = refl;
  })
]

followed :
    (state : BrokerState) (entry : Option ℕ) (arc : ℕ) (s : ClientSession)
    → follow state entry ≡ some (arc, s)
    → deref arc state ≡ some s
followed state none arc s e = cc
followed state (some i) arc s e = behind (deref i state) refl e
  where
    behind :
        (o : Option ClientSession)
        → deref i state ≡ o
        → with_arc i o ≡ some (arc, s)
        → deref arc state ≡ some s
    behind none p q = cc
    behind (some x) p q =
        let same : i ≡ arc = cc in let x_is_s : x ≡ s = cc in rw (← same, ← x_is_s) p

-- A message for a client that has a session is put into its channel once, as a frame that decodes to it
-- with the subscription's identifier; with QoS 1 or 2 it has an identifier under which it is kept. No
-- other session changes.
pub send_publish_to_client-HasSent :
    (m : Message) (client_id : Str) (id : Option ℕ) (state : BrokerState) (arc : ℕ)
    (s : ClientSession)
    → IsValid state
    → CanCarry m id
    → live_session client_id state ≡ some (arc, s)
    → (t : ClientSession) × (deref arc (send_publish_to_client m client_id id state) ≡ some t)
      × HasSent m id s t
      × ((j : ℕ) → j ≢ arc → deref j (send_publish_to_client m client_id id state) ≡ deref j state)
unfolding send_publish_to_client
send_publish_to_client-HasSent m client_id id state arc s h c live =
    let at_arc = followed state (get client_id state.sessions) arc s live in
    (
      (send_publish m id s).0,
      rw live (get_elem?-modify arc (λ s. (send_publish m id s).0) state.arcs at_arc),
      send_publish-HasSent m id s (All-get_elem? IsSession arc state.arcs h.arcs at_arc) c,
      λ j ne. rw live (get_elem?-modify_ne arc j (λ s. (send_publish m id s).0) state.arcs ne),
    )
