-- ===== src/Connection/Replies.antt =====
-- What `process_client_packet` of src/main.rs answers.
use pipistrelle.Prelude.{
  ℕ, ◌≡◌, ◌≢◌, refl, ap, Bool, false, Bool-cases, inl, inr, ◌==◌, bit_and, List, [], ◌∷◌, ◌++◌,
  append-nil, length, get_elem?-modify, get_elem?-modify_ne, Option, none, some, if◌then◌else◌,
}
use pipistrelle.Prelude.Text.{Str}
use pipistrelle.PacketLoop.{done}
use pipistrelle.Config.{authorize, read_action, write_action}
use pipistrelle.Codec.Wire.{IsU16, IsVarint}
use pipistrelle.Codec.Packet.{Packet, publish, subscribe, sub_ack, Publish, Subscribe, Subscription}
use pipistrelle.Codec.Properties.SubAck.{no_sub_ack_properties}
use pipistrelle.Codec.Encode.{encode_packet, header_and_payload}
use pipistrelle.Session.State.{ClientSession, BrokerState, send_packet, deref}
use pipistrelle.Session.Deliver.{route_publish}
use pipistrelle.Session.Registry
use pipistrelle.Session.Routed.{deref-route_publish}
use pipistrelle.Connection.Process.{
  not_authorized, or_empty, reply, ack_pkt, reply_ack, acknowledge, message_of, process_publish,
  subscribe_one, subscribe_all, process_subscribe, process, process_client_packet,
}
use pipistrelle.Connection.Answer.{Answers, reply-Answers, ack_pkt-fits}

-- May the session's user do this?
abbrev pub may : Str → ClientSession → Str → BrokerState → Bool
may action session topic s = authorize s.auth (or_empty session.username) topic action

-- The state in which a PUBLISH is answered, and the answer.
abbrev pub routed : (now : ℕ) → ClientSession → Publish → BrokerState → BrokerState
routed now session pkt s =
    if may write_action session pkt.topic s
    then route_publish session.client_id (message_of now pkt) s
    else s

abbrev pub ack_code : ClientSession → Str → BrokerState → ℕ
ack_code session topic s = if may write_action session topic s then 0 else not_authorized

process_publish_lem :
    (now arc : ℕ) (session : ClientSession) (pkt : Publish) (s : BrokerState)
    → process_publish now arc session pkt s
      ≡ acknowledge arc (ack_code session pkt.topic s) pkt (routed now session pkt s)
unfolding process_publish
process_publish_lem now arc session pkt s =
    elim (Bool-cases (may write_action session pkt.topic s)) [
      | inl e ↦ rw e refl
      | inr e ↦ rw e refl
    ]

still_there :
    (now arc : ℕ) (session : ClientSession) (pkt : Publish) (s : BrokerState)
    → deref arc s ≡ some session
    → (session' : ClientSession) × (deref arc (routed now session pkt s) ≡ some session')
still_there now arc session pkt s e = elim (Bool-cases (may write_action session pkt.topic s)) [
  | inl a ↦ rw a (deref-route_publish session.client_id (message_of now pkt) s arc e)
  | inr a ↦ rw a (session, e)
]

-- A PUBLISH with QoS 1 and an identifier is handled, and answered last: the frame put into the sender's
-- channel decodes to the PUBACK of that identifier, with code 0 once the message has been routed, and
-- with 0x87 and nothing routed if the user may not publish on the topic.
pub process_client_packet-publish :
    (now arc pid : ℕ) (session : ClientSession) (pkt : Publish) (s : BrokerState)
    → deref arc s ≡ some session
    → pkt.qos ≡ 1
    → pkt.packet_id ≡ some pid
    → IsU16 pid
    → (t : BrokerState) × (process_client_packet now arc (publish pkt) s ≡ done t)
      × Answers arc (ack_pkt pid (ack_code session pkt.topic s)) (routed now session pkt s) t
unfolding process_client_packet process acknowledge
process_client_packet-publish now arc pid session pkt s e qos id fits =
    let (session', there) = still_there now arc session pkt s e in
    let code = ack_code session pkt.topic s in
    (
      reply arc (ack_pkt pid code) (routed now session pkt s),
      rw (e, process_publish_lem now arc session pkt s, qos, id) refl,
      reply-Answers arc (ack_pkt pid code) (routed now session pkt s) there
          (record {
            packet_id = fits;
            properties = record { reason_string = tt; user_properties = tt };
          })
          (ack_pkt-fits pid code),
    )

-- The reason code of a filter.
abbrev pub reason_code : ClientSession → BrokerState → Subscription → ℕ
reason_code session s sub =
    if may read_action session sub.topic_filter s then bit_and sub.options 0x03 else not_authorized

abbrev pub reason_codes : ClientSession → BrokerState → List Subscription → List ℕ
reason_codes session s [] = []
reason_codes session s (sub ∷ subs) = reason_code session s sub ∷ reason_codes session s subs

-- The subscriptions that the user may make, in order.
abbrev pub allowed : ClientSession → BrokerState → List Subscription → List Subscription
allowed session s [] = []
allowed session s (sub ∷ subs) =
    let rest = allowed session s subs in
    if may read_action session sub.topic_filter s then sub ∷ rest else rest

abbrev pub make_all : Str → Option ℕ → List Subscription → BrokerState → BrokerState
make_all client_id id [] s = s
make_all client_id id (sub ∷ subs) s =
    make_all client_id id subs
      (Registry.subscribe client_id sub.topic_filter (bit_and sub.options 0x03) id s)

subscribe_all_lem :
    (session : ClientSession) (id : Option ℕ) (subs : List Subscription) (s : BrokerState)
    → subscribe_all session id subs s
      ≡ (reason_codes session s subs, make_all session.client_id id (allowed session s subs) s)
unfolding subscribe_all subscribe_one Registry.subscribe
subscribe_all_lem session id [] s = refl
subscribe_all_lem session id (sub ∷ subs) s =
    elim (Bool-cases (may read_action session sub.topic_filter s)) [
      | inl e ↦ rw e (
          ap (λ r. (bit_and sub.options 0x03 ∷ r.0, r.1))
            (subscribe_all_lem session id subs (
              Registry.subscribe session.client_id sub.topic_filter (bit_and sub.options 0x03) id
                s)))
      | inr e ↦ rw e (ap (λ r. (not_authorized ∷ r.0, r.1)) (subscribe_all_lem session id subs s))
    ]

make_all-arcs :
    (client_id : Str) (id : Option ℕ) (subs : List Subscription) (s : BrokerState)
    → (make_all client_id id subs s).arcs ≡ s.arcs
unfolding Registry.subscribe
make_all-arcs client_id id [] s = refl
make_all-arcs client_id id (sub ∷ subs) s = make_all-arcs client_id id subs _

abbrev pub sub_ack_pkt : ℕ → List ℕ → Packet
sub_ack_pkt pid codes =
    sub_ack (record { packet_id = pid; properties = no_sub_ack_properties; reason_codes = codes })

-- A SUBSCRIBE is handled and answered: of its filters just those that the user may read are subscribed
-- to, in their order, and the frame put into the client's channel decodes to a SUBACK with the
-- same identifier and one code for each filter, its QoS where it is subscribed to and else 0x87.
pub process_client_packet-subscribe :
    (now arc : ℕ) (session : ClientSession) (pkt : Subscribe) (s : BrokerState)
    → deref arc s ≡ some session
    → IsU16 pkt.packet_id
    → IsVarint (
        length
          (header_and_payload
            (sub_ack_pkt pkt.packet_id (reason_codes session s pkt.subscriptions))).1)
    → (t : BrokerState) × (process_client_packet now arc (subscribe pkt) s ≡ done t)
      × Answers arc
          (sub_ack_pkt pkt.packet_id (reason_codes session s pkt.subscriptions))
          (make_all session.client_id pkt.properties.subscription_identifier
            (allowed session s pkt.subscriptions)
            s)
          t
unfolding process_client_packet process process_subscribe
process_client_packet-subscribe now arc session pkt s e pid fits =
    let id = pkt.properties.subscription_identifier in
    let packet = sub_ack_pkt pkt.packet_id (reason_codes session s pkt.subscriptions) in
    let made = make_all session.client_id id (allowed session s pkt.subscriptions) s in
    (
      reply arc packet made,
      rw (e, subscribe_all_lem session id pkt.subscriptions s) refl,
      reply-Answers arc packet made {session = session}
          (rw (make_all-arcs session.client_id id (allowed session s pkt.subscriptions) s) e)
          (record {
            packet_id = pid;
            properties = record { reason_string = tt; user_properties = tt };
          })
          fits,
    )

-- `t` is `s` but for frames put into the channel of the session at `arc`.
pub record OnlyAnswers (arc : ℕ) (session : ClientSession) (s t : BrokerState) : Type 0 where
  pub frames : List (List ℕ)
  pub after : deref arc t ≡ some (record session { sender = session.sender ++ frames })
  pub others : (j : ℕ) → j ≢ arc → deref j t ≡ deref j s
  pub rest : t ≡ record s { arcs = t.arcs }

nothing_sent :
    (arc : ℕ) (session : ClientSession) (s : BrokerState)
    → deref arc s ≡ some session
    → OnlyAnswers arc session s s
nothing_sent arc session s e = record {
  frames = [];
  after = rw (append-nil session.sender) e;
  others = λ j ne. refl;
  rest = refl;
}

acknowledge-OnlyAnswers :
    (arc code : ℕ) (session : ClientSession) (pkt : Publish) (s : BrokerState)
    → deref arc s ≡ some session
    → OnlyAnswers arc session s (acknowledge arc code pkt s)
unfolding acknowledge send_packet
acknowledge-OnlyAnswers arc code session pkt s e = elim (Bool-cases (pkt.qos == 1)) [
  | inl q ↦ rw q (acked pkt.packet_id)
  | inr q ↦ rw q (nothing_sent arc session s e)
]
  where
    acked : (id : Option ℕ) → OnlyAnswers arc session s (reply_ack arc code id s)
    acked none = nothing_sent arc session s e
    acked (some pid) = record {
      frames = encode_packet (ack_pkt pid code) [] ∷ [];
      after = get_elem?-modify arc (send_packet (ack_pkt pid code)) s.arcs e;
      others = λ j ne. get_elem?-modify_ne arc j (send_packet (ack_pkt pid code)) s.arcs ne;
      rest = refl;
    }

-- A PUBLISH on a topic on which the user may not publish, whatever its QoS and its identifier, changes
-- nothing but what is in the channel of its own sender: no other session gets a frame, and no message is
-- kept, handed to the bridge, counted or written to the database.
pub process_client_packet-OnlyAnswers :
    (now arc : ℕ) (session : ClientSession) (pkt : Publish) (s : BrokerState)
    → deref arc s ≡ some session
    → may write_action session pkt.topic s ≡ false
    → (t : BrokerState) × (process_client_packet now arc (publish pkt) s ≡ done t)
      × OnlyAnswers arc session s t
unfolding process_client_packet process
process_client_packet-OnlyAnswers now arc session pkt s e refuses = (
  acknowledge arc not_authorized pkt s,
  rw (e, process_publish_lem now arc session pkt s, refuses) refl,
  acknowledge-OnlyAnswers arc not_authorized session pkt s e,
)
