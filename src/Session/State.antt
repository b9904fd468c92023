-- ===== src/Session/State.antt =====
-- `ClientSession` and `BrokerState` of src/session.rs, and what they hold.
use pipistrelle.Prelude.{ℕ, Bool, List, [], ◌∷◌, ◌++◌, Option, none, modify, get_elem?}
use pipistrelle.Prelude.Text.{Str}
use pipistrelle.Prelude.NatMap
use pipistrelle.Prelude.NatMap.{NatMap}
use pipistrelle.Router.Maps.{HashMap}
use pipistrelle.Router.Trie.{TrieNode, default_node}
use pipistrelle.Config.{AuthConfig}
use pipistrelle.Codec.Packet.{Packet}
use pipistrelle.Codec.Encode.{encode_packet}

pub record InFlightMessage : Type 0 where
  pub packet_id : ℕ
  pub topic : Str
  pub payload : List ℕ
  pub qos : ℕ
  pub sent_at : ℕ

-- `sender` is what has been handed to the channel, in order; the code ignores whether that fails.
-- An `Instant` is a number.
pub record ClientSession : Type 0 where
  pub client_id : Str
  pub username : Option Str
  pub clean_start : Bool
  pub keep_alive : ℕ
  pub session_expiry_interval : ℕ
  pub last_activity : ℕ
  pub sender : List (List ℕ)
  pub topic_aliases : NatMap Str
  pub next_packet_id : ℕ
  pub in_flight : NatMap InFlightMessage

-- A call of the database that `tokio::spawn` has taken over.
pub data Task : Type 0 where
  save_session : Str → Option Str → Bool → ℕ → Task
  delete_session : Str → Task
  save_subscription : Str → Str → ℕ → Option ℕ → Task
  delete_subscription : Str → Str → Task
  save_in_flight : Str → ℕ → Str → List ℕ → ℕ → Task
  delete_in_flight : Str → ℕ → Task

-- An `Arc<ClientSession>` is an index in `arcs`, where every session made so far stands. `tasks` are
-- the calls of `db`, in the order in which they were spawned, and `bridge_sender` is what has been
-- handed to the bridge's channel, if there is one.
pub record BrokerState : Type 0 where
  pub router : TrieNode
  pub arcs : List ClientSession
  pub sessions : HashMap ℕ
  pub auth : AuthConfig
  pub tasks : List Task
  pub shared_group_counters : HashMap ℕ
  pub metrics_messages_published : ℕ
  pub metrics_subscriptions : ℕ
  pub bridge_sender : Option (List (Str × List ℕ))

unfoldable pub new_session :
    (now : ℕ) (client_id : Str) (username : Option Str) (clean_start : Bool) (keep_alive : ℕ)
    (session_expiry_interval : ℕ)
    → ClientSession
new_session now client_id username clean_start keep_alive session_expiry_interval = record {
  client_id = client_id;
  username = username;
  clean_start = clean_start;
  keep_alive = keep_alive;
  session_expiry_interval = session_expiry_interval;
  last_activity = now;
  sender = [];
  topic_aliases = [];
  next_packet_id = 1;
  in_flight = [];
}

unfoldable pub new_broker : AuthConfig → BrokerState
new_broker auth = record {
  router = default_node;
  arcs = [];
  sessions = [];
  auth = auth;
  tasks = [];
  shared_group_counters = [];
  metrics_messages_published = 0;
  metrics_subscriptions = 0;
  bridge_sender = none;
}

abbrev pub update_activity : (now : ℕ) → ClientSession → ClientSession
update_activity now session = record session { last_activity = now }

unfoldable pub add_in_flight :
    (now packet_id : ℕ) (topic : Str) (payload : List ℕ) (qos : ℕ) → ClientSession → ClientSession
add_in_flight now packet_id topic payload qos session =
    let msg : InFlightMessage = record {
      packet_id = packet_id;
      topic = topic;
      payload = payload;
      qos = qos;
      sent_at = now;
    } in
    record session { in_flight = NatMap.insert packet_id msg session.in_flight }

unfoldable pub remove_in_flight : (packet_id : ℕ) → ClientSession → ClientSession
remove_in_flight packet_id session = record session {
  in_flight = NatMap.remove packet_id session.in_flight;
}

-- `encode_packet(&packet, &mut buf)` and `session.sender.send(buf)`
unfoldable pub send_packet : Packet → ClientSession → ClientSession
send_packet packet session = record session {
  sender = session.sender ++ encode_packet packet [] ∷ [];
}

-- A method of the session behind an `Arc`.
abbrev pub on_session : ℕ → (ClientSession → ClientSession) → BrokerState → BrokerState
on_session arc f state = record state { arcs = modify arc f state.arcs }

abbrev pub spawn : Task → BrokerState → BrokerState
spawn task state = record state { tasks = state.tasks ++ task ∷ [] }

abbrev pub deref : ℕ → BrokerState → Option ClientSession
deref arc state = get_elem? state.arcs arc
