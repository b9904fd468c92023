-- ===== src/Persistence/Tests.antt =====
-- A table in memory for src/persistence.rs, and the theorem at it.
use pipistrelle.Persistence.Promises.{Call, sends, acknowledges, after, Promises}
use pipistrelle.Persistence.Mirrors.{Mirrors, after-Mirrors}
use pipistrelle.Router.Maps.{get}
use pipistrelle.Router.Trie.{default_node}
use pipistrelle.Connection.Process.{process_pub_ack, process, process_client_packet}
use pipistrelle.Prelude.{
  ◌≡◌, ℕ, refl, false, ◌&&◌, ◌==◌, List, [], ◌∷◌, Option, none, some, if◌then◌else◌,
}
use pipistrelle.Prelude.Text.{Str, bytes_eq, bytes_eq_refl}
use pipistrelle.Prelude.NatMap
use pipistrelle.Session.State.{
  BrokerState, new_session, add_in_flight, send_packet, remove_in_flight,
}
use pipistrelle.Session.Deliver.{Message, take_packet_id, send_publish, send_publish_to_client}
use pipistrelle.Persistence.{Sqlite, run_task, run_tasks}

abbrev Table : Type 0
Table = Str → ℕ → Option (Str × List ℕ × ℕ)

abbrev put : Str → ℕ → Option (Str × List ℕ × ℕ) → Table → Table
put client_id pid row table = λ c k. if bytes_eq client_id c && pid == k then row else table c k

abbrev in_memory : Sqlite Table
in_memory = record {
  insert_session = λ client_id username clean_start_int expiry now table. some table;
  insert_subscription = λ client_id topic_filter qos sub_id table. some table;
  insert_in_flight = λ client_id pid topic payload qos table.
      some (put client_id pid (some (topic, payload, qos)) table);
  delete_from_sessions = λ client_id table. some table;
  delete_from_subscriptions = λ client_id table. some table;
  delete_from_in_flight =
      λ client_id table. some (λ c k. if bytes_eq client_id c then none else table c k);
  delete_one_subscription = λ client_id topic_filter table. some table;
  delete_one_in_flight = λ client_id pid table. some (put client_id pid none table);
  select_sessions = λ table. some [];
  select_subscriptions = λ table. some [];
  select_in_flight = λ table. none;
}

abbrev row_of : Str → ℕ → Table → Option (Str × List ℕ × ℕ)
row_of client_id pid table = table client_id pid

same_table : {t u : Table} → some t ≡ some u → t ≡ u
same_table e = cc

in_memory-Promises : Promises in_memory row_of
in_memory-Promises = record {
  inserted =
      λ client_id pid topic payload qos d d' e k. rw (← same_table e, bytes_eq_refl client_id) refl;
  deleted = λ client_id pid d d' e k. rw (← same_table e, bytes_eq_refl client_id) refl;
}

abbrev news : Message
news = record { now = 2; topic = b't' ∷ []; payload = 1 ∷ []; qos = 1; retain = false }

abbrev client_c : Str
client_c = b'c' ∷ []

abbrev broker_c : BrokerState
broker_c = record {
  router = default_node;
  arcs = new_session 0 client_c none false 60 100 ∷ [];
  sessions = (client_c, 0) ∷ [];
  auth = record { users = none };
  tasks = [];
  shared_group_counters = [];
  metrics_messages_published = 0;
  metrics_subscriptions = 0;
  bridge_sender = none;
}

-- Two messages, and the acknowledgement of the first.
abbrev two_sent : List Call
two_sent =
    sends news none
    ∷ sends news none
    ∷ acknowledges (record {
      packet_id = 1;
      reason_code = 0;
      properties = record { reason_string = none; user_properties = [] };
    })
    ∷ []

after-Mirrors_example :
    Mirrors in_memory row_of in_memory-Promises 3 0 client_c
      (after 3 0 client_c two_sent broker_c)
      (run_tasks in_memory 3 (after 3 0 client_c two_sent broker_c).tasks (λ c k. none))
unfolding new_session get NatMap.get send_publish_to_client send_publish take_packet_id
    add_in_flight send_packet remove_in_flight process_client_packet process process_pub_ack
    run_tasks run_task
after-Mirrors_example =
    after-Mirrors in_memory row_of in_memory-Promises 3 0 client_c two_sent broker_c (λ c k. none)
      (record {
        session = new_session 0 client_c none false 60 100;
        entry = refl;
        there = refl;
        named = refl;
        rows = λ k. refl;
      })
      ((_, refl), ((_, refl), ((_, refl), tt)))
