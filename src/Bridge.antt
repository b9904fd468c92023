-- ===== src/Bridge.antt =====
-- The bridge to a remote broker: src/bridge.rs.
pub mod Queue
pub mod Forwarding
mod Tests
use pipistrelle.Prelude.{
  ℕ, suc, ◌+◌, ◌*◌, Bool, true, false, ◌&&◌, ◌==◌, List, [], ◌∷◌, ◌++◌, Option, none, some, drop,
  get_elem?, ltb, if◌then◌else◌,
}
use pipistrelle.Prelude.Text.{Str}
use pipistrelle.PacketLoop.{Handled, done, Drained, waiting, failed, panicked, spent, drain}
use pipistrelle.Codec.Outcome.{Result, ok, err, panic, stuck}
use pipistrelle.Codec.Packet.{
  Packet, connect, conn_ack, publish, pub_ack, subscribe, sub_ack, ping_req, ping_resp, disconnect,
  Publish,
}
use pipistrelle.Codec.Properties.Connect.{no_connect_properties}
use pipistrelle.Codec.Properties.Subscribe.{no_subscribe_properties}
use pipistrelle.Codec.Properties.Publish.{no_publish_properties}
use pipistrelle.Codec.Decode.{decode_packet}
use pipistrelle.Codec.Encode.{encode_packet}
use pipistrelle.Session.State.{BrokerState}
use pipistrelle.Session.Deliver.{Message, bridge_client, route_publish}
use pipistrelle.Connection.Process.{message_of}

-- The broker, how many messages `local_rx` has taken from the channel that the broker fills, the bytes read
-- and not yet taken, and the frames written to the remote broker, each in full.
pub record Bridge : Type 0 where
  pub broker : BrokerState
  pub taken : ℕ
  pub read_buf : List ℕ
  pub written : List (List ℕ)

pub data Ran : Type 0 where
  running : Bridge → Ran
  stopped : Bridge → Ran
  crashed : Bridge → Ran

-- `tx` and its place in the broker's state.
unfoldable pub start_bridge_engine : BrokerState → Bridge
start_bridge_engine state = record {
  broker = record state { bridge_sender = some [] };
  taken = 0;
  read_buf = [];
  written = [];
}

-- The seconds to wait before the next attempt, after an error and after a clean end.
unfoldable pub retry_after : (is_err : Bool) → (backoff : ℕ) → ℕ × ℕ
retry_after true backoff = (backoff + 5, if ltb 60 (backoff * 2) then 60 else backoff * 2)
retry_after false backoff = (5, 5)

abbrev pub bridge_id : Str
bridge_id =
    b'p' ∷ b'i' ∷ b'p' ∷ b'i' ∷ b's' ∷ b't' ∷ b'r' ∷ b'e' ∷ b'l' ∷ b'l' ∷ b'e' ∷ b'_'
    ∷ bridge_client

abbrev pub some_unless_empty : Str → Option Str
some_unless_empty [] = none
some_unless_empty (c ∷ s) = some (c ∷ s)

abbrev pub connect_pkt : (user pass : Str) → Packet
connect_pkt user pass = connect (record {
  client_id = bridge_id;
  keep_alive = 60;
  clean_start = true;
  username = some_unless_empty user;
  password = some_unless_empty pass;
  properties = no_connect_properties;
})

-- `alerts/#`
abbrev pub remote_sub_filter : Str
remote_sub_filter = b'a' ∷ b'l' ∷ b'e' ∷ b'r' ∷ b't' ∷ b's' ∷ b'/' ∷ b'#' ∷ []

abbrev pub subscribe_pkt : Packet
subscribe_pkt = subscribe (record {
  packet_id = 1;
  properties = no_subscribe_properties;
  subscriptions = record { topic_filter = remote_sub_filter; options = 0 } ∷ [];
})

abbrev write : Packet → Bridge → Bridge
write packet bridge = record bridge { written = bridge.written ++ encode_packet packet [] ∷ [] }

-- `match decode_packet(&read_buf)` for the CONNACK, and the SUBSCRIBE that follows it.
abbrev pub on_conn_ack : Bridge → Result (Packet × ℕ) → Ran
on_conn_ack bridge (ok (conn_ack connack, bytes_read)) =
    if connack.reason_code == 0
    then running
        (write subscribe_pkt (record bridge { read_buf = drop bytes_read bridge.read_buf }))
    else stopped bridge
on_conn_ack bridge (ok (connect pkt, bytes_read)) = stopped bridge
on_conn_ack bridge (ok (publish pkt, bytes_read)) = stopped bridge
on_conn_ack bridge (ok (pub_ack pkt, bytes_read)) = stopped bridge
on_conn_ack bridge (ok (subscribe pkt, bytes_read)) = stopped bridge
on_conn_ack bridge (ok (sub_ack pkt, bytes_read)) = stopped bridge
on_conn_ack bridge (ok (ping_req, bytes_read)) = stopped bridge
on_conn_ack bridge (ok (ping_resp, bytes_read)) = stopped bridge
on_conn_ack bridge (ok (disconnect pkt, bytes_read)) = stopped bridge
on_conn_ack bridge (err e) = stopped bridge
on_conn_ack bridge panic = crashed bridge
on_conn_ack bridge stuck = crashed bridge

-- 3. to 5. of `connect_and_run_bridge`, on a new stream; `[]` stands for a first read that fails, ends or
-- takes too long. The two writes succeed: one that fails ends the call as a refused CONNACK does.
unfoldable pub open_bridge : (user pass : Str) → List ℕ → Bridge → Ran
open_bridge user pass [] bridge =
    stopped
      (record bridge { read_buf = []; written = encode_packet (connect_pkt user pass) [] ∷ [] })
open_bridge user pass (b ∷ bytes) bridge =
    on_conn_ack
      (record bridge {
        read_buf = b ∷ bytes;
        written = encode_packet (connect_pkt user pass) [] ∷ [];
      })
      (decode_packet (b ∷ bytes))

-- One packet of the remote broker.
unfoldable pub handle_remote : (now : ℕ) → Packet → BrokerState → Handled BrokerState
handle_remote now (publish pkt) state =
    done (route_publish bridge_client (message_of now pkt) state)
handle_remote now ping_resp state = done state
handle_remote now (sub_ack pkt) state = done state
handle_remote now (connect pkt) state = done state
handle_remote now (conn_ack pkt) state = done state
handle_remote now (pub_ack pkt) state = done state
handle_remote now (subscribe pkt) state = done state
handle_remote now ping_req state = done state
handle_remote now (disconnect pkt) state = done state

abbrev pub with_drained : Bridge → Drained BrokerState → Ran
with_drained bridge (waiting rest state) =
    running (record bridge { broker = state; read_buf = rest })
with_drained bridge (failed state) = stopped (record bridge { broker = state })
with_drained bridge (panicked state) = crashed (record bridge { broker = state })
with_drained bridge (spent state) = crashed (record bridge { broker = state })

-- `sensor/`
abbrev pub local_pub_pattern : Str
local_pub_pattern = b's' ∷ b'e' ∷ b'n' ∷ b's' ∷ b'o' ∷ b'r' ∷ b'/' ∷ []

abbrev pub starts_with : (prefix s : Str) → Bool
starts_with [] s = true
starts_with (p ∷ prefix) [] = false
starts_with (p ∷ prefix) (c ∷ s) = p == c && starts_with prefix s

abbrev pub local_pkt : Str → List ℕ → Packet
local_pkt topic payload = publish (record {
  dup = false;
  qos = 0;
  retain = false;
  topic = topic;
  packet_id = none;
  properties = no_publish_properties;
  payload = payload;
})

-- `write_all` and `flush`, each with `?`.
abbrev pub try_write : (is_ok : Bool) → Packet → Bridge → Ran
try_write true packet bridge = running (write packet bridge)
try_write false packet bridge = stopped bridge

unfoldable pub forward_local : (is_ok : Bool) → Str × List ℕ → Bridge → Ran
forward_local is_ok (topic, payload) bridge =
    if starts_with local_pub_pattern topic
    then try_write is_ok (local_pkt topic payload) bridge
    else running bridge

-- `local_rx.recv()`; the broker keeps the sender, so that the channel does not close.
abbrev pub recv : ℕ → Option (List (Str × List ℕ)) → Option (Str × List ℕ)
recv taken none = none
recv taken (some sent) = get_elem? sent taken

abbrev pub on_local : (is_ok : Bool) → Bridge → Option (Str × List ℕ) → Ran
on_local is_ok bridge none = running bridge
on_local is_ok bridge (some msg) =
    forward_local is_ok msg (record bridge { taken = suc bridge.taken })

-- What a round of the `select!` takes up; a read of no bytes is the end of the stream. `is_ok`: does the
-- write succeed? In `elsewhere` another of the broker's tasks routes a message.
pub data Event : Type 0 where
  remote : (now : ℕ) → List ℕ → Event
  remote_error : Event
  local ping : (is_ok : Bool) → Event
  elsewhere : Str → Message → Event

unfoldable pub on_event : Event → Bridge → Ran
on_event (remote now []) bridge = stopped bridge
on_event (remote now (b ∷ bytes)) bridge =
    with_drained bridge (drain (handle_remote now) (bridge.read_buf ++ b ∷ bytes) bridge.broker)
on_event remote_error bridge = stopped bridge
on_event (local is_ok) bridge =
    on_local is_ok bridge (recv bridge.taken bridge.broker.bridge_sender)
on_event (ping is_ok) bridge = try_write is_ok ping_req bridge
on_event (elsewhere client_id m) bridge =
    running (record bridge { broker = route_publish client_id m bridge.broker })

abbrev pub and_then : (Bridge → Ran) → Ran → Ran
and_then next (running bridge) = next bridge
and_then next (stopped bridge) = stopped bridge
and_then next (crashed bridge) = crashed bridge

-- 8. The main loop.
unfoldable pub run_bridge : List Event → Bridge → Ran
run_bridge [] bridge = running bridge
run_bridge (e ∷ events) bridge = and_then (run_bridge events) (on_event e bridge)
