-- ===== src/Connection/Handshake.antt =====
-- The first packet of a connection, up to the CONNACK, in `handle_connection` of src/main.rs.
use pipistrelle.Prelude.{ℕ, Bool, false, List, [], ◌∷◌, Option, none, some, drop, if◌then◌else◌}
use pipistrelle.Prelude.Text.{Str}
use pipistrelle.Config.{AuthConfig, authenticate}
use pipistrelle.Codec.Outcome.{Result, ok, err, panic, stuck}
use pipistrelle.Codec.Decode.{decode_packet}
use pipistrelle.Codec.Encode.{encode_packet}
use pipistrelle.Codec.Packet.{
  Packet, Connect, connect, conn_ack, publish, pub_ack, subscribe, sub_ack, ping_req, ping_resp,
  disconnect,
}
use pipistrelle.Codec.Properties.ConnAck.{no_conn_ack_properties}
use pipistrelle.Session.State.{BrokerState, new_session, send_packet, on_session}
use pipistrelle.Session.Registry.{new_arc, register_session}

-- `accepted` with the session's index, the client's identifier and the bytes behind the CONNECT;
-- `turned_away` with what is written to the socket before it is closed; or a panic of the codec.
pub data Handshake : Type 0 where
  accepted : (arc : ℕ) → Str → List ℕ → BrokerState → Handshake
  turned_away : List ℕ → BrokerState → Handshake
  crashed : BrokerState → Handshake

abbrev pub or_zero : Option ℕ → ℕ
or_zero none = 0
or_zero (some n) = n

abbrev pub conn_ack_pkt : ℕ → Packet
conn_ack_pkt reason_code = conn_ack (record {
  session_present = false;
  reason_code = reason_code;
  properties = no_conn_ack_properties;
})

-- 2. to 4. The session is made, registered, and answered.
unfoldable pub accept : (now : ℕ) → Connect → List ℕ → BrokerState → Handshake
accept now pkt read_buf state =
    let session =
      new_session now pkt.client_id pkt.username pkt.clean_start pkt.keep_alive
        (or_zero pkt.properties.session_expiry_interval) in
    let (arc, state') = new_arc session state in
    accepted arc pkt.client_id read_buf
      (on_session arc (send_packet (conn_ack_pkt 0)) (register_session arc session state'))

-- `verify_password` asks the argon2 crate, `from_utf8_lossy` the standard library.
module _ (verify_password : Str → Str → Bool) (from_utf8_lossy : List ℕ → Str) where
  -- `match (&username, &password)`
  unfoldable pub authenticated : AuthConfig → Option Str → Option (List ℕ) → Bool
  authenticated auth (some u) (some p) = authenticate verify_password auth u (from_utf8_lossy p)
  authenticated auth none none = authenticate verify_password auth [] []
  authenticated auth (some u) none = false
  authenticated auth none (some p) = false

  unfoldable pub on_connect : (now : ℕ) → Connect → List ℕ → BrokerState → Handshake
  on_connect now pkt read_buf state =
      if authenticated state.auth pkt.username pkt.password
      then accept now pkt read_buf state
      else turned_away (encode_packet (conn_ack_pkt 0x86) []) state

  abbrev pub on_first : (now : ℕ) → List ℕ → BrokerState → Result (Packet × ℕ) → Handshake
  on_first now read_buf state (ok (connect pkt, bytes_read)) =
      on_connect now pkt (drop bytes_read read_buf) state
  on_first now read_buf state (ok (conn_ack pkt, bytes_read)) = turned_away [] state
  on_first now read_buf state (ok (publish pkt, bytes_read)) = turned_away [] state
  on_first now read_buf state (ok (pub_ack pkt, bytes_read)) = turned_away [] state
  on_first now read_buf state (ok (subscribe pkt, bytes_read)) = turned_away [] state
  on_first now read_buf state (ok (sub_ack pkt, bytes_read)) = turned_away [] state
  on_first now read_buf state (ok (ping_req, bytes_read)) = turned_away [] state
  on_first now read_buf state (ok (ping_resp, bytes_read)) = turned_away [] state
  on_first now read_buf state (ok (disconnect pkt, bytes_read)) = turned_away [] state
  on_first now read_buf state (err e) = turned_away [] state
  on_first now read_buf state panic = crashed state
  on_first now read_buf state stuck = crashed state

  -- The bytes of the first read; `[]` stands for a read that fails, ends or takes too long.
  unfoldable pub handshake : (now : ℕ) → List ℕ → BrokerState → Handshake
  handshake now [] state = turned_away [] state
  handshake now (b ∷ bytes) state = on_first now (b ∷ bytes) state (decode_packet (b ∷ bytes))
