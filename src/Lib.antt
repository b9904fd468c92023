-- ===== src/Lib.antt =====
-- Pipistrelle, an MQTT 5 broker in Rust: its packet codec, its topic router, its access control, its
-- sessions and their rows in a database, its connections, its WebSocket adapter and its bridge to a
-- remote broker.
--
-- A client's bytes, over TCP, TLS or the WebSocket adapter, gather in a buffer from which the connection
-- loop (src/main.rs) takes packets with `decode_packet`. The first has to be a CONNECT that access
-- control accepts; then the broker's state (src/session.rs) gets a session of the client, whose channel
-- takes what is written to it. A SUBSCRIBE goes to the router, a trie of topic segments behind one lock; a
-- PUBLISH is routed to the sessions whose filters match and to the bridge (src/bridge.rs), which
-- runs the same packet loop on what the remote broker sends. For both the loop asks access control first.
--
-- src/codec.rs is modelled by Codec:
--   Codec.Outcome: `Result`, with a constructor each for `Ok`, `Err`, a panic and a loop that has run
--     out of fuel; `>>=` is the operator `?`. A reader, which advances a `&mut &[u8]`, returns the rest
--     of the bytes beside its value.
--   Codec.Utf8, Codec.Read, Codec.Write, Codec.Varint: `from_utf8`, the readers and writers of fields,
--     and the variable byte integers. Codec.Wire pairs each reader with its writer.
--   Codec.Packet: the packets. Codec.Properties: the property sections, which the source writes out
--     seven times; their shared loop stands in the parent, each type's properties in a child.
--   Codec.Decode: `decode_packet`, each arm of its `match` a function. Codec.Encode: `encode_packet`.
--   Codec.RoundTrip: the lemmas on one packet type after the other, and the theorem on them all. Codec.Crash is
--     about the slices over a CONNECT's will, which panic.
--
-- src/router.rs is modelled by Router: Router.Maps has the operations of `HashMap` that it uses,
-- Router.Trie the nodes with `subscribe` and `unsubscribe`, Router.Match `match_topic`. Router.Filter
-- says apart from the trie which topics a filter matches; Router.Subscribed, Router.Removed,
-- Router.Shared, Router.Others, Router.Unsubscribed, Router.Registered, Router.Undone and Router.Delivered prove the
-- operations against it.
--
-- src/config.rs is modelled by Config: who may connect, and who may read or write a topic.
--
-- src/session.rs is modelled by Session: Session.State has the records and the methods of a session,
-- Session.PacketId its packet identifiers, Session.Deliver `route_publish` and what it calls,
-- Session.Registry the other operations of `BrokerState`. Session.Invariant and Session.Preserved have
-- the invariant and its preservation; Session.Delivery, Session.Counts, Session.Turns, Session.Routed,
-- Session.Departed and Session.Reached prove what is sent to whom.
--
-- src/main.rs is modelled by PacketLoop, the loop over the packets of a buffer, which takes the handling
-- of a packet as an argument and serves src/bridge.rs too, and by Connection: Connection.Handshake is the
-- first part of `handle_connection`, Connection itself its loop over the reads and its cleanup,
-- Connection.Process `process_client_packet`. Connection.Reach has the steps that the broker's tasks
-- take; Connection.Refused, Connection.Trace and Connection.ReadLoop follow the loop, Connection.Answer,
-- Connection.Replies and Connection.Admission prove the other parts.
--
-- src/websocket.rs is modelled by WebSocket, with its theorems in WebSocket.Reading and WebSocket.Writing,
-- and src/bridge.rs by Bridge, with what comes into its channel in Bridge.Queue and its theorem in
-- Bridge.Forwarding. src/persistence.rs is modelled by Persistence, over a record of the SQL statements;
-- Persistence.Promises says what these do, and Persistence.Mirrors joins them with the sessions.
--
-- Bytes, `u16` and `u32` are natural numbers; the theorems that need their bounds ask for them, and
-- the writers reduce by `% 2 ^ w` where the source casts. A string is the list of its bytes. The
-- decoding loops run on fuel, as much as there are bytes, and each round takes at least one; the
-- varint loop has its limit of four bytes. `encode_varint` recurses on its value, which falls.
-- A `HashMap` is a list of pairs with one entry a key; the order of `values` is the list's order, where
-- the source leaves it open and an insertion may change it. The router's lock makes each of its operations a single step.
--
-- An `Arc` of a session is its index in a list of all sessions made so far. A channel is the list of what
-- has been handed to it; a task that calls the database is an entry of a list. A step of the broker is a
-- whole call of one of its tasks, as if no two overlapped. The packet loop has fuel for one round more than
-- the buffer has bytes, which is enough since a packet takes two bytes or more. The loops over reads and
-- events are recursion on the list of what the outside gives.
--
-- Parameters are what argon2 says of a password, `String::from_utf8_lossy`, `str::trim`, what reading the
-- credentials file and the environment gives, what a socket or a WebSocket gives, what SQLite makes of
-- a statement, and the time.
--
-- Not modelled: `main` itself and the loading of certificates in src/main.rs, which start tasks and call
-- libraries; how src/persistence.rs opens its file and makes its tables; src/metrics.rs and src/tls.rs,
-- which call libraries alone.
pub mod Prelude
pub mod Codec
pub mod Router
pub mod Config
pub mod Session
pub mod PacketLoop
pub mod Connection
pub mod WebSocket
pub mod Bridge
pub mod Persistence
