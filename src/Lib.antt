-- ===== src/Lib.antt =====
-- A model of raynet-core, the protocol core of raynet: packets that are routed over several channels
-- through relays, protected against replay, and that carry reliable streams between two endpoints.
--
-- The program's parts, the files that model them, and how they interact. All paths below are under
-- crates/raynet-core/src of the repository.
--
-- * machine.rs (Machine, Machine/Types, Machine/Checks): the events, actions and metrics that a core
--   exchanges with its shell, and the two checks that every incoming packet passes:
--   `receive_transport_packet` and `check_sequence`.
-- * wire.rs (Wire): the layouts. Wire/Envelope is the envelope (`encode_with_prefix`, `decode`,
--   `envelope_prefix`, `endpoint_nonce`), Wire/EndpointMessages and Wire/SessionMessages are the
--   messages inside.
-- * packet.rs and random.rs (Packet): an envelope, encrypted, with a random nonce.
-- * sequence.rs (Sequence): Sequence/Time is `time_diff`, Sequence/Window the window of 2^20 numbers
--   of one sender (`insert`, with the bitmap in Sequence/Window/Bitmap), Sequence/Filter the windows
--   of all senders (`check_and_insert`, `remove_expired`, `next_expiry_delay_ms`).
-- * relay.rs (Relay): the relay, which decrypts a packet, checks it, takes the first channel out of
--   its route and sends it on (`handle_event`, `forward_packet`).
-- * kcp/kcp.rs and kcp/error.rs (Kcp): the reliable transport. Kcp/Types is the control block, and
--   Kcp/Codec the segment; Kcp/Receive is `recv`, `peeksize`, `parse_data` and `move_buf`; Kcp/Send is
--   `send`; Kcp/Acks is what acknowledgements do to the sender; Kcp/Input is `input`; Kcp/Schedule and
--   Kcp/Flush are `flush`; Kcp/Timer is `update` and `check`; Kcp/Session has the calls in any order.
-- * routing.rs (Routing): the graph of channels and what the planner keeps of each edge
--   (Routing/Edges), with `note_local_send_failure` and `note_feedback` (Routing/Feedback), the search
--   for a path (`calculate_path`, Routing/Paths), and the sampled edge, the reservation and the plan
--   (`sampling_edge`, `reserve`, `build_route_plan`, Routing/Plans). Routing/Shape is the part of the
--   graph that never changes.
-- * endpoint.rs (Endpoint): the two ends of the protocol. Endpoint is `EndpointConfig`,
--   `EndpointCore` and its construction with `scheduled_packet_overhead`; Endpoint/Session is
--   `EndpointSession`, a control block of Kcp with its phase; Endpoint/Sending is the way out, from
--   `send_kcp_packets` to `send_envelope`, over Routing, Wire and Packet; Endpoint/Closing is the end
--   of a session (`queue_local_close`, `finish_closed_session`); Endpoint/Receiving is the way in,
--   from `handle_transport_packet` to `handle_session_message`; Endpoint/Expiry is what
--   expires, with `next_deadline`; Endpoint/Events is `handle_event` and `poll`. Endpoint/Protocol
--   has the abstract view that the shell has of a conversation, Endpoint/Consistency what the fields
--   promise one another, and Endpoint/Faults the faults that a packet can have.
-- * limits.rs (Limits): the sizes and delays.
--
-- How the state corresponds: a struct is a record with the same fields, `&mut self` is a state that is
-- taken and returned, `Result` is a result (Prelude/Results), and a panic (`unwrap`, an index out of
-- range, `panic!`) is the outcome `panics`; the vector of actions that is passed along stands beside
-- the core (Endpoint.Sending.Running). A byte string is a list of numbers below 256, a queue is a
-- list, and a `HashMap` or `BTreeMap` is an association list (Prelude/Assoc), which for a `BTreeMap`
-- is sorted. A `PacketId` is one number; an array that only one function uses is a function, with the
-- panic on an index out of range written out.
--
-- The build: without overflow checks and debug assertions, as a release is built, and with default
-- features. Integers are the native numbers, with the wrap-around of their width written out
-- (Prelude/Words); `usize` has 64 bits, and the sum of the lengths of buffers in memory does not
-- leave it. `i32` is the integers of Prelude/Int.
--
-- Fuel: the loop of `Kcp::input` runs on the length of the packet, since each round reads 28 bytes at
-- least; the loop that reads a route runs on the length of the packet, since each round reads two;
-- `clear_after` runs its three loops on the number of bits that remain; the way back of
-- `calculate_path` runs on the number of nodes, since each step leads to an earlier one; the loop of
-- `recv_messages` runs on the number of segments that have arrived and one more, since each round
-- takes one at least. The other loops are recursions on a list.
--
-- Parameters: the little-endian integers of the crate `bytes` (Kcp.Codec.ByteOrder), the cipher of
-- the crate `aegis` (Packet.Aead) and the random bytes of the crate `blake3` (Packet.RandomSource),
-- each with the laws that its documentation states. Kcp/Samples and Packet/Samples have an instance of
-- each.
--
-- Not modelled: the capacities of buffers; the shells, which are asynchronous input and output, and
-- the tests. The order in which a `HashMap` is walked is that of the association list.
pub mod Prelude
pub mod Machine
pub mod Wire
pub mod Sequence
pub mod Kcp
pub mod Limits
pub mod Packet
pub mod Relay
pub mod Endpoint
pub mod Routing
