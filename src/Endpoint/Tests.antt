-- ===== src/Endpoint/Tests.antt =====
-- crates/raynet-core/src/endpoint.rs at a concrete endpoint.
use raynet.Prelude.{
  ℕ, ◌≤◌, ◌<◌, ◌≡◌, refl, ap, Bool, true, false, not, ◌||◌, List, [], ◌∷◌, ◌++◌, none, some, length,
  is_some, ok, Outcome, returns, arith, add64,
}
use raynet.Prelude.Bytes.{from_le_bytes, to_le_bytes}
use raynet.Prelude.Assoc.{lookup}
use raynet.Prelude.Outcomes.{◌>>=◌, Ensures}
use raynet.Endpoint.{
  EndpointConfig, EndpointCore, new_endpoint, scheduled_packet_overhead, kcp_params_of, longest,
  lengthen, overhead_of, with_defaults,
}
use raynet.Endpoint.Session.{EndpointSession, closing_local, recv_messages}
use raynet.Endpoint.Sending.{Running, seal_endpoint_message, send_routed, unpadded_len}
use raynet.Endpoint.Closing.{count_dropped, finish_closed_session, may_queue}
use raynet.Endpoint.Receiving.{handle_transport_packet, note_reply}
use raynet.Endpoint.Expiry.{expire_feedback}
use raynet.Endpoint.Events.{poll, handle_event, received_event}
use raynet.Endpoint.Consistency.{IsConsistent}
use raynet.Endpoint.Consistency.Runs.{
  start, call, handles, Reachable-IsConsistent, consistent_returns,
}
use raynet.Endpoint.Protocol.{Obeys}
use raynet.Endpoint.Protocol.Events.{Permitted, Follows, handle_event-Follows}
use raynet.Endpoint.Protocol.Polls.{poll-Obeys}
use raynet.Endpoint.Packets.{send_datagram-Fits}
use raynet.Endpoint.Draining.{Drains, recv_messages-Drains}
use raynet.Endpoint.Faults.{Carries, on_its_way}
use raynet.Endpoint.Faults.Counting.{handle_transport_packet-Fault}
use raynet.Endpoint.Refusals.{routed, handle_transport_packet-Refused}
use raynet.Kcp.Samples.{little_endian}
use raynet.Kcp.Types.{Kcp, new_kcp, new_with_data}
use raynet.Kcp.Codec.{encode}
use raynet.Limits.{effective_transport_mtu}
use raynet.Machine.Types.{
  transport_packet_received, session_open, session_close, nothing, send_transport_packet,
  local_closed, no_metrics,
}
use raynet.Packet.{random_u64, encode_transport_packet, decode_transport_packet}
use raynet.Packet.RoundTrip.{packet_size, decode-encode_transport_packet}
use raynet.Packet.Samples.{clear_text, zeros, key, envelope}
use raynet.Routing.{RouteConfig, RouteEdge, new_planner, new_edge}
use raynet.Routing.Plans.Planning.{IsGraph}
use raynet.Wire.Layout.{kcp_packet, stamp_of, put_u48}
use raynet.Wire.Envelope
use raynet.Wire.Envelope.{envelope_header, time_and_route, route_bytes}

abbrev direct : RouteEdge
direct = record { channel_id = 4; next = 1; capacity_hint_kbps = 0; latency_hint_ms = 0 }

abbrev route : RouteConfig
route = record {
  graph = record { nodes = record { edges = direct ∷ [] } ∷ record { edges = [] } ∷ [] };
  min_mtu = 1200;
  feedback_interval_ms = 100;
  feedback_timeout_ms = 1000;
}

abbrev config : EndpointConfig
config = record {
  envelope_key = key;
  message_key = key;
  random_seed = [];
  boot_time_ms = 2000;
  kcp = record { send_window = 16; receive_window = 16; time_scale = 10; fast_resend = 2 };
  route = route;
  local_channels = 4 ∷ [];
  padding_reserve = 16;
  keepalive_interval_ms = 0;
}

abbrev endpoint : EndpointCore ℕ
endpoint = record {
  config = config;
  kcp_params = kcp_params_of config (overhead_of 16 1);
  scheduled_packet_overhead = overhead_of 16 1;
  close_deadline_ms = 180000;
  route_planner = new_planner route;
  random = 0;
  sequence_filter = [];
  seq_id = 0;
  next_seq_no = 0;
  next_feedback_at = 0;
  outstanding = [];
  next_keepalive_at = 0;
  sessions = [];
  tombstones = [];
  next_conv_id = 0;
  metrics = no_metrics;
}

route-IsGraph : IsGraph (new_planner route).nodes
unfolding new_planner new_edge
route-IsGraph = record {
  some_node = omega arith;
  forward = (((omega arith, omega arith), tt), tt);
  plain = ((tt, tt), (tt, tt));
}

endpoint-new : new_endpoint zeros config ≡ returns endpoint
unfolding new_endpoint scheduled_packet_overhead longest lengthen with_defaults random_u64
    from_le_bytes
endpoint-new = refl

-- A packet that still has a route.
abbrev incoming : List ℕ
incoming = (encode_transport_packet clear_text zeros key 0 envelope).0

incoming_opens : decode_transport_packet clear_text key incoming ≡ ok envelope
unfolding packet_size
incoming_opens =
    let (_, opens) =
      decode-encode_transport_packet clear_text zeros key 0 envelope (omega arith) (omega arith)
        (omega arith) in
    opens

abbrev session : EndpointSession
session = record {
  kcp = new_kcp 7 endpoint.kcp_params;
  phase = closing_local;
  peer_seq = none;
  pending_close = some local_closed;
  close_queued = false;
  close_deadline_at = some 180000;
}

abbrev closing : EndpointCore ℕ
closing = record endpoint { sessions = (7, session) ∷ [] }

incoming-Carries : Carries clear_text closing incoming envelope
unfolding packet_size encode_transport_packet Envelope.encode_with_prefix envelope_header
    time_and_route route_bytes put_u48 to_le_bytes
incoming-Carries =
    let (size, _) =
      decode-encode_transport_packet clear_text zeros key 0 envelope (omega arith) (omega arith)
        (omega arith) in
    record {
      long = omega (arith, size);
      short = omega (arith, size);
      fits = omega arith;
      text = refl;
    }

handle_transport_packet-Fault_example :
    handle_transport_packet little_endian clear_text zeros
      (record { core = closing; actions = [] })
      100
      incoming
    ≡ returns (record {
      core = record closing { metrics = record no_metrics { packets_dropped = add64 0 1 } };
      actions = [];
    })
unfolding no_metrics lookup
handle_transport_packet-Fault_example =
    handle_transport_packet-Fault little_endian clear_text zeros closing incoming
      (λ seq_id seq_no. false) 100 [] (λ seq_id seq_no. refl)
      (on_its_way envelope incoming-Carries (λ e. absurd (cc e)))

-- A packet of a new conversation, with the first segment of its stream.
abbrev arriving : List ℕ
arriving =
    let home = record envelope { route_plan = []; seq_id = 9 } in
    let segment = record (new_with_data (0 ∷ [])) { conv = 5; cmd = 81; wnd = 8 } in
    let payload =
      seal_endpoint_message clear_text endpoint (stamp_of home)
        (kcp_packet 0 (encode little_endian segment)) in
    (encode_transport_packet clear_text zeros key 0 (record home { payload = payload })).0

handle_event-Follows_example : Ensures (Follows (record { core = closing; actions = [] })) (
    handle_event little_endian clear_text zeros
      (record { core = closing; actions = [] })
      100
      (transport_packet_received 4 arriving))
handle_event-Follows_example =
    handle_event-Follows little_endian clear_text zeros (record { core = closing; actions = [] })
      100 (transport_packet_received 4 arriving) tt

poll-Obeys_example :
    Ensures
      (Obeys (record { core = closing; actions = [] }))
      (poll little_endian clear_text zeros (record { core = closing; actions = [] }) 200000)
poll-Obeys_example =
    poll-Obeys little_endian clear_text zeros (record { core = closing; actions = [] }) 200000
      ((λ e. absurd (cc e)), tt)

-- The shell may close the conversation, and open one.
may_close : Permitted (record { core = closing; actions = [] }) (session_close 7 local_closed)
unfolding lookup
may_close = refl

may_open : Permitted (record { core = closing; actions = [] }) session_open
unfolding lookup
may_open = refl

-- Two messages have arrived, the second one in two fragments.
abbrev holding : Kcp
holding = record session.kcp {
  rcv_queue =
      new_with_data (0 ∷ [])
      ∷ record (new_with_data (1 ∷ 104 ∷ [])) { frg = 1 }
      ∷ new_with_data (105 ∷ [])
      ∷ [];
}

recv_messages-Drains_example : Drains holding [] (recv_messages holding)
recv_messages-Drains_example = recv_messages-Drains holding

-- The endpoint behind the packet that still has a route.
abbrev told : EndpointCore ℕ
told = record endpoint {
  metrics = record no_metrics { packets_received = add64 0 1; packets_dropped = add64 0 1 };
}

endpoint-receives :
    handle_event little_endian clear_text zeros
      (record { core = endpoint; actions = [] })
      100
      (transport_packet_received 4 incoming)
    ≡ returns (record { core = told; actions = [] }, nothing)
unfolding handle_event received_event count_dropped no_metrics
endpoint-receives =
    ap (λ (o : Outcome (Running ℕ)). o >>= λ (r : Running ℕ). returns (r, nothing))
      (handle_transport_packet-Refused little_endian clear_text zeros
        (record {
          core = record endpoint { metrics = record no_metrics { packets_received = add64 0 1 } };
          actions = [];
        })
        100 incoming (routed envelope incoming_opens refl))

Reachable-IsConsistent_example : IsConsistent told
Reachable-IsConsistent_example =
    Reachable-IsConsistent little_endian clear_text zeros config told route-IsGraph (
      call endpoint told (start endpoint endpoint-new) (
        handles 100 (transport_packet_received 4 incoming) [] (record { core = told; actions = [] })
          nothing endpoint-receives refl))

closing-IsConsistent : IsConsistent closing
closing-IsConsistent = record {
  graph = route-IsGraph;
  samples = tt;
  phases = ((refl, refl), tt);
  id_lt = omega arith;
  next_le = omega arith;
}

closing-session : lookup 7 closing.sessions ≡ some session
unfolding lookup
closing-session = refl

consistent_returns_example :
    ((core' : EndpointCore ℕ) × (note_reply closing 3 ≡ returns core'))
    × ((core' : EndpointCore ℕ) × (expire_feedback closing 200000 ≡ returns core'))
    × ((r' : Running ℕ) × (finish_closed_session (record { core = closing; actions = [] }) 200000 7
          ≡ returns r'))
    × ((b : Bool) × (may_queue session 200000 16 session.phase ≡ returns b)
        × (not b || is_some session.pending_close ≡ true))
consistent_returns_example =
    consistent_returns closing [] 200000 3 7 session closing-IsConsistent closing-session

abbrev datagram : List ℕ
datagram = 1 ∷ 2 ∷ 3 ∷ []

abbrev sealed : List ℕ
sealed = seal_endpoint_message clear_text endpoint (stamp_of envelope) (kcp_packet 1 datagram)

send_datagram-Fits_example :
    (r' : Running ℕ) × (bytes : List ℕ) × (send_routed zeros clear_text
        (record { core = endpoint; actions = [] })
        100
        (stamp_of envelope)
        sealed
        true
        4
        []
      ≡ returns r')
    × (r'.actions ≡ [] ++ (send_transport_packet 4 bytes ∷ []))
    × (unpadded_len 0 sealed < length bytes)
    × (length bytes ≤ effective_transport_mtu 1200)
unfolding scheduled_packet_overhead longest lengthen overhead_of kcp_params_of
    effective_transport_mtu new_edge
send_datagram-Fits_example =
    send_datagram-Fits clear_text zeros (record { core = endpoint; actions = [] }) 100
      (stamp_of envelope) 1 1 datagram true 4 [] (omega arith) (omega arith)
      (((omega arith, omega arith), tt), tt) refl refl (omega arith) (omega arith) (omega arith)
      (omega arith) (_, refl, (1, refl, refl)) (omega arith)
