-- ===== src/Endpoint.antt =====
-- crates/raynet-core/src/endpoint.rs: the configuration, the state and the construction of an
-- endpoint.
pub mod Session
pub mod Sending
pub mod Closing
pub mod Receiving
pub mod Expiry
pub mod Events
pub mod Consistency
pub mod Protocol
pub mod Lengths
pub mod Refusals
pub mod Faults
pub mod Draining
pub mod Packets
mod Tests
use raynet.Prelude.{
  ℕ, ◌+◌, ◌-◌, ◌*◌, ◌%◌, ◌^◌, max, Bool, true, false, List, [], ◌∷◌, Option, none, some, length,
  leb, ◌==◌, if◌then◌else◌, Outcome, returns, panics, add64, sub64, mul64,
}
use raynet.Prelude.Outcomes.{◌>>=◌}
use raynet.Limits.{endpoint_message_overhead, transport_packet_overhead, effective_transport_mtu}
use raynet.Machine.Types.{ChannelId, ConvId, CoreMetrics, no_metrics}
use raynet.Kcp.Types.{KcpParams}
use raynet.Packet.{RandomSource, random_u64}
use raynet.Routing.{RouteConfig, RouteNode, RouteEdge, RoutePlanner, new_planner}
use raynet.Sequence.Filter.{SequenceFilter}
use raynet.Wire.Layout.{envelope_fixed_overhead, channel_id_size}
use Session.{EndpointSession}

-- SEQUENCE_MASK and SEQUENCE_SOFT_CAP.
abbrev pub sequence_mask : ℕ
sequence_mask = 2 ^ 48 - 1

abbrev pub sequence_soft_cap : ℕ
sequence_soft_cap = 1

pub record KcpConfig : Type 0 where
  pub send_window : ℕ
  pub receive_window : ℕ
  pub time_scale : ℕ
  pub fast_resend : ℕ

-- `KcpConfig::default`.
abbrev pub default_kcp : KcpConfig
default_kcp = record { send_window = 128; receive_window = 128; time_scale = 10; fast_resend = 32 }

pub record EndpointConfig : Type 0 where
  pub envelope_key : List ℕ
  pub message_key : List ℕ
  pub random_seed : List ℕ
  pub boot_time_ms : ℕ
  pub kcp : KcpConfig
  pub route : RouteConfig
  pub local_channels : List ChannelId
  pub padding_reserve : ℕ
  pub keepalive_interval_ms : ℕ

-- `PacketId`, two numbers of 64 bits in lexicographic order, is one number.
abbrev pub PacketId : Type 0
PacketId = ℕ

abbrev pub packet_id : ℕ → ℕ → PacketId
packet_id seq_id seq_no = seq_id * 2 ^ 64 + seq_no

pub record FeedbackSample : Type 0 where
  pub route_plan : List ChannelId
  pub sent_at : ℕ
  pub deadline : ℕ

pub record EndpointCore (Stream : Type 0) : Type 0 where
  pub config : EndpointConfig
  pub kcp_params : KcpParams
  pub scheduled_packet_overhead : ℕ
  pub close_deadline_ms : ℕ
  pub route_planner : RoutePlanner
  pub random : Stream
  pub sequence_filter : SequenceFilter
  pub seq_id : ℕ
  pub next_seq_no : ℕ
  pub next_feedback_at : ℕ
  pub outstanding : List (PacketId × FeedbackSample)
  pub next_keepalive_at : ℕ
  pub sessions : List (ConvId × EndpointSession)
  pub tombstones : List (ConvId × ℕ)
  pub next_conv_id : ConvId
  pub metrics : CoreMetrics

-- The array `longest` of `scheduled_packet_overhead`, as a function.
abbrev pub Lengths : Type 0
Lengths = ℕ → ℕ

abbrev pub set_length : Lengths → ℕ → ℕ → Lengths
set_length lengths node n m = if m == node then n else lengths m

-- The inner loop, over the edges of a node of a graph of `count` nodes.
unfoldable pub lengthen : ℕ → ℕ → List RouteEdge → Lengths → Outcome Lengths
lengthen count node [] lengths = returns lengths
lengthen count node (edge ∷ edges) lengths =
    let longer = set_length lengths node (max (lengths node) (lengths edge.next + 1)) in
    if leb count edge.next then panics else lengthen count node edges longer

-- The loop over the nodes from the last but one back to the first.
unfoldable pub longest : ℕ → ℕ → List RouteNode → Outcome Lengths
longest count node [] = returns (λ m. 0)
longest count node (last ∷ []) = returns (λ m. 0)
longest count node (first ∷ second ∷ nodes) = do
  later ← longest count (node + 1) (second ∷ nodes)
  lengthen count node first.edges later

unfoldable pub overhead_of : ℕ → ℕ → ℕ
overhead_of padding_reserve hops =
    add64 (transport_packet_overhead + envelope_fixed_overhead + padding_reserve)
      (mul64 (sub64 hops 1) channel_id_size)

-- A graph of no nodes panics.
unfoldable pub scheduled_packet_overhead : EndpointConfig → Outcome ℕ
scheduled_packet_overhead config = if length config.route.graph.nodes == 0 then panics else do
  lengths ← longest (length config.route.graph.nodes) 0 config.route.graph.nodes
  returns (overhead_of config.padding_reserve (lengths 0))

-- The zeros of the configuration stand for the defaults.
unfoldable pub with_defaults : KcpConfig → KcpConfig
with_defaults kcp = record kcp {
  send_window = if kcp.send_window == 0 then default_kcp.send_window else kcp.send_window;
  receive_window =
      if kcp.receive_window == 0 then default_kcp.receive_window else kcp.receive_window;
  time_scale = if kcp.time_scale == 0 then default_kcp.time_scale else kcp.time_scale;
}

unfoldable pub kcp_params_of : EndpointConfig → ℕ → KcpParams
kcp_params_of config overhead = record {
  mtu =
      sub64 (sub64 (effective_transport_mtu config.route.min_mtu) overhead)
        endpoint_message_overhead;
  send_window = config.kcp.send_window;
  receive_window = config.kcp.receive_window;
  nodelay = true;
  fast_resend = if config.kcp.fast_resend == 0 then none else some config.kcp.fast_resend;
  congestion_control = false;
  time_scale = config.kcp.time_scale;
}

module _ {Stream : Type 0} (source : RandomSource Stream) where
  -- `EndpointCore::new`.
  unfoldable pub new_endpoint : EndpointConfig → Outcome (EndpointCore Stream)
  new_endpoint given = do
    let config = record given { kcp = with_defaults given.kcp }
    overhead ← scheduled_packet_overhead config
    let conv = random_u64 source (source.new_stream config.random_seed)
    let first = random_u64 source conv.1
    returns (record {
      config = config;
      kcp_params = kcp_params_of config overhead;
      scheduled_packet_overhead = overhead;
      close_deadline_ms = 3 * 6000 * config.kcp.time_scale;
      route_planner = new_planner config.route;
      random = first.1;
      sequence_filter = [];
      seq_id = first.0 % 2 ^ 48;
      next_seq_no = 0;
      next_feedback_at = 0;
      outstanding = [];
      next_keepalive_at = config.keepalive_interval_ms;
      sessions = [];
      tombstones = [];
      next_conv_id = conv.0;
      metrics = no_metrics;
    })

  -- `EndpointCore::metrics`.
  unfoldable pub metrics_of : EndpointCore Stream → CoreMetrics
  metrics_of core = record core.metrics {
    active_sessions = length core.sessions;
    active_sequences = length core.sequence_filter;
  }
