-- ===== src/Routing.antt =====
-- crates/raynet-core/src/routing.rs: the graph, and what the planner keeps of each edge.
pub mod Edges
pub mod Feedback
pub mod Health
pub mod Planner
pub mod Paths
pub mod Shape
pub mod Plans
mod Tests
use raynet.Prelude.{ℕ, Bool, List, [], Option, none, ◌==◌, if◌then◌else◌}
use mathlib.Core.List.{map}
use raynet.Machine.Types.{ChannelId}
use raynet.Limits.{local_cooldown_initial_ms}

-- DEFAULT_ROUTE_CAPACITY_KBPS, DEFAULT_ROUTE_LATENCY_MS, FIXED_ONE and LOSS_ONE.
abbrev pub default_route_capacity_kbps : ℕ
default_route_capacity_kbps = 50000

abbrev pub default_route_latency_ms : ℕ
default_route_latency_ms = 50

abbrev pub fixed_one : ℕ
fixed_one = 65536

abbrev pub loss_one : ℕ
loss_one = 65535

pub record RouteEdge : Type 0 where
  pub channel_id : ChannelId
  pub next : ℕ
  pub capacity_hint_kbps : ℕ
  pub latency_hint_ms : ℕ

pub record RouteNode : Type 0 where
  pub edges : List RouteEdge

pub record RouteGraph : Type 0 where
  pub nodes : List RouteNode

pub record RouteConfig : Type 0 where
  pub graph : RouteGraph
  pub min_mtu : ℕ
  pub feedback_interval_ms : ℕ
  pub feedback_timeout_ms : ℕ

pub record EdgeId : Type 0 where
  pub node : ℕ
  pub edge : ℕ

pub record Edge : Type 0 where
  pub channel_id : ChannelId
  pub next : ℕ
  pub capacity_kbps : ℕ
  pub latency_ms : ℕ
  pub virtual_free_at : ℕ
  pub loss : ℕ
  pub cooldown_until : ℕ
  pub retry_delay_ms : ℕ
  pub last_sampled : Option ℕ
  pub last_observation_at : Option ℕ

pub record RoutePlanner : Type 0 where
  pub nodes : List (List Edge)

unfoldable pub new_edge : RouteEdge → Edge
new_edge edge = record {
  channel_id = edge.channel_id;
  next = edge.next;
  capacity_kbps =
      if edge.capacity_hint_kbps == 0 then default_route_capacity_kbps else edge.capacity_hint_kbps;
  latency_ms = if edge.latency_hint_ms == 0 then default_route_latency_ms else edge.latency_hint_ms;
  virtual_free_at = 0;
  loss = 0;
  cooldown_until = 0;
  retry_delay_ms = local_cooldown_initial_ms;
  last_sampled = none;
  last_observation_at = none;
}

-- `RoutePlanner::new`.
unfoldable pub new_planner : RouteConfig → RoutePlanner
new_planner config = record { nodes = map (λ node. map new_edge node.edges) config.graph.nodes }
