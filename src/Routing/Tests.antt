-- ===== src/Routing/Tests.antt =====
-- crates/raynet-core/src/routing.rs at a concrete graph.
use raynet.Prelude.{
  false, List, none, ◌⊎◌, ◌+◌, ◌*◌, ◌≤◌, ◌≡◌, refl, true, [], ◌∷◌, some, min, leb, arith, returns,
}
use raynet.Routing.{
  Edge, RouteEdge, RouteConfig, RoutePlanner, new_edge, new_planner, EdgeId, fixed_one,
}
use raynet.Routing.Edges.{
  serialization_time, penalty, latency, edge_allowed, effective_capacity, fail_edge, is_recent,
}
use raynet.Routing.Feedback
use raynet.Routing.Feedback.{edge_at, note_local_send_failure, note_feedback}
use raynet.Routing.Health.{
  IsHealthy, AllHealthy, new_edge-IsHealthy, fail_edge-IsHealthy, effective_capacity_bounds,
}
use raynet.Routing.Paths.{Search, calculate_path}
use raynet.Routing.Paths.Travels.{
  Travels, departs, takes_edge, arrival_behind, calculate_path-Finds,
}
use raynet.Routing.Paths.Routes.{IsRoute, takes, calculate_path-IsRoute}
use raynet.Routing.Plans.{build_route_plan}
use raynet.Routing.Plans.Noting.{note_feedback-shape}
use raynet.Routing.Plans.Planning.{IsGraph, IsPlanned, build_route_plan-IsPlanned}
use raynet.Routing.Shape.{shape}
use raynet.Routing.Planner.{unnoticed, note, failure, Noticed-AllHealthy}

abbrev direct : RouteEdge
direct = record { channel_id = 4; next = 1; capacity_hint_kbps = 0; latency_hint_ms = 0 }

abbrev config : RouteConfig
config = record {
  graph = record { nodes = record { edges = direct ∷ [] } ∷ record { edges = [] } ∷ [] };
  min_mtu = 1200;
  feedback_interval_ms = 100;
  feedback_timeout_ms = 1000;
}

fail_edge-IsHealthy_example :
    IsHealthy (fail_edge (new_edge direct) 1000)
    × (edge_allowed (fail_edge (new_edge direct) 1000) 1049
        ≡ leb (1000 + (new_edge direct).retry_delay_ms) 1049)
    × ((fail_edge (new_edge direct) 1000).retry_delay_ms
        ≡ min (2 * (new_edge direct).retry_delay_ms) 200)
    × (is_recent (new_edge direct).last_observation_at 1000 ≡ true
        → 32767 ≤ (fail_edge (new_edge direct) 1000).loss)
fail_edge-IsHealthy_example =
    fail_edge-IsHealthy (new_edge direct) 1000 1049 (new_edge-IsHealthy direct) (omega arith)

abbrev failed_edge : Edge
failed_edge = record (new_edge direct) {
  loss = 32767;
  cooldown_until = 1050;
  retry_delay_ms = 100;
  last_observation_at = some 1000;
}

abbrev failed : RoutePlanner
failed = record { nodes = (failed_edge ∷ []) ∷ [] ∷ [] }

fail_once : note_local_send_failure (new_planner config) 4 1000 ≡ returns failed
unfolding note_local_send_failure new_planner new_edge fail_edge is_recent Feedback.find_edge
    Feedback.position Feedback.write_edge
fail_once = refl

Noticed-AllHealthy_example : AllHealthy failed.nodes
Noticed-AllHealthy_example =
    Noticed-AllHealthy config failed
      (note (new_planner config) failed unnoticed (failure 4 1000 fail_once))

effective_capacity_example :
    (failed_edge.capacity_kbps ≤ 16 * effective_capacity failed_edge + 15)
    × (effective_capacity failed_edge ≤ failed_edge.capacity_kbps)
unfolding new_edge
effective_capacity_example = effective_capacity_bounds failed_edge (omega arith) (omega arith)

abbrev planner : RoutePlanner
planner = record { nodes = (new_edge direct ∷ []) ∷ [] ∷ [] }

planner-IsGraph : IsGraph planner.nodes
unfolding new_edge
planner-IsGraph = record {
  some_node = omega arith;
  forward = (((omega arith, omega arith), tt), tt);
  plain = ((tt, tt), (tt, tt));
}

-- The edge of the example, as the sample of a plan.
abbrev first_edge : EdgeId
first_edge = record { node = 0; edge = 0 }

calculate_path-IsRoute_example :
    (calculate_path planner 5 100 (some first_edge) ≡ returns none)
    ⊎ ((path : List EdgeId) × (calculate_path planner 5 100 (some first_edge) ≡ returns (some path))
        × IsRoute planner.nodes 5 0 1 path
        × (takes (some first_edge) path ≡ true))
calculate_path-IsRoute_example =
    calculate_path-IsRoute planner 5 100 (some first_edge) (omega arith) planner-IsGraph.forward

build_route_plan-IsPlanned_example : IsPlanned planner (build_route_plan planner 5 100 true)
build_route_plan-IsPlanned_example = build_route_plan-IsPlanned planner 5 100 true planner-IsGraph

note_feedback-shape_example :
    (planner' : RoutePlanner) × (note_feedback planner (4 ∷ []) 5 true ≡ returns planner')
    × (shape planner'.nodes ≡ shape planner.nodes)
unfolding new_edge
note_feedback-shape_example =
    note_feedback-shape planner (4 ∷ []) 1 5 true (_, refl, (1, refl, refl))

abbrev search : Search
search = record { count = 2; elapsed_ms = 5; scheduled_bytes = 100; forced = some first_edge }

-- A packet of hundred bytes crosses the edge.
crossing :
    Travels planner.nodes search 1 true (arrival_behind search (5 * fixed_one) (new_edge direct))
unfolding new_edge edge_allowed edge_at serialization_time effective_capacity penalty latency
crossing =
    takes_edge 0 0 (5 * fixed_one) false (new_edge direct) (departs (omega arith)) (omega arith)
      refl refl (omega arith)

calculate_path-Finds_example :
    (path : List EdgeId) × (calculate_path planner 5 100 (some first_edge) ≡ returns (some path))
    × IsRoute planner.nodes 5 0 1 path
    × (takes (some first_edge) path ≡ true)
calculate_path-Finds_example =
    calculate_path-Finds planner 5 100 (arrival_behind search (5 * fixed_one) (new_edge direct))
      (some first_edge) (omega arith) planner-IsGraph.forward crossing
