-- ===== src/Routing/Plans/Bounds.antt =====
-- crates/raynet-core/src/routing.rs: planning keeps the edges in their bounds.
use raynet.Prelude.{
  ℕ, ◌≡◌, subst, inl, inr, Bool, true, false, List, [], ◌∷◌, Option, none, some, get_elem?, All,
  Option-cases, returns, mul64, returns_injective,
}
use raynet.Prelude.Outcomes.{>>=-returns}
use raynet.Machine.Types.{ChannelId}
use raynet.Routing.{Edge, EdgeId, RoutePlanner, fixed_one}
use raynet.Routing.Edges.{reserve_edge}
use raynet.Routing.Feedback.{edge_at, write_edge}
use raynet.Routing.Health.{IsHealthy, AllHealthy, write_edge-AllHealthy, get-All}
use raynet.Routing.Paths.{calculate_path}
use raynet.Routing.Plans.{
  sampling_edge, reserve_path, reserve, channels_of, plan_through, plan_sampled, build_route_plan,
}

reserve_edge-IsHealthy :
    (edge : Edge) (cursor elapsed_ms scheduled_bytes : ℕ) (sample : Bool)
    → IsHealthy edge
    → IsHealthy (reserve_edge edge cursor elapsed_ms scheduled_bytes sample).0
unfolding reserve_edge
reserve_edge-IsHealthy edge cursor at bytes sample v = record {
  loss_le = v.loss_le;
  delay_ge = v.delay_ge;
  delay_le = v.delay_le;
  some_capacity = v.some_capacity;
}

edge_at-IsHealthy :
    (nodes : List (List Edge)) (edge_id : EdgeId) (edge : Edge)
    → AllHealthy nodes
    → edge_at nodes edge_id ≡ some edge
    → IsHealthy edge
unfolding edge_at
edge_at-IsHealthy nodes edge_id edge v e = elim (Option-cases (get_elem? nodes edge_id.node)) [
  | inl missing ↦ absurd (cc (rw (missing, edge_at) at e))
  | inr (edges, there) ↦
      get-All IsHealthy edges edge_id.edge edge (rw (there, edge_at) at e)
        (get-All (λ es. All IsHealthy es) nodes edge_id.node edges there v)
]

reserve_path-AllHealthy :
    (nodes nodes' : List (List Edge)) (path : List EdgeId) (cursor elapsed_ms scheduled_bytes : ℕ)
    (sample : Bool)
    → AllHealthy nodes
    → reserve_path nodes path cursor elapsed_ms scheduled_bytes sample ≡ returns nodes'
    → AllHealthy nodes'
unfolding reserve_path
reserve_path-AllHealthy nodes nodes' [] cursor at bytes sample v e =
    subst AllHealthy (returns_injective e) v
reserve_path-AllHealthy nodes nodes' (id ∷ path) cursor at bytes sample v e =
    elim (Option-cases (edge_at nodes id)) [
      | inl missing ↦ absurd (cc (rw missing at e))
      | inr (edge, there) ↦
          let reserved = reserve_edge edge cursor at bytes sample in
          reserve_path-AllHealthy (write_edge nodes id.node id.edge reserved.0) nodes' path
            reserved.1 at bytes sample
            (write_edge-AllHealthy nodes v id.node id.edge reserved.0 (
              reserve_edge-IsHealthy edge cursor at bytes sample
                (edge_at-IsHealthy nodes id edge v there)))
            (rw there at e)
    ]

plan_through-AllHealthy :
    (planner planner' : RoutePlanner) (plan : Option (List ChannelId))
    (elapsed_ms scheduled_bytes : ℕ) (sample : Bool) (forced : Option EdgeId)
    → AllHealthy planner.nodes
    → plan_through planner elapsed_ms scheduled_bytes sample forced ≡ returns (planner', plan)
    → AllHealthy planner'.nodes
unfolding plan_through reserve
plan_through-AllHealthy planner planner' plan at bytes sample forced v e =
    let (found, calculated, rest) = >>=-returns (calculate_path planner at bytes forced) _ e in
    elim (Option-cases found) [
      | inl nothing ↦
          let same : planner ≡ planner' = cc (rw nothing at rest) in
          subst (λ (p : RoutePlanner). AllHealthy p.nodes) same v
      | inr (path, is_found) ↦
          let (reserved, by, rest') =
            >>=-returns (reserve planner path at bytes sample) _ (rw is_found at rest) in
          let (channels, named, done) = >>=-returns (channels_of reserved.nodes path) _ rest' in
          let (nodes', written, same) =
            >>=-returns (reserve_path planner.nodes path (mul64 at fixed_one) at bytes sample) _
              by in
          let ends : nodes' ≡ planner'.nodes = cc (same, done) in
          subst AllHealthy ends (
            reserve_path-AllHealthy planner.nodes nodes' path (mul64 at fixed_one) at bytes sample v
              written)
    ]

pub build_route_plan-AllHealthy :
    (planner planner' : RoutePlanner) (plan : Option (List ChannelId))
    (elapsed_ms scheduled_bytes : ℕ) (sample : Bool)
    → AllHealthy planner.nodes
    → build_route_plan planner elapsed_ms scheduled_bytes sample ≡ returns (planner', plan)
    → AllHealthy planner'.nodes
unfolding build_route_plan plan_sampled
build_route_plan-AllHealthy planner planner' plan at bytes false v e =
    plan_through-AllHealthy planner planner' plan at bytes false none v e
build_route_plan-AllHealthy planner planner' plan at bytes true v e =
    let (selected, sampled, rest) = >>=-returns (sampling_edge planner at) _ e in
    elim (Option-cases selected) [
      | inl nothing ↦
          let same : planner ≡ planner' = cc (rw nothing at rest) in
          subst (λ (p : RoutePlanner). AllHealthy p.nodes) same v
      | inr (edge_id, is_selected) ↦
          plan_through-AllHealthy planner planner' plan at bytes true (some edge_id) v
            (rw is_selected at rest)
    ]
