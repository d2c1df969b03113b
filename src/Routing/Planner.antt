-- ===== src/Routing/Planner.antt =====
-- crates/raynet-core/src/routing.rs: the planner as it is used, in any order.
use raynet.Prelude.{
  ℕ, ◌≡◌, Bool, false, Option, ◌&&◌, ◌||◌, List, [], ◌∷◌, none, All, subst, returns,
  returns_injective, Outcome-cases, Bool-cases, Option-cases, inl, inr, get_elem?,
}
use mathlib.Core.List.{map}
use raynet.Machine.Types.{ChannelId}
use raynet.Routing.{
  Edge, EdgeId, RouteEdge, RouteNode, RouteConfig, RoutePlanner, new_edge, new_planner,
}
use raynet.Routing.Edges.{fail_edge, observe_edge, recover_edge, is_recent}
use raynet.Routing.Feedback.{
  find_edge, write_edge, note_local_send_failure, Noted, get_or_insert, is_none, note_plan,
  recover_first, after_plan, note_feedback,
}
use raynet.Routing.Plans.{build_route_plan}
use raynet.Routing.Plans.Bounds.{build_route_plan-AllHealthy}
use raynet.Routing.Health.{
  IsHealthy, AllHealthy, new_edge-IsHealthy, fail_edge_bounds, observe_edge-IsHealthy,
  recover_edge-IsHealthy, write_edge-AllHealthy, find_edge-IsHealthy, get-All,
}

new_edges-IsHealthy : (edges : List RouteEdge) → All IsHealthy (map new_edge edges)
new_edges-IsHealthy [] = tt
new_edges-IsHealthy (edge ∷ edges) = (new_edge-IsHealthy edge, new_edges-IsHealthy edges)

new_nodes-AllHealthy :
    (nodes : List RouteNode) → AllHealthy (map (λ node. map new_edge node.edges) nodes)
new_nodes-AllHealthy [] = tt
new_nodes-AllHealthy (node ∷ nodes) = (new_edges-IsHealthy node.edges, new_nodes-AllHealthy nodes)

note_local_send_failure-AllHealthy :
    (planner planner' : RoutePlanner) (channel_id : ChannelId) (elapsed_ms : ℕ)
    → AllHealthy planner.nodes
    → note_local_send_failure planner channel_id elapsed_ms ≡ returns planner'
    → AllHealthy planner'.nodes
unfolding note_local_send_failure
note_local_send_failure-AllHealthy planner planner' c at v e =
    elim (Option-cases (find_edge planner.nodes 0 c)) [
      | inl missing ↦ absurd (cc (rw (missing, note_local_send_failure) at e))
      | inr ((i, edge), found) ↦
          let healthy = find_edge-IsHealthy planner.nodes v 0 c i edge found in
          let written =
            write_edge-AllHealthy planner.nodes v 0 i (fail_edge edge at)
              (fail_edge_bounds edge at healthy) in
          subst (λ p. AllHealthy p.nodes)
            (returns_injective (rw (found, note_local_send_failure) at e)) written
    ]

note_plan-AllHealthy :
    (plan : List ChannelId) (at : ℕ) (success : Bool) (node : ℕ) (noted noted' : Noted)
    → AllHealthy noted.nodes
    → note_plan plan at success node noted ≡ returns noted'
    → AllHealthy noted'.nodes
unfolding note_plan
note_plan-AllHealthy [] at success node noted noted' v e =
    subst (λ n. AllHealthy n.nodes) (returns_injective e) v
note_plan-AllHealthy (c ∷ plan) at success node noted noted' v e =
    elim (Option-cases (find_edge noted.nodes node c)) [
      | inl missing ↦ absurd (cc (rw (missing, note_plan) at e))
      | inr ((i, edge), found) ↦
          let healthy = find_edge-IsHealthy noted.nodes v node c i edge found in
          note_plan-AllHealthy plan at success edge.next
            (record {
              nodes = write_edge noted.nodes node i (observe_edge edge at success);
              first = get_or_insert noted.first (record { node = node; edge = i });
              accepted_first =
                  noted.accepted_first
                  || (is_recent edge.last_observation_at at && is_none noted.first);
            })
            noted'
            (write_edge-AllHealthy noted.nodes v node i (observe_edge edge at success)
              (observe_edge-IsHealthy edge at success healthy))
            (rw (found, note_plan) at e)
    ]

recover_first-AllHealthy :
    (nodes : List (List Edge)) (first : EdgeId)
    → AllHealthy nodes
    → AllHealthy (recover_first nodes first)
unfolding recover_first
recover_first-AllHealthy nodes first v = elim (Option-cases (get_elem? nodes first.node)) [
  | inl none_there ↦ rw (none_there, recover_first) v
  | inr (edges, there) ↦ elim (Option-cases (get_elem? edges first.edge)) [
    | inl no_edge ↦ rw (there, recover_first, no_edge) v
    | inr (edge, found) ↦
        let row = get-All (λ es. All IsHealthy es) nodes first.node edges there v in
        let healthy = get-All IsHealthy edges first.edge edge found row in
        rw (there, recover_first, found)
          (write_edge-AllHealthy nodes v first.node first.edge (recover_edge edge)
            (recover_edge-IsHealthy edge healthy))
  ]
]

after_plan-AllHealthy :
    (success : Bool) (noted : Noted) (planner' : RoutePlanner)
    → AllHealthy noted.nodes
    → after_plan success noted ≡ returns planner'
    → AllHealthy planner'.nodes
unfolding after_plan
after_plan-AllHealthy success noted planner' v e =
    elim (Bool-cases (success && noted.accepted_first)) [
      | inr plain ↦
          subst (λ p. AllHealthy p.nodes) (returns_injective (rw (plain, after_plan) at e)) v
      | inl recovers ↦ elim (Option-cases noted.first) [
        | inl missing ↦ absurd (cc (rw (recovers, missing, after_plan) at e))
        | inr (first, found) ↦
            subst (λ p. AllHealthy p.nodes)
              (returns_injective (rw (recovers, found, after_plan) at e))
              (recover_first-AllHealthy noted.nodes first v)
      ]
    ]

-- One call that returns.
pub data Note (planner planner' : RoutePlanner) : Type 0 where
  failure :
      (channel_id : ChannelId) (elapsed_ms : ℕ)
      → note_local_send_failure planner channel_id elapsed_ms ≡ returns planner'
      → Note planner planner'
  feedback :
      (plan : List ChannelId) (observation_at : ℕ) (success : Bool)
      → note_feedback planner plan observation_at success ≡ returns planner'
      → Note planner planner'
  planning :
      (elapsed_ms scheduled_bytes : ℕ) (sample : Bool) (plan : Option (List ChannelId))
      → build_route_plan planner elapsed_ms scheduled_bytes sample ≡ returns (planner', plan)
      → Note planner planner'

-- The planners that the calls reach.
pub data Noticed (config : RouteConfig) : RoutePlanner → Type 0 where
  unnoticed : Noticed config (new_planner config)
  note :
      (planner planner' : RoutePlanner)
      → Noticed config planner
      → Note planner planner'
      → Noticed config planner'

note_feedback-AllHealthy :
    (planner planner' : RoutePlanner) (plan : List ChannelId) (at : ℕ) (success : Bool)
    → AllHealthy planner.nodes
    → note_feedback planner plan at success ≡ returns planner'
    → AllHealthy planner'.nodes
unfolding note_feedback
note_feedback-AllHealthy planner planner' plan at success v e =
    elim (Outcome-cases (note_plan plan at success 0 start)) [
      | inl panicked ↦ absurd (cc (rw (panicked, note_feedback) at e))
      | inr (noted, done) ↦
          after_plan-AllHealthy success noted planner'
            (note_plan-AllHealthy plan at success 0 start noted v done)
            (rw (done, note_feedback) at e)
    ]
  where
    start : Noted
    start = record { nodes = planner.nodes; first = none; accepted_first = false }

-- However many plans a planner makes, and however many send failures and feedbacks it is told of, in
-- any order, about whatever channels it knows: the loss of every edge is at most 65535, its retry delay lies between 50 and
-- 200 ms, and its capacity is not zero.
pub Noticed-AllHealthy :
    (config : RouteConfig) (planner : RoutePlanner)
    → Noticed config planner
    → AllHealthy planner.nodes
unfolding new_planner
Noticed-AllHealthy config planner unnoticed = new_nodes-AllHealthy config.graph.nodes
Noticed-AllHealthy config planner' (note planner _ reached (failure c at e)) =
    note_local_send_failure-AllHealthy planner planner' c at
      (Noticed-AllHealthy config planner reached) e
Noticed-AllHealthy config planner' (note planner _ reached (feedback plan at success e)) =
    note_feedback-AllHealthy planner planner' plan at success
      (Noticed-AllHealthy config planner reached) e
Noticed-AllHealthy config planner' (note planner _ reached (planning at bytes sample plan e)) =
    build_route_plan-AllHealthy planner planner' plan at bytes sample
      (Noticed-AllHealthy config planner reached) e
