-- ===== src/Routing/Plans/Planning.antt =====
-- crates/raynet-core/src/routing.rs: what `build_route_plan` answers.
use raynet.Prelude.{
  ℕ, ◌+◌, ◌-◌, ◌<◌, ◌≡◌, refl, sym, subst, inl, inr, Bool, true, false, List, [], ◌∷◌, Option, none,
  some, length, ◌==◌, leb, All, arith, Bool-cases, Option-cases, Outcome, returns, mul64,
}
use raynet.Machine.Types.{ChannelId}
use raynet.Routing.{Edge, EdgeId, RoutePlanner, fixed_one}
use raynet.Routing.Edges.{edge_allowed}
use raynet.Routing.Paths.Relaxing.{Forward}
use raynet.Routing.Paths.Routes.{calculate_path-IsRoute}
use raynet.Routing.Plans.{
  Sampling, sample_edge, sample_edges, sample_nodes, sampling_edge, start_sampling, selected_edge,
  reserve, plan_through, plan_sampled, build_route_plan,
}
use raynet.Routing.Plans.Links.{
  Leads, IsPlain, IsRoute-Links, channels_of-Leads, reserve_path-shape,
}
use raynet.Routing.Shape.{Link, shape, length-shape, Forward-shape}

Returns {ℓ} : {A : Type ℓ} → Outcome A → Type ℓ
Returns {A} o = (a : A) × (o ≡ returns a)

sample_edges-Returns :
    (count elapsed_ms node index : ℕ) (edges : List Edge) (s : Sampling)
    → All (λ (edge : Edge). (node < edge.next) × (edge.next < count)) edges
    → Returns (sample_edges count elapsed_ms node index edges s)
unfolding sample_edges sample_edge Returns
sample_edges-Returns count at node index [] s h = (s, refl)
sample_edges-Returns count at node index (edge ∷ edges) s ((later, inside), hs) =
    let in_range : leb count edge.next ≡ false = ground arith in
    elim (Bool-cases (edge_allowed edge at)) [
      | inr shut ↦ rw shut (sample_edges-Returns count at node (index + 1) edges s hs)
      | inl allowed ↦
          rw (allowed, in_range) (sample_edges-Returns count at node (index + 1) edges _ hs)
    ]

sample_nodes-Returns :
    (count elapsed_ms node : ℕ) (nodes : List (List Edge)) (s : Sampling)
    → Forward count node nodes
    → Returns (sample_nodes count elapsed_ms node nodes s)
unfolding sample_nodes Returns
sample_nodes-Returns count at node [] s h = (s, refl)
sample_nodes-Returns count at node (edges ∷ []) s h = (s, refl)
sample_nodes-Returns count at node (edges ∷ edges' ∷ nodes) s (h, hs) =
    elim (Bool-cases (s.reachable node)) [
      | inr skipped ↦ rw skipped (sample_nodes-Returns count at (node + 1) (edges' ∷ nodes) s hs)
      | inl reached ↦
          let (s', e) = sample_edges-Returns count at node 0 edges s h in
          rw (reached, e) (sample_nodes-Returns count at (node + 1) (edges' ∷ nodes) s' hs)
    ]

-- A graph of at least one node whose edges all lead forward, and whose channels each have one end.
pub record IsGraph (nodes : List (List Edge)) : Type 0 where
  pub some_node : 0 < length nodes
  pub forward : Forward (length nodes) 0 nodes
  pub plain : All IsPlain (shape nodes)

abbrev pub LeadsAll : List (List Link) → ℕ → Option (List ChannelId) → Type 0
LeadsAll rows destination none = Unit {0}
LeadsAll rows destination (some plan) = Leads rows 0 destination plan

-- What the planner does with a plan: it keeps the graph, and its channels lead from the first node
-- to the last.
pub record IsPlanned (planner : RoutePlanner)
    (result : Outcome (RoutePlanner × Option (List ChannelId))) : Type 0 where
  pub planner' : RoutePlanner
  pub plan : Option (List ChannelId)
  pub result_eq : result ≡ returns (planner', plan)
  pub shape_eq : shape planner'.nodes ≡ shape planner.nodes
  pub leads : LeadsAll (shape planner.nodes) (length planner.nodes - 1) plan

no_plan : (planner : RoutePlanner) → IsPlanned planner (returns (planner, none))
no_plan planner = record {
  planner' = planner;
  plan = none;
  result_eq = refl;
  shape_eq = refl;
  leads = tt;
}

plan_through-IsPlanned :
    (planner : RoutePlanner) (elapsed_ms scheduled_bytes : ℕ) (sample : Bool)
    (forced : Option EdgeId)
    → IsGraph planner.nodes
    → IsPlanned planner (plan_through planner elapsed_ms scheduled_bytes sample forced)
unfolding plan_through reserve
plan_through-IsPlanned planner at bytes sample forced g =
    let destination = length planner.nodes - 1 in
    elim (calculate_path-IsRoute planner at bytes forced g.some_node g.forward) [
      | inl nothing ↦ rw nothing (no_plan planner)
      | inr (path, found, route, _) ↦
          let links = IsRoute-Links planner.nodes at 0 destination path route in
          let (nodes', reserved, shaped) =
            reserve_path-shape planner.nodes path 0 destination (mul64 at fixed_one) at bytes sample
              links in
          let (channels, named, leads, _) =
            channels_of-Leads nodes' 0 destination path (rw shaped g.plain) (rw shaped links) in
          rw (found, reserved, named)
            (record {
              planner' = record { nodes = nodes' };
              plan = some channels;
              result_eq = refl;
              shape_eq = shaped;
              leads = rw shaped at leads;
            })
    ]

-- On a graph of at least one node whose edges lead forward, and where the edges of a node with the
-- same channel have the same end, planning never panics, with or without a sample: it answers with no plan, or
-- with channels each of which is found at the node to which those before it lead, from the first
-- node to the last. No channel and no end of an edge changes.
pub build_route_plan-IsPlanned :
    (planner : RoutePlanner) (elapsed_ms scheduled_bytes : ℕ) (sample : Bool)
    → IsGraph planner.nodes
    → IsPlanned planner (build_route_plan planner elapsed_ms scheduled_bytes sample)
unfolding build_route_plan sampling_edge plan_sampled Returns
build_route_plan-IsPlanned planner at bytes false g =
    plan_through-IsPlanned planner at bytes false none g
build_route_plan-IsPlanned planner at bytes true g =
    let more : (length planner.nodes == 0) ≡ false = ground (arith, g.some_node) in
    let (s, e) =
      sample_nodes-Returns (length planner.nodes) at 0 planner.nodes start_sampling g.forward in
    elim (Option-cases (selected_edge s)) [
      | inl nothing ↦ rw (more, e, nothing) (no_plan planner)
      | inr (edge_id, selected) ↦
          rw (more, e, selected) (plan_through-IsPlanned planner at bytes true (some edge_id) g)
    ]

-- The graph is one as long as the shape is kept.
pub IsGraph-shape :
    (nodes nodes' : List (List Edge)) → shape nodes' ≡ shape nodes → IsGraph nodes → IsGraph nodes'
IsGraph-shape nodes nodes' e g =
    let size : length nodes ≡ length nodes' = length-shape nodes nodes' (sym e) in
    record {
      some_node = rw size at g.some_node;
      forward =
          subst (λ (n : ℕ). Forward n 0 nodes') size
            (Forward-shape (length nodes) 0 nodes nodes' (sym e) g.forward);
      plain = rw e g.plain;
    }
