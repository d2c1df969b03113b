-- ===== src/Routing/Paths/Routes.antt =====
-- crates/raynet-core/src/routing.rs: `calculate_path` finds routes of the graph.
use raynet.Prelude.{
  ℕ, zero, suc, ◌+◌, ◌-◌, ◌<◌, ◌≡◌, ◌⊎◌, inl, inr, refl, Bool, true, false, ◌||◌, List, [], ◌∷◌,
  Option, none, some, ◌==◌, Bool-cases, Option-cases, arith, subst, sym, ap, ◌∙◌, length, returns,
  is_some,
}
use raynet.Routing.{Edge, EdgeId, RoutePlanner}
use raynet.Routing.Edges.{edge_allowed}
use raynet.Routing.Feedback.{edge_at}
use raynet.Routing.Paths.{
  relax_nodes, never, is_forced, Labels, Search, start_labels, walk_back, read_path, calculate_path,
}
use raynet.Routing.Paths.Labels.{HasArrival, Reached, Explained, IsSound, start_labels-IsSound}
use raynet.Routing.Paths.Relaxing.{Forward, relax_nodes-Relaxed}

-- A list of edges that starts at a node and leads to the destination, by edges that are allowed.
abbrev pub IsRoute : List (List Edge) → ℕ → ℕ → ℕ → List EdgeId → Type 0
IsRoute nodes elapsed_ms node destination [] = node ≡ destination
IsRoute nodes elapsed_ms node destination (edge_id ∷ path) =
    (edge_id.node ≡ node)
    × ((edge : Edge) × (edge_at nodes edge_id ≡ some edge)
        × (edge_allowed edge elapsed_ms ≡ true)
        × IsRoute nodes elapsed_ms edge.next destination path)

-- Whether a path takes the forced edge.
abbrev pub takes : Option EdgeId → List EdgeId → Bool
takes forced [] = false
takes forced (edge_id ∷ path) = is_forced forced edge_id || takes forced path

or_assoc : (a b c : Bool) → (a || (b || c)) ≡ ((a || b) || c)
or_assoc true b c = refl
or_assoc false b c = refl

or_false : (a : Bool) → (a || false) ≡ a
or_false true = refl
or_false false = refl

module _ (nodes : List (List Edge)) (search : Search) where
  -- From a node that is set the walk ends at the start, with a route; and it takes the forced edge
  -- exactly where the state says so.
  walk_back-IsRoute :
      (labels : Labels) (fuel node destination : ℕ) (state : Bool) (path : List EdgeId)
      → IsSound nodes search labels
      → HasArrival labels node state
      → node < fuel
      → IsRoute nodes search.elapsed_ms node destination path
      → (path' : List EdgeId) × (walk_back fuel labels node state path ≡ returns (some path'))
        × IsRoute nodes search.elapsed_ms 0 destination path'
        × (takes search.forced path' ≡ (state || takes search.forced path))
  unfolding walk_back
  walk_back-IsRoute labels zero node destination state path v set h r = absurd (omega arith)
  walk_back-IsRoute labels (suc fuel) node destination state path v set h r =
      elim (Option-cases (labels node state).predecessor) [
        | inl start ↦
            let explained : Explained nodes search labels node state none =
              subst (Explained nodes search labels node state) start (v.explained node state) in
            let (first, plain) = explained set in
            let at_start : (node == 0) ≡ true = ground (arith, first) in
            (
              path,
              rw (at_start, walk_back),
              subst (λ (n : ℕ). IsRoute nodes search.elapsed_ms n destination path) first r,
              rw plain,
            )
        | inr ((previous, edge_id), from) ↦
            let p : Reached nodes search labels node state previous edge_id =
              subst (Explained nodes search labels node state) from (v.explained node state) in
            let onward : (node == 0) ≡ false = ground (arith, p.earlier) in
            let r' : IsRoute nodes search.elapsed_ms p.edge.next destination path =
              subst (λ (n : ℕ). IsRoute nodes search.elapsed_ms n destination path) (sym p.leads)
                r in
            let (path', e, route, taken) =
              walk_back-IsRoute labels fuel edge_id.node destination previous (edge_id ∷ path) v
                p.from_set (omega (arith, p.earlier)) (refl, (p.edge, p.found, p.allowed, r')) in
            (
              path',
              rw (onward, walk_back, from) e,
              route,
              taken
                  ∙ or_assoc previous (is_forced search.forced edge_id) (takes search.forced path)
                  ∙ ap (λ s. s || takes search.forced path) (sym p.taken),
            )
      ]

-- The search returns: where no entry of the destination is set in the end there is no path, and
-- otherwise there is a route.
pub calculate_path-Searched :
    (planner : RoutePlanner) (elapsed_ms scheduled_bytes : ℕ) (forced : Option EdgeId)
    → 0 < length planner.nodes
    → Forward (length planner.nodes) 0 planner.nodes
    → let search : Search = record {
      count = length planner.nodes;
      elapsed_ms = elapsed_ms;
      scheduled_bytes = scheduled_bytes;
      forced = forced;
    } in
      let destination = length planner.nodes - 1 in
      let result = calculate_path planner elapsed_ms scheduled_bytes forced in
      (labels : Labels) × (relax_nodes search (start_labels elapsed_ms) 0 planner.nodes
        ≡ returns labels)
      × (((labels destination (is_some forced)).arrival ≡ never) × (result ≡ returns none)
          ⊎ ((path : List EdgeId) × (result ≡ returns (some path))
              × IsRoute planner.nodes elapsed_ms 0 destination path
              × (takes forced path ≡ is_some forced)))
unfolding calculate_path read_path
calculate_path-Searched planner elapsed_ms scheduled_bytes forced some_node forward =
    let search : Search = record {
      count = length planner.nodes;
      elapsed_ms = elapsed_ms;
      scheduled_bytes = scheduled_bytes;
      forced = forced;
    } in
    let destination = length planner.nodes - 1 in
    let more : (length planner.nodes == 0) ≡ false = ground arith in
    let r =
      relax_nodes-Relaxed planner.nodes search (start_labels elapsed_ms) 0 planner.nodes
        (λ i. let e : 0 + i ≡ i = omega arith in rw e) forward
        (start_labels-IsSound planner.nodes search elapsed_ms) in
    (
      r.labels',
      r.result_eq,
      elim (Bool-cases ((r.labels' destination (is_some forced)).arrival == never)) [
        | inl unset ↦ inl (ground (arith, unset), rw (more, r.result_eq, unset))
        | inr set ↦
            let (path, e, route, taken) =
              walk_back-IsRoute planner.nodes search r.labels' (length planner.nodes) destination
                destination (is_some forced) [] r.sound (λ e. absurd (ground (arith, e, set)))
                (omega arith) refl in
            inr (path, rw (more, r.result_eq, set) e, route, taken ∙ or_false (is_some forced))
      ],
    )

-- Where every edge leads to a later node, the search ends without a panic, its loop back to the
-- start included; and a path that it finds is a route of the graph from the first node to the last,
-- by edges that are allowed at that time, through the forced edge if there is one.
pub calculate_path-IsRoute :
    (planner : RoutePlanner) (elapsed_ms scheduled_bytes : ℕ) (forced : Option EdgeId)
    → 0 < length planner.nodes
    → Forward (length planner.nodes) 0 planner.nodes
    → (calculate_path planner elapsed_ms scheduled_bytes forced ≡ returns none)
      ⊎ ((path : List EdgeId) × (calculate_path planner elapsed_ms scheduled_bytes forced
            ≡ returns (some path))
          × IsRoute planner.nodes elapsed_ms 0 (length planner.nodes - 1) path
          × (takes forced path ≡ is_some forced))
calculate_path-IsRoute planner elapsed_ms scheduled_bytes forced some_node forward =
    let (labels, _, found) =
      calculate_path-Searched planner elapsed_ms scheduled_bytes forced some_node forward in
    elim found [ inl (_, nothing) ↦ inl nothing | inr there ↦ inr there ]
