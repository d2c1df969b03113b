-- ===== src/Routing/Paths.antt =====
-- crates/raynet-core/src/routing.rs: `calculate_path`. The arrays `arrival` and `predecessor`, which
-- have an entry for each node and each state, are one function; `count` is their length, and an
-- index beyond it panics. The state tells whether the forced edge has been taken.
pub mod Labels
pub mod Relaxing
pub mod Lowering
pub mod Serving
pub mod Routes
pub mod Travels
use raynet.Prelude.{
  ℕ, zero, suc, ◌+◌, ◌-◌, ◌*◌, ◌^◌, max, Bool, true, false, not, ◌&&◌, ◌||◌, List, [], ◌∷◌, Option,
  none, some, length, ltb, leb, ◌==◌, if◌then◌else◌, is_some, Outcome, returns, panics, add64,
  mul64,
}
use raynet.Prelude.Outcomes.{◌>>=◌}
use raynet.Routing.{Edge, EdgeId, RoutePlanner, fixed_one}
use raynet.Routing.Edges.{edge_allowed, serialization_time, latency}

-- u64::MAX, which stands for no arrival.
abbrev pub never : ℕ
never = 2 ^ 64 - 1

abbrev pub same_edge : EdgeId → EdgeId → Bool
same_edge a b = a.node == b.node && a.edge == b.edge

abbrev pub is_forced : Option EdgeId → EdgeId → Bool
is_forced none edge_id = false
is_forced (some forced) edge_id = same_edge forced edge_id

abbrev pub same_state : Bool → Bool → Bool
same_state true s = s
same_state false s = not s

-- An entry of `arrival` with that of `predecessor`.
pub record Label : Type 0 where
  pub arrival : ℕ
  pub predecessor : Option (Bool × EdgeId)

abbrev pub Labels : Type 0
Labels = ℕ → Bool → Label

unfoldable pub set_label : Labels → ℕ → Bool → Label → Labels
set_label labels node state label n s =
    if n == node && same_state s state then label else labels n s

unfoldable pub start_labels : ℕ → Labels
start_labels elapsed_ms n s = record {
  arrival = if n == 0 && not s then mul64 elapsed_ms fixed_one else never;
  predecessor = none;
}

-- The arguments of `calculate_path`, with the number of nodes.
pub record Search : Type 0 where
  pub count : ℕ
  pub elapsed_ms : ℕ
  pub scheduled_bytes : ℕ
  pub forced : Option EdgeId

module _ (search : Search) where
  unfoldable pub candidate_at : ℕ → Edge → ℕ
  candidate_at node_arrival edge =
      add64
        (add64 (max node_arrival edge.virtual_free_at)
          (serialization_time edge search.scheduled_bytes))
        (latency edge)

  -- One round of the innermost loop.
  unfoldable pub relax_edge : Labels → ℕ → Bool → ℕ → ℕ → Edge → Outcome Labels
  relax_edge labels node state node_arrival index edge =
      let edge_id : EdgeId = record { node = node; edge = index } in
      let next_state = state || is_forced search.forced edge_id in
      let candidate = candidate_at node_arrival edge in
      if not (edge_allowed edge search.elapsed_ms)
      then returns labels
      else if leb search.count edge.next
      then panics
      else if ltb candidate (labels edge.next next_state).arrival
      then returns (
          set_label labels edge.next next_state
            (record { arrival = candidate; predecessor = some (state, edge_id) }))
      else returns labels

  unfoldable pub relax_edges : Labels → ℕ → Bool → ℕ → ℕ → List Edge → Outcome Labels
  relax_edges labels node state node_arrival index [] = returns labels
  relax_edges labels node state node_arrival index (edge ∷ edges) = do
    labels' ← relax_edge labels node state node_arrival index edge
    relax_edges labels' node state node_arrival (index + 1) edges

  -- One round of the loop over the states.
  unfoldable pub relax_state : Labels → ℕ → Bool → List Edge → Outcome Labels
  relax_state labels node state edges =
      let node_arrival = (labels node state).arrival in
      if node_arrival == never
      then returns labels
      else relax_edges labels node state node_arrival 0 edges

  unfoldable pub relax_node : Labels → ℕ → List Edge → Outcome Labels
  relax_node labels node edges = do
    labels' ← relax_state labels node false edges
    if is_some search.forced then relax_state labels' node true edges else returns labels'

  -- The loop over the nodes, the last one excepted, which is the destination.
  unfoldable pub relax_nodes : Labels → ℕ → List (List Edge) → Outcome Labels
  relax_nodes labels node [] = returns labels
  relax_nodes labels node (edges ∷ []) = returns labels
  relax_nodes labels node (edges ∷ edges' ∷ nodes) = do
    labels' ← relax_node labels node edges
    relax_nodes labels' (node + 1) (edges' ∷ nodes)

-- The loop `while node != 0`, from the destination back; `path` grows at its front, and so is not
-- reversed at the end. The fuel is the number of nodes; without fuel the outcome is `panics`.
unfoldable pub walk_back : ℕ → Labels → ℕ → Bool → List EdgeId → Outcome (Option (List EdgeId))
walk_back zero labels node state path = panics
walk_back (suc fuel) labels node state path = elim (node == 0) [
  | true ↦ returns (some path)
  | false ↦ elim (labels node state).predecessor [
    | none ↦ returns none
    | some (previous_state, edge) ↦ walk_back fuel labels edge.node previous_state (edge ∷ path)
  ]
]

-- The part of `calculate_path` behind the loop over the nodes.
unfoldable pub read_path : Search → Labels → Outcome (Option (List EdgeId))
read_path search labels =
    let destination = search.count - 1 in
    let state = is_some search.forced in
    if (labels destination state).arrival == never
    then returns none
    else walk_back search.count labels destination state []

-- A graph of no nodes panics at `arrival[0]`.
unfoldable pub calculate_path :
    RoutePlanner → ℕ → ℕ → Option EdgeId → Outcome (Option (List EdgeId))
calculate_path planner elapsed_ms scheduled_bytes forced =
    let search : Search = record {
      count = length planner.nodes;
      elapsed_ms = elapsed_ms;
      scheduled_bytes = scheduled_bytes;
      forced = forced;
    } in
    if length planner.nodes == 0 then panics else do
      labels ← relax_nodes search (start_labels elapsed_ms) 0 planner.nodes
      read_path search labels
