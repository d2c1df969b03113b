-- ===== src/Routing/Plans.antt =====
-- crates/raynet-core/src/routing.rs: `sampling_edge`, `reserve` and `build_route_plan`.
pub mod Links
pub mod Noting
pub mod Planning
pub mod Bounds
use raynet.Prelude.{
  ℕ, ◌+◌, ◌-◌, Bool, true, false, not, ◌&&◌, ◌||◌, List, [], ◌∷◌, map, Option, none, some, length,
  get_elem?, ltb, leb, ◌==◌, if◌then◌else◌, Outcome, returns, panics, mul64,
}
use raynet.Prelude.Outcomes.{◌>>=◌, unwrap}
use raynet.Machine.Types.{ChannelId}
use raynet.Routing.{Edge, EdgeId, RoutePlanner, fixed_one}
use raynet.Routing.Edges.{edge_allowed, reserve_edge}
use raynet.Routing.Feedback.{write_edge, edge_at}
use raynet.Routing.Paths.{calculate_path}

-- `Option<u64>` is ordered with `None` first.
unfoldable pub sampled_before : Option ℕ → Option ℕ → Bool
sampled_before a none = false
sampled_before none (some b) = true
sampled_before (some a) (some b) = ltb a b

-- The variables of the loops of `sampling_edge`. `reachable` is a function; the selected edge has
-- its `last_sampled` beside it, which does not change meanwhile.
pub record Sampling : Type 0 where
  pub reachable : ℕ → Bool
  pub selected : Option (EdgeId × Option ℕ)

-- `selected.is_none_or(..)`
unfoldable pub is_older : Option ℕ → Option (EdgeId × Option ℕ) → Bool
unfolding sampled_before
is_older last_sampled none = true
is_older last_sampled (some (edge_id, selected)) = sampled_before last_sampled selected

unfoldable pub reach : (ℕ → Bool) → ℕ → ℕ → Bool
reach reachable next n = n == next || reachable n

-- One round of the inner loop, in a graph of `count` nodes.
unfoldable pub sample_edge : ℕ → ℕ → ℕ → ℕ → Edge → Sampling → Outcome Sampling
sample_edge count elapsed_ms node index edge s =
    if not (edge_allowed edge elapsed_ms)
    then returns s
    else if leb count edge.next
    then panics
    else returns (record {
      reachable = reach s.reachable edge.next;
      selected =
          if is_older edge.last_sampled s.selected
          then some (record { node = node; edge = index }, edge.last_sampled)
          else s.selected;
    })

unfoldable pub sample_edges : ℕ → ℕ → ℕ → ℕ → List Edge → Sampling → Outcome Sampling
sample_edges count elapsed_ms node index [] s = returns s
sample_edges count elapsed_ms node index (edge ∷ edges) s = do
  s' ← sample_edge count elapsed_ms node index edge s
  sample_edges count elapsed_ms node (index + 1) edges s'

-- The loop `while node < destination`, which leaves out the last node and those not reached.
unfoldable pub sample_nodes : ℕ → ℕ → ℕ → List (List Edge) → Sampling → Outcome Sampling
sample_nodes count elapsed_ms node [] s = returns s
sample_nodes count elapsed_ms node (edges ∷ []) s = returns s
sample_nodes count elapsed_ms node (edges ∷ edges' ∷ nodes) s = do
  s' ← (if s.reachable node then sample_edges count elapsed_ms node 0 edges s else returns s)
  sample_nodes count elapsed_ms (node + 1) (edges' ∷ nodes) s'

abbrev pub start_sampling : Sampling
start_sampling = record { reachable = λ n. n == 0; selected = none }

abbrev pub selected_edge : Sampling → Option EdgeId
selected_edge s = elim s.selected [ none ↦ none | some (edge_id, last_sampled) ↦ some edge_id ]

-- A graph of no nodes panics at `reachable[0]`.
unfoldable pub sampling_edge : RoutePlanner → ℕ → Outcome (Option EdgeId)
sampling_edge planner elapsed_ms = if length planner.nodes == 0 then panics else do
  s ← sample_nodes (length planner.nodes) elapsed_ms 0 planner.nodes start_sampling
  returns (selected_edge s)

-- The loop of `reserve`.
unfoldable pub reserve_path :
    List (List Edge) → List EdgeId → ℕ → ℕ → ℕ → Bool → Outcome (List (List Edge))
reserve_path nodes [] cursor elapsed_ms scheduled_bytes sample = returns nodes
reserve_path nodes (edge_id ∷ path) cursor elapsed_ms scheduled_bytes sample = do
  edge ← unwrap (edge_at nodes edge_id)
  let reserved = reserve_edge edge cursor elapsed_ms scheduled_bytes sample
  reserve_path (write_edge nodes edge_id.node edge_id.edge reserved.0) path reserved.1 elapsed_ms
      scheduled_bytes sample

unfoldable pub reserve : RoutePlanner → List EdgeId → ℕ → ℕ → Bool → Outcome RoutePlanner
reserve planner path elapsed_ms scheduled_bytes sample = do
  nodes ←
      reserve_path planner.nodes path (mul64 elapsed_ms fixed_one) elapsed_ms scheduled_bytes sample
  returns (record { nodes = nodes })

unfoldable pub channels_of : List (List Edge) → List EdgeId → Outcome (List ChannelId)
channels_of nodes [] = returns []
channels_of nodes (edge_id ∷ path) = do
  edge ← unwrap (edge_at nodes edge_id)
  channels ← channels_of nodes path
  returns (edge.channel_id ∷ channels)

-- The part of `build_route_plan` behind the choice of the forced edge.
unfoldable pub plan_through :
    RoutePlanner → ℕ → ℕ → Bool → Option EdgeId → Outcome (RoutePlanner × Option (List ChannelId))
plan_through planner elapsed_ms scheduled_bytes sample forced = do
  found ← calculate_path planner elapsed_ms scheduled_bytes forced
  elim found [
    | none ↦ returns (planner, none)
    | some edge_ids ↦ do
      planner' ← reserve planner edge_ids elapsed_ms scheduled_bytes sample
      channels ← channels_of planner'.nodes edge_ids
      returns (planner', some channels)
  ]

-- Where no edge is allowed, there is no plan with a sample.
unfoldable pub plan_sampled :
    RoutePlanner → ℕ → ℕ → Option EdgeId → Outcome (RoutePlanner × Option (List ChannelId))
plan_sampled planner elapsed_ms scheduled_bytes none = returns (planner, none)
plan_sampled planner elapsed_ms scheduled_bytes (some edge_id) =
    plan_through planner elapsed_ms scheduled_bytes true (some edge_id)

unfoldable pub build_route_plan :
    RoutePlanner → ℕ → ℕ → Bool → Outcome (RoutePlanner × Option (List ChannelId))
build_route_plan planner elapsed_ms scheduled_bytes sample =
    if sample
    then (sampling_edge planner elapsed_ms >>= plan_sampled planner elapsed_ms scheduled_bytes)
    else plan_through planner elapsed_ms scheduled_bytes false none
