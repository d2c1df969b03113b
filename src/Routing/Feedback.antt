-- ===== src/Routing/Feedback.antt =====
-- crates/raynet-core/src/routing.rs: `note_local_send_failure` and `note_feedback`.
use raynet.Prelude.{
  ℕ, ◌+◌, Bool, true, false, ◌&&◌, ◌||◌, List, [], ◌∷◌, Option, none, some, ◌==◌, if◌then◌else◌,
  get_elem?, set, Outcome, returns, panics,
}
use raynet.Machine.Types.{ChannelId}
use raynet.Routing.{Edge, EdgeId, RoutePlanner}
use raynet.Routing.Edges.{fail_edge, observe_edge, recover_edge, is_recent}

-- `iter().position(|edge| edge.channel_id == channel_id)`, with the edge that is found.
unfoldable pub position : ChannelId → ℕ → List Edge → Option (ℕ × Edge)
position channel_id index [] = none
position channel_id index (edge ∷ edges) =
    if edge.channel_id == channel_id
    then some (index, edge)
    else position channel_id (index + 1) edges

-- A write to the edge `nodes[node][edge]`.
unfoldable pub write_edge : List (List Edge) → ℕ → ℕ → Edge → List (List Edge)
write_edge nodes node index edge = elim (get_elem? nodes node) [
  | none ↦ nodes
  | some edges ↦ set nodes node (set edges index edge)
]

-- `self.nodes[edge.node][edge.edge]`
unfoldable pub edge_at : List (List Edge) → EdgeId → Option Edge
edge_at nodes edge_id = elim (get_elem? nodes edge_id.node) [
  | none ↦ none
  | some edges ↦ get_elem? edges edge_id.edge
]

-- The edge with a channel at a node; `none` where the code panics.
unfoldable pub find_edge : List (List Edge) → ℕ → ChannelId → Option (ℕ × Edge)
find_edge nodes node channel_id = elim (get_elem? nodes node) [
  | none ↦ none
  | some edges ↦ position channel_id 0 edges
]

unfoldable pub note_local_send_failure : RoutePlanner → ChannelId → ℕ → Outcome RoutePlanner
note_local_send_failure planner channel_id elapsed_ms =
    elim (find_edge planner.nodes 0 channel_id) [
      | none ↦ panics
      | some (index, edge) ↦
          returns (record { nodes = write_edge planner.nodes 0 index (fail_edge edge elapsed_ms) })
    ]

-- The variables of the loop of `note_feedback`.
pub record Noted : Type 0 where
  pub nodes : List (List Edge)
  pub first : Option EdgeId
  pub accepted_first : Bool

unfoldable pub get_or_insert : Option EdgeId → EdgeId → Option EdgeId
get_or_insert none edge_id = some edge_id
get_or_insert (some first) edge_id = some first

abbrev pub is_none : Option EdgeId → Bool
is_none none = true
is_none (some first) = false

unfoldable pub note_plan : List ChannelId → ℕ → Bool → ℕ → Noted → Outcome Noted
note_plan [] observation_at success node noted = returns noted
note_plan (channel ∷ plan) observation_at success node noted =
    elim (find_edge noted.nodes node channel) [
      | none ↦ panics
      | some (index, edge) ↦ note_plan plan observation_at success edge.next (record {
        nodes = write_edge noted.nodes node index (observe_edge edge observation_at success);
        first = get_or_insert noted.first (record { node = node; edge = index });
        accepted_first =
            noted.accepted_first
            || (is_recent edge.last_observation_at observation_at && is_none noted.first);
      })
    ]

-- The write to the first edge, which the loop has found.
unfoldable pub recover_first : List (List Edge) → EdgeId → List (List Edge)
recover_first nodes first = elim (get_elem? nodes first.node) [
  | none ↦ nodes
  | some edges ↦ elim (get_elem? edges first.edge) [
    | none ↦ nodes
    | some edge ↦ write_edge nodes first.node first.edge (recover_edge edge)
  ]
]

unfoldable pub after_plan : Bool → Noted → Outcome RoutePlanner
after_plan success noted =
    if success && noted.accepted_first
    then elim noted.first [
      | none ↦ panics
      | some first ↦ returns (record { nodes = recover_first noted.nodes first })
    ]
    else returns (record { nodes = noted.nodes })

unfoldable pub note_feedback : RoutePlanner → List ChannelId → ℕ → Bool → Outcome RoutePlanner
note_feedback planner plan observation_at success =
    elim (note_plan plan observation_at success 0
      (record { nodes = planner.nodes; first = none; accepted_first = false })) [
        | panics ↦ panics
        | returns noted ↦ after_plan success noted
      ]
