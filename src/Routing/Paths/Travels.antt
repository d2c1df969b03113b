-- ===== src/Routing/Paths/Travels.antt =====
-- crates/raynet-core/src/routing.rs: `calculate_path` finds a path where there is one.
use raynet.Prelude.{
  subst, ℕ, zero, suc, ◌+◌, ◌-◌, ◌*◌, ◌<◌, ◌≤◌, ◌≡◌, refl, Bool, true, false, ◌||◌, List, [], ◌∷◌,
  Option, none, some, max, is_some, Bool-cases, inl, inr, arith, length, get_elem?, returns,
}
use raynet.Prelude.Outcomes.{Ensures-returns}
use raynet.Routing.{Edge, EdgeId, RoutePlanner, fixed_one}
use raynet.Routing.Edges.{edge_allowed, serialization_time, latency}
use raynet.Routing.Feedback.{edge_at}
use raynet.Routing.Paths.{
  never, is_forced, Labels, Search, start_labels, candidate_at, relax_nodes, calculate_path,
}
use raynet.Routing.Paths.Relaxing.{Forward}
use raynet.Routing.Paths.Routes.{IsRoute, takes, calculate_path-Searched}
use raynet.Routing.Paths.Lowering.{IsLowered}
use raynet.Routing.Paths.Serving.{StateServed, NodeServed, AllServed, relax_nodes-Serves}
use raynet.Routing.Shape.{edge_at-rows}

-- When a packet that takes the edge at a time is at its other end, without a bound on the numbers.
abbrev pub arrival_behind : Search → ℕ → Edge → ℕ
arrival_behind search t edge =
    max t edge.virtual_free_at + serialization_time edge search.scheduled_bytes + latency edge

is_forced-some :
    (forced : Option EdgeId) (edge_id : EdgeId)
    → is_forced forced edge_id ≡ true
    → is_some forced ≡ true
is_forced-some none edge_id e = absurd (cc e)
is_forced-some (some forced) edge_id e = refl

start_labels-start :
    (elapsed_ms : ℕ) → (start_labels elapsed_ms 0 false).arrival ≤ elapsed_ms * fixed_one
unfolding start_labels
start_labels-start at = omega arith

module _ (nodes : List (List Edge)) (search : Search) where
  -- A packet can be at a node at a time, with or without the forced edge behind it: it starts at the
  -- first node, and takes edges that are allowed, none of them from the last node. No time reaches
  -- the number that stands for no arrival.
  pub data Travels : ℕ → Bool → ℕ → Type 0 where
    departs :
        search.elapsed_ms * fixed_one < never → Travels 0 false (search.elapsed_ms * fixed_one)
    takes_edge :
        (node i t : ℕ) (state : Bool) (edge : Edge)
        → Travels node state t
        → node + 1 < length nodes
        → edge_at nodes (record { node = node; edge = i }) ≡ some edge
        → edge_allowed edge search.elapsed_ms ≡ true
        → arrival_behind search t edge < never
        → Travels edge.next
            (state || is_forced search.forced (record { node = node; edge = i }))
            (arrival_behind search t edge)

  Travels-forced :
      (node t : ℕ) (state : Bool)
      → Travels node state t
      → state ≡ true
      → is_some search.forced ≡ true
  Travels-forced _ _ _ (departs h) e = absurd (cc e)
  Travels-forced _ _ _ (takes_edge node i t state edge before more found allowed h) e =
      elim (Bool-cases state) [
        | inl taken ↦ Travels-forced node t state before taken
        | inr not_yet ↦
            is_forced-some search.forced (record { node = node; edge = i }) (rw not_yet at e)
      ]

  Travels-never : (node t : ℕ) (state : Bool) → Travels node state t → t < never
  Travels-never _ _ _ (departs h) = h
  Travels-never _ _ _ (takes_edge node i t state edge before more found allowed h) = h

  candidate_at-le :
      (a t : ℕ) (edge : Edge)
      → a ≤ t
      → arrival_behind search t edge < never
      → candidate_at search a edge ≤ arrival_behind search t edge
  unfolding candidate_at
  candidate_at-le a t edge h below = ground (arith, h, below)

  AllServed-node :
      (labels : Labels) (node k : ℕ) (rest : List (List Edge)) (edges : List Edge)
      → get_elem? rest k ≡ some edges
      → k + 1 < length rest
      → AllServed search labels node rest
      → NodeServed search labels (node + k) edges
  AllServed-node labels node k [] edges e h v = absurd (cc e)
  AllServed-node labels node zero (x ∷ []) edges e h v = absurd (omega arith)
  AllServed-node labels node (suc k) (x ∷ []) edges e h v = absurd (cc e)
  AllServed-node labels node zero (x ∷ y ∷ rest) edges e h (v, vs) =
      let same : x ≡ edges = cc e in
      let here : node ≡ node + 0 = omega arith in rw (← same, ← here) v
  AllServed-node labels node (suc k) (x ∷ y ∷ rest) edges e h (v, vs) =
      let there : node + 1 + k ≡ node + suc k = omega arith in
      rw (← there) (AllServed-node labels (node + 1) k (y ∷ rest) edges e (omega arith) vs)

  NodeServed-state :
      (labels : Labels) (node : ℕ) (edges : List Edge) (state : Bool)
      → NodeServed search labels node edges
      → (state ≡ true → is_some search.forced ≡ true)
      → StateServed search labels node state edges
  NodeServed-state labels node edges false v h = v.0
  NodeServed-state labels node edges true v h = v.1 (h refl)

  -- No entry is later than any packet.
  Travels-arrival :
      (labels : Labels) (node t : ℕ) (state : Bool)
      → AllServed search labels 0 nodes
      → (labels 0 false).arrival ≤ search.elapsed_ms * fixed_one
      → Travels node state t
      → (labels node state).arrival ≤ t
  Travels-arrival labels _ _ _ v first (departs h) = first
  Travels-arrival labels _ _ _ v first
        (takes_edge node i t state edge before more found allowed h) =
      let early = Travels-arrival labels node t state v first before in
      let bounded = Travels-never node t state before in
      let (edges, there, at_i) = edge_at-rows nodes (record { node = node; edge = i }) edge found in
      let same : 0 + node ≡ node = omega arith in
      let served : NodeServed search labels node edges =
        subst (λ (n : ℕ). NodeServed search labels n edges) same
          (AllServed-node labels 0 node nodes edges there more v) in
      let serves =
        NodeServed-state labels node edges state served (Travels-forced node t state before)
          (λ e. absurd (omega (arith, e, early, bounded))) i edge at_i allowed in
      let same_edge : 0 + i ≡ i = omega arith in
      omega
        (arith, candidate_at-le (labels node state).arrival t edge early h, rw same_edge at serves)

-- Where some packet can be at the last node, with the forced edge behind it if there is one, and none
-- of the times on its way reaches 2^64 - 1, the search finds a path; and it is a route of the graph
-- from the first node to the last, by edges that are allowed, through the forced edge. Every edge
-- leads to a later node.
pub calculate_path-Finds :
    (planner : RoutePlanner) (elapsed_ms scheduled_bytes t : ℕ) (forced : Option EdgeId)
    → 0 < length planner.nodes
    → Forward (length planner.nodes) 0 planner.nodes
    → Travels planner.nodes
        (record {
          count = length planner.nodes;
          elapsed_ms = elapsed_ms;
          scheduled_bytes = scheduled_bytes;
          forced = forced;
        })
        (length planner.nodes - 1)
        (is_some forced)
        t
    → (path : List EdgeId) × (calculate_path planner elapsed_ms scheduled_bytes forced
        ≡ returns (some path))
      × IsRoute planner.nodes elapsed_ms 0 (length planner.nodes - 1) path
      × (takes forced path ≡ is_some forced)
calculate_path-Finds planner at bytes t forced some_node forward travels =
    let nodes = planner.nodes in
    let search : Search = record {
      count = length nodes;
      elapsed_ms = at;
      scheduled_bytes = bytes;
      forced = forced;
    } in
    let (labels, relaxed, found) =
      calculate_path-Searched planner at bytes forced some_node forward in
    elim found [
      | inr there ↦ there
      | inl (unset, _) ↦
          let (lowered, served) =
            Ensures-returns
              (λ (l : Labels). IsLowered 0 (start_labels at) l × AllServed search l 0 nodes)
              (relax_nodes search (start_labels at) 0 nodes) labels relaxed
              (relax_nodes-Serves search (start_labels at) 0 nodes forward) in
          let early =
            Travels-arrival nodes search labels (length nodes - 1) t (is_some forced) served
              (omega (arith, lowered.lower 0 false, start_labels-start at)) travels in
          absurd (
            omega (
              arith,
              early,
              unset,
              Travels-never nodes search (length nodes - 1) t (is_some forced) travels,
            ))
    ]
