-- ===== src/Routing/Paths/Relaxing.antt =====
-- crates/raynet-core/src/routing.rs: the loops of `calculate_path` return, and keep their entries sound.
use raynet.Prelude.{
  ℕ, suc, ◌+◌, ◌<◌, ◌≡◌, inl, inr, refl, Bool, true, false, ◌||◌, List, [], ◌∷◌, some, ◌==◌, leb,
  ltb, if◌then◌else◌, Bool-cases, arith, subst, All, get_elem?, Outcome, returns, is_some,
}
use raynet.Prelude.Outcomes.{◌>>=◌}
use raynet.Routing.{Edge, EdgeId}
use raynet.Routing.Edges.{edge_allowed}
use raynet.Routing.Feedback.{edge_at}
use raynet.Routing.Paths.{
  never, is_forced, Label, Labels, Search, set_label, candidate_at, relax_edge, relax_edges,
  relax_state, relax_node, relax_nodes,
}
use raynet.Routing.Paths.Labels.{
  HasArrival, set_label-HasArrival, Reached, IsSound, set_label-IsSound,
}

-- Every edge leads to a later node of the graph. Those of the last node are not looked at.
abbrev pub Forward : ℕ → ℕ → List (List Edge) → Type 0
Forward count node [] = Unit {0}
Forward count node (edges ∷ []) = Unit {0}
Forward count node (edges ∷ edges' ∷ nodes) =
    All (λ (edge : Edge). (node < edge.next) × (edge.next < count)) edges
    × Forward count (node + 1) (edges' ∷ nodes)

module _ (nodes : List (List Edge)) (search : Search) where
  -- What a round of the loops leaves behind: sound entries, with none unset.
  pub record Relaxed (labels : Labels) (result : Outcome Labels) : Type 0 where
    pub labels' : Labels
    pub result_eq : result ≡ returns labels'
    pub sound : IsSound nodes search labels'
    pub kept : (n : ℕ) (s : Bool) → HasArrival labels n s → HasArrival labels' n s

  unchanged : (labels : Labels) → IsSound nodes search labels → Relaxed labels (returns labels)
  unchanged labels v = record { labels' = labels; result_eq = refl; sound = v; kept = λ n s h. h }

  -- Two rounds in sequence.
  then-Relaxed :
      (labels : Labels) (result : Outcome Labels) (next : Labels → Outcome Labels)
      → Relaxed labels result
      → ((labels' : Labels)
          → IsSound nodes search labels'
          → ((n : ℕ) (s : Bool) → HasArrival labels n s → HasArrival labels' n s)
          → Relaxed labels' (next labels'))
      → Relaxed labels (result >>= next)
  then-Relaxed labels result next r go =
      let r' = go r.labels' r.sound r.kept in
      record {
        labels' = r'.labels';
        result_eq = rw r.result_eq r'.result_eq;
        sound = r'.sound;
        kept = λ n s h. r'.kept n s (r.kept n s h);
      }

  relax_edge-Relaxed :
      (labels : Labels) (node : ℕ) (state : Bool) (at index : ℕ) (edge : Edge)
      → edge_at nodes (record { node = node; edge = index }) ≡ some edge
      → node < edge.next
      → edge.next < search.count
      → HasArrival labels node state
      → IsSound nodes search labels
      → Relaxed labels (relax_edge search labels node state at index edge)
  unfolding relax_edge
  relax_edge-Relaxed labels node state at index edge found later inside set v =
      let id : EdgeId = record { node = node; edge = index } in
      let state' = state || is_forced search.forced id in
      let candidate = candidate_at search at edge in
      let label : Label = record { arrival = candidate; predecessor = some (state, id) } in
      let in_range : leb search.count edge.next ≡ false = ground arith in
      elim (Bool-cases (edge_allowed edge search.elapsed_ms)) [
        | inr shut ↦ rw shut (unchanged labels v)
        | inl allowed ↦ elim (Bool-cases (ltb candidate (labels edge.next state').arrival)) [
          | inr worse ↦ rw (allowed, in_range, worse) (unchanged labels v)
          | inl better ↦
              let low : candidate < never = ground (arith, v.bounded edge.next state', better) in
              let reached : Reached nodes search labels edge.next state' state id = record {
                edge = edge;
                found = found;
                allowed = allowed;
                leads = refl;
                earlier = later;
                taken = refl;
                from_set = set;
              } in
              rw (allowed, in_range, better)
                (record {
                  labels' = set_label labels edge.next state' label;
                  result_eq = refl;
                  sound =
                      set_label-IsSound nodes search labels edge.next candidate state' state id low
                        reached v;
                  kept = λ n s.
                      set_label-HasArrival labels edge.next state' label n s
                        (λ e. absurd (omega (arith, e)));
                })
        ]
      ]

  relax_edges-Relaxed :
      (labels : Labels) (node : ℕ) (state : Bool) (at index : ℕ) (edges : List Edge)
      → ((i : ℕ) → edge_at nodes (record { node = node; edge = index + i }) ≡ get_elem? edges i)
      → All (λ (edge : Edge). (node < edge.next) × (edge.next < search.count)) edges
      → HasArrival labels node state
      → IsSound nodes search labels
      → Relaxed labels (relax_edges search labels node state at index edges)
  unfolding relax_edges
  relax_edges-Relaxed labels node state at index [] there forward set v = unchanged labels v
  relax_edges-Relaxed labels node state at index (edge ∷ edges) there ((later, inside), forward) set
        v =
      let first : edge_at nodes (record { node = node; edge = index }) ≡ some edge =
        subst (λ (k : ℕ). edge_at nodes (record { node = node; edge = k }) ≡ some edge)
          (omega arith) (there 0) in
      then-Relaxed labels (relax_edge search labels node state at index edge)
        (λ labels'. relax_edges search labels' node state at (index + 1) edges)
        (relax_edge-Relaxed labels node state at index edge first later inside set v)
        (λ labels' v' kept.
          relax_edges-Relaxed labels' node state at (index + 1) edges
            (λ i.
              subst
                (λ (k : ℕ). edge_at nodes (record { node = node; edge = k }) ≡ get_elem? edges i)
                (omega arith) (there (suc i)))
            forward (kept node state set) v')

  module _ (node : ℕ) (edges : List Edge) (here : get_elem? nodes node ≡ some edges)
      (forward : All (λ (edge : Edge). (node < edge.next) × (edge.next < search.count)) edges) where
    relax_state-Relaxed :
        (labels : Labels) (state : Bool)
        → IsSound nodes search labels
        → Relaxed labels (relax_state search labels node state edges)
    unfolding relax_state edge_at
    relax_state-Relaxed labels state v = elim (Bool-cases ((labels node state).arrival == never)) [
      | inl unset ↦ rw unset (unchanged labels v)
      | inr set ↦ rw set (
          relax_edges-Relaxed labels node state (labels node state).arrival 0 edges
            (λ i. let e : 0 + i ≡ i = omega arith in rw (here, edge_at, e)) forward
            (λ e. absurd (ground (arith, e, set))) v)
    ]

    relax_node-Relaxed :
        (labels : Labels)
        → IsSound nodes search labels
        → Relaxed labels (relax_node search labels node edges)
    unfolding relax_node
    relax_node-Relaxed labels v =
        then-Relaxed labels (relax_state search labels node false edges)
          (λ labels'.
            if is_some search.forced
            then relax_state search labels' node true edges
            else returns labels')
          (relax_state-Relaxed labels false v)
          (λ labels' v' kept. elim (Bool-cases (is_some search.forced)) [
            | inl two ↦ rw two (relax_state-Relaxed labels' true v')
            | inr one ↦ rw one (unchanged labels' v')
          ])

  pub relax_nodes-Relaxed :
      (labels : Labels) (node : ℕ) (rest : List (List Edge))
      → ((i : ℕ) → get_elem? nodes (node + i) ≡ get_elem? rest i)
      → Forward search.count node rest
      → IsSound nodes search labels
      → Relaxed labels (relax_nodes search labels node rest)
  unfolding relax_nodes
  relax_nodes-Relaxed labels node [] there forward v = unchanged labels v
  relax_nodes-Relaxed labels node (edges ∷ []) there forward v = unchanged labels v
  relax_nodes-Relaxed labels node (edges ∷ edges' ∷ rest) there (forward, forwards) v =
      let here : get_elem? nodes node ≡ some edges =
        subst (λ (k : ℕ). get_elem? nodes k ≡ some edges) (omega arith) (there 0) in
      then-Relaxed labels (relax_node search labels node edges)
        (λ labels'. relax_nodes search labels' (node + 1) (edges' ∷ rest))
        (relax_node-Relaxed node edges here forward labels v)
        (λ labels' v' kept.
          relax_nodes-Relaxed labels' (node + 1) (edges' ∷ rest)
            (λ i.
              subst (λ (k : ℕ). get_elem? nodes k ≡ get_elem? (edges' ∷ rest) i) (omega arith)
                (there (suc i)))
            forwards v')
