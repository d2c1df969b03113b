-- ===== src/Routing/Paths/Serving.antt =====
-- crates/raynet-core/src/routing.rs: the edges that the loops over the states and the nodes have
-- served.
use raynet.Prelude.{
  ℕ, ◌+◌, ◌<◌, ◌≡◌, refl, Bool, true, false, List, [], ◌∷◌, ◌==◌, if◌then◌else◌, is_some,
  Bool-cases, inl, inr, arith, All, returns,
}
use raynet.Prelude.Outcomes.{Ensures, Ensures-bind, Ensures-imp}
use raynet.Routing.{Edge}
use raynet.Routing.Paths.{never, Labels, Search, relax_edges, relax_state, relax_node, relax_nodes}
use raynet.Routing.Paths.Labels.{HasArrival}
use raynet.Routing.Paths.Relaxing.{Forward}
use raynet.Routing.Paths.Lowering.{
  IsLowered, IsLowered-refl, IsLowered-trans, ServesAll, EdgesServed, Serves-lowered,
  relax_edges-Serves,
}

module _ (search : Search) where
  -- The edges of a node are served from its own entry, if that is set.
  abbrev pub StateServed : Labels → ℕ → Bool → List Edge → Type 0
  StateServed labels node state edges =
      HasArrival labels node state
      → ServesAll search labels node state (labels node state).arrival 0 edges

  StateServed-lowered :
      (bound : ℕ) (labels labels' : Labels) (node : ℕ) (state : Bool) (edges : List Edge)
      → node < bound
      → IsLowered bound labels labels'
      → StateServed labels node state edges
      → StateServed labels' node state edges
  StateServed-lowered bound labels labels' node state edges below l h set i edge e =
      let same = l.frame node state below in
      rw same (
        Serves-lowered search bound labels labels' node state (labels node state).arrival (0 + i)
          edge l (h (rw same at set) i edge e))

  relax_state-Serves :
      (labels : Labels) (node : ℕ) (state : Bool) (edges : List Edge)
      → All (λ (edge : Edge). (node < edge.next) × (edge.next < search.count)) edges
      → Ensures
          (λ (labels' : Labels).
            IsLowered (node + 1) labels labels' × StateServed labels' node state edges)
          (relax_state search labels node state edges)
  unfolding relax_state
  relax_state-Serves labels node state edges forward =
      elim (Bool-cases ((labels node state).arrival == never)) [
        | inl unset ↦
            rw unset (IsLowered-refl (node + 1) labels, λ set. absurd (set (ground (arith, unset))))
        | inr set ↦ rw set (
            Ensures-imp (EdgesServed search labels node state (labels node state).arrival 0 edges)
              (λ (labels' : Labels).
                IsLowered (node + 1) labels labels' × StateServed labels' node state edges)
              (relax_edges search labels node state (labels node state).arrival 0 edges)
              (λ labels' x. (x.0, λ _. rw (x.0.frame node state (omega arith)) x.1))
              (relax_edges-Serves search labels node state (labels node state).arrival 0 edges
                forward))
      ]

  abbrev pub NodeServed : Labels → ℕ → List Edge → Type 0
  NodeServed labels node edges =
      StateServed labels node false edges
      × (is_some search.forced ≡ true → StateServed labels node true edges)

  abbrev NodeLowered : Labels → ℕ → List Edge → Labels → Type 0
  NodeLowered labels node edges labels' =
      IsLowered (node + 1) labels labels' × NodeServed labels' node edges

  -- The second round of the loop over the states, if there is one.
  second_state-Serves :
      (labels labels1 : Labels) (node : ℕ) (edges : List Edge) (two : Bool)
      → All (λ (edge : Edge). (node < edge.next) × (edge.next < search.count)) edges
      → is_some search.forced ≡ two
      → IsLowered (node + 1) labels labels1
      → StateServed labels1 node false edges
      → Ensures
          (NodeLowered labels node edges)
          (if two then relax_state search labels1 node true edges else returns labels1)
  second_state-Serves labels labels1 node edges false forward one l served =
      (l, (served, λ forced. absurd (cc (one, forced))))
  second_state-Serves labels labels1 node edges true forward two l served =
      Ensures-imp
        (λ (labels2 : Labels).
          IsLowered (node + 1) labels1 labels2 × StateServed labels2 node true edges)
        (NodeLowered labels node edges) (relax_state search labels1 node true edges)
        (λ labels2 second. (
          IsLowered-trans (node + 1) (node + 1) (node + 1) labels labels1 labels2 (omega arith)
              (omega arith) l second.0,
          (
            StateServed-lowered (node + 1) labels1 labels2 node false edges (omega arith) second.0
                served,
            λ _. second.1,
          ),
        ))
        (relax_state-Serves labels1 node true edges forward)

  relax_node-Serves :
      (labels : Labels) (node : ℕ) (edges : List Edge)
      → All (λ (edge : Edge). (node < edge.next) × (edge.next < search.count)) edges
      → Ensures (NodeLowered labels node edges) (relax_node search labels node edges)
  unfolding relax_node
  relax_node-Serves labels node edges forward =
      Ensures-bind
        (λ (labels1 : Labels).
          IsLowered (node + 1) labels labels1 × StateServed labels1 node false edges)
        (NodeLowered labels node edges) (relax_state search labels node false edges) _
        (relax_state-Serves labels node false edges forward)
        (λ labels1 first.
          second_state-Serves labels labels1 node edges (is_some search.forced) forward refl first.0
            first.1)

  -- All nodes but the last one are served.
  abbrev pub AllServed : Labels → ℕ → List (List Edge) → Type 0
  AllServed labels node [] = Unit {0}
  AllServed labels node (edges ∷ []) = Unit {0}
  AllServed labels node (edges ∷ edges' ∷ rest) =
      NodeServed labels node edges × AllServed labels (node + 1) (edges' ∷ rest)

  pub relax_nodes-Serves :
      (labels : Labels) (node : ℕ) (rest : List (List Edge))
      → Forward search.count node rest
      → Ensures
          (λ (labels' : Labels). IsLowered node labels labels' × AllServed labels' node rest)
          (relax_nodes search labels node rest)
  unfolding relax_nodes
  relax_nodes-Serves labels node [] forward = (IsLowered-refl node labels, tt)
  relax_nodes-Serves labels node (edges ∷ []) forward = (IsLowered-refl node labels, tt)
  relax_nodes-Serves labels node (edges ∷ edges' ∷ rest) (forward, forwards) =
      Ensures-bind
        (λ (labels1 : Labels). IsLowered (node + 1) labels labels1 × NodeServed labels1 node edges)
        (λ (labels2 : Labels).
          IsLowered node labels labels2 × AllServed labels2 node (edges ∷ edges' ∷ rest))
        (relax_node search labels node edges) _ (relax_node-Serves labels node edges forward)
        (λ labels1 first.
          Ensures-imp
            (λ (labels2 : Labels).
              IsLowered (node + 1) labels1 labels2 × AllServed labels2 (node + 1) (edges' ∷ rest))
            (λ (labels2 : Labels).
              IsLowered node labels labels2 × AllServed labels2 node (edges ∷ edges' ∷ rest))
            (relax_nodes search labels1 (node + 1) (edges' ∷ rest))
            (λ labels2 others. (
              IsLowered-trans (node + 1) (node + 1) node labels labels1 labels2 (omega arith)
                  (omega arith) first.0 others.0,
              (
                (
                  StateServed-lowered (node + 1) labels1 labels2 node false edges (omega arith)
                      others.0 first.1.0,
                  λ forced.
                      StateServed-lowered (node + 1) labels1 labels2 node true edges (omega arith)
                        others.0 (first.1.1 forced),
                ),
                others.1,
              ),
            ))
            (relax_nodes-Serves labels1 (node + 1) (edges' ∷ rest) forwards))
