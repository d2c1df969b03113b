-- ===== src/Routing/Paths/Lowering.antt =====
-- crates/raynet-core/src/routing.rs: how the loop over the edges of a node lowers the entries.
use raynet.Prelude.{
  ℕ, zero, suc, ◌+◌, ◌<◌, ◌≤◌, ◌≡◌, refl, ◌∙◌, subst, Bool, true, ◌||◌, List, [], ◌∷◌, some, leb,
  ltb, Bool-cases, inl, inr, arith, All, get_elem?,
}
use raynet.Prelude.Outcomes.{Ensures, Ensures-bind, Ensures-imp}
use raynet.Routing.{Edge, EdgeId}
use raynet.Routing.Edges.{edge_allowed}
use raynet.Routing.Paths.{is_forced, Label, Labels, Search, candidate_at, relax_edge, relax_edges}
use raynet.Routing.Paths.Labels.{set_label-cases, set_label_same}

-- No entry is later than before, and those of the nodes below a bound are the same.
pub record IsLowered (bound : ℕ) (labels labels' : Labels) : Type 0 where
  pub lower : (n : ℕ) (s : Bool) → (labels' n s).arrival ≤ (labels n s).arrival
  pub frame : (n : ℕ) (s : Bool) → n < bound → labels' n s ≡ labels n s

pub IsLowered-refl : (bound : ℕ) (labels : Labels) → IsLowered bound labels labels
IsLowered-refl bound labels = record { lower = λ n s. omega arith; frame = λ n s h. refl }

pub IsLowered-trans :
    (bound bound' low : ℕ) (a b c : Labels)
    → low ≤ bound
    → low ≤ bound'
    → IsLowered bound a b
    → IsLowered bound' b c
    → IsLowered low a c
IsLowered-trans bound bound' low a b c h h' x y = record {
  lower = λ n s. omega (arith, x.lower n s, y.lower n s);
  frame = λ n s below. y.frame n s (omega arith) ∙ x.frame n s (omega arith);
}

module _ (search : Search) where
  -- The entry behind an edge is not later than what the edge makes of an arrival.
  abbrev pub Serves : Labels → ℕ → Bool → ℕ → ℕ → Edge → Type 0
  Serves labels node state at index edge =
      edge_allowed edge search.elapsed_ms ≡ true
      → (labels edge.next
          (state || is_forced search.forced (record { node = node; edge = index }))).arrival
        ≤ candidate_at search at edge

  abbrev pub ServesAll : Labels → ℕ → Bool → ℕ → ℕ → List Edge → Type 0
  ServesAll labels node state at index edges =
      (i : ℕ) (edge : Edge)
      → get_elem? edges i ≡ some edge
      → Serves labels node state at (index + i) edge

  relax_edge-Serves :
      (labels : Labels) (node : ℕ) (state : Bool) (at index : ℕ) (edge : Edge)
      → node < edge.next
      → Ensures
          (λ (labels' : Labels).
            IsLowered (node + 1) labels labels' × Serves labels' node state at index edge)
          (relax_edge search labels node state at index edge)
  unfolding relax_edge
  relax_edge-Serves labels node state at index edge later =
      let id : EdgeId = record { node = node; edge = index } in
      let state' = state || is_forced search.forced id in
      let candidate = candidate_at search at edge in
      let label : Label = record { arrival = candidate; predecessor = some (state, id) } in
      elim (Bool-cases (edge_allowed edge search.elapsed_ms)) [
        | inr shut ↦ rw shut (IsLowered-refl (node + 1) labels, λ allowed. absurd (cc allowed))
        | inl allowed ↦ elim (Bool-cases (leb search.count edge.next)) [
          | inl outside ↦ rw (allowed, outside) tt
          | inr inside ↦ elim (Bool-cases (ltb candidate (labels edge.next state').arrival)) [
            | inr worse ↦
                rw (allowed, inside, worse)
                  (IsLowered-refl (node + 1) labels, λ _. ground (arith, worse))
            | inl better ↦
                rw (allowed, inside, better)
                  (
                    record {
                      lower = λ n s. elim (set_label-cases labels edge.next state' label n s) [
                        | inl (there, equal, e) ↦ rw (e, there, equal) (ground (arith, better))
                        | inr e ↦ rw e (omega arith)
                      ];
                      frame = λ n s below.
                          elim (set_label-cases labels edge.next state' label n s) [
                            | inl (there, equal, e) ↦ absurd (omega (arith, there, later, below))
                            | inr e ↦ e
                          ];
                    },
                    λ _. rw (set_label_same labels edge.next state' label) (omega arith),
                  )
          ]
        ]
      ]

  -- What is served stays so, as long as the entry of the node is kept.
  pub Serves-lowered :
      (bound : ℕ) (labels labels' : Labels) (node : ℕ) (state : Bool) (at index : ℕ) (edge : Edge)
      → IsLowered bound labels labels'
      → Serves labels node state at index edge
      → Serves labels' node state at index edge
  Serves-lowered bound labels labels' node state at index edge l h allowed = omega (
    arith,
    h allowed,
    l.lower edge.next (state || is_forced search.forced (record { node = node; edge = index })),
  )

  Serves-cons :
      (labels : Labels) (node : ℕ) (state : Bool) (at index : ℕ) (edge : Edge) (edges : List Edge)
      → Serves labels node state at index edge
      → ServesAll labels node state at (index + 1) edges
      → ServesAll labels node state at index (edge ∷ edges)
  Serves-cons labels node state at index edge edges h hs zero e same =
      let first : edge ≡ e = cc same in
      let here : index ≡ index + 0 = omega arith in
      subst (λ (k : ℕ). Serves labels node state at k e) here
        (subst (λ (x : Edge). Serves labels node state at index x) first h)
  Serves-cons labels node state at index edge edges h hs (suc i) e same =
      let there : index + 1 + i ≡ index + suc i = omega arith in
      subst (λ (k : ℕ). Serves labels node state at k e) there (hs i e same)

  abbrev pub EdgesServed : Labels → ℕ → Bool → ℕ → ℕ → List Edge → Labels → Type 0
  EdgesServed labels node state at index edges labels' =
      IsLowered (node + 1) labels labels' × ServesAll labels' node state at index edges

  pub relax_edges-Serves :
      (labels : Labels) (node : ℕ) (state : Bool) (at index : ℕ) (edges : List Edge)
      → All (λ (edge : Edge). (node < edge.next) × (edge.next < search.count)) edges
      → Ensures
          (EdgesServed labels node state at index edges)
          (relax_edges search labels node state at index edges)
  unfolding relax_edges
  relax_edges-Serves labels node state at index [] forward =
      (IsLowered-refl (node + 1) labels, λ i edge e. absurd (cc e))
  relax_edges-Serves labels node state at index (edge ∷ edges) ((later, _), forward) =
      Ensures-bind
        (λ (labels1 : Labels).
          IsLowered (node + 1) labels labels1 × Serves labels1 node state at index edge)
        (EdgesServed labels node state at index (edge ∷ edges))
        (relax_edge search labels node state at index edge) _
        (relax_edge-Serves labels node state at index edge later)
        (λ labels1 first.
          Ensures-imp (EdgesServed labels1 node state at (index + 1) edges)
            (EdgesServed labels node state at index (edge ∷ edges))
            (relax_edges search labels1 node state at (index + 1) edges)
            (λ labels2 others. (
              IsLowered-trans (node + 1) (node + 1) (node + 1) labels labels1 labels2 (omega arith)
                  (omega arith) first.0 others.0,
              Serves-cons labels2 node state at index edge edges
                  (Serves-lowered (node + 1) labels1 labels2 node state at index edge others.0
                    first.1)
                  others.1,
            ))
            (relax_edges-Serves labels1 node state at (index + 1) edges forward))
