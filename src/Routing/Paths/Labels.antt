-- ===== src/Routing/Paths/Labels.antt =====
-- crates/raynet-core/src/routing.rs: what the entries of `arrival` and `predecessor` stand for.
use raynet.Prelude.{
  ℕ, ◌≤◌, ◌<◌, ◌≡◌, ◌≢◌, ◌⊎◌, inl, inr, refl, Bool, true, false, not, ◌&&◌, ◌||◌, List, Option,
  none, some, ◌==◌, Bool-cases, arith,
}
use raynet.Routing.{Edge, EdgeId}
use raynet.Routing.Edges.{edge_allowed}
use raynet.Routing.Feedback.{edge_at}
use raynet.Routing.Paths.{
  never, is_forced, same_state, Label, Labels, Search, set_label, start_labels,
}

abbrev pub HasArrival : Labels → ℕ → Bool → Type 0
HasArrival labels node state = (labels node state).arrival ≢ never

same_state-eq : (a b : Bool) → same_state a b ≡ true → a ≡ b
same_state-eq true b h = cc h
same_state-eq false true h = cc h
same_state-eq false false h = refl

pub set_label-cases :
    (labels : Labels) (node : ℕ) (state : Bool) (label : Label) (n : ℕ) (s : Bool)
    → ((n ≡ node) × (s ≡ state) × (set_label labels node state label n s ≡ label))
      ⊎ (set_label labels node state label n s ≡ labels n s)
unfolding set_label
set_label-cases labels node state label n s = elim (Bool-cases (n == node && same_state s state)) [
  | inl here ↦
      let there : n ≡ node = ground (arith, here) in
      let equal : same_state s state ≡ true = ground (arith, here) in
      inl (there, same_state-eq s state equal, rw here)
  | inr other ↦ inr (rw other)
]

pub set_label_same :
    (labels : Labels) (node : ℕ) (state : Bool) (label : Label)
    → set_label labels node state label node state ≡ label
unfolding set_label
set_label_same labels node true label = ground arith
set_label_same labels node false label = ground arith

pub set_label-HasArrival :
    (labels : Labels) (node : ℕ) (state : Bool) (label : Label) (n : ℕ) (s : Bool)
    → label.arrival ≢ never
    → HasArrival labels n s
    → HasArrival (set_label labels node state label) n s
set_label-HasArrival labels node state label n s new old =
    elim (set_label-cases labels node state label n s) [
      | inl (_, _, e) ↦ rw e new
      | inr e ↦ rw e old
    ]

module _ (nodes : List (List Edge)) (search : Search) where
  -- An entry with a predecessor was reached from an earlier node that is set, by an allowed edge of
  -- the graph; and its state tells whether the forced edge has been taken.
  pub record Reached (labels : Labels) (node : ℕ) (state previous : Bool) (edge_id : EdgeId)
      : Type 0 where
    pub edge : Edge
    pub found : edge_at nodes edge_id ≡ some edge
    pub allowed : edge_allowed edge search.elapsed_ms ≡ true
    pub leads : edge.next ≡ node
    pub earlier : edge_id.node < node
    pub taken : state ≡ (previous || is_forced search.forced edge_id)
    pub from_set : HasArrival labels edge_id.node previous

  -- Without a predecessor only the start is set.
  abbrev pub Explained : Labels → ℕ → Bool → Option (Bool × EdgeId) → Type 0
  Explained labels node state none = HasArrival labels node state → (node ≡ 0) × (state ≡ false)
  Explained labels node state (some (previous, edge_id)) =
      Reached labels node state previous edge_id

  pub record IsSound (labels : Labels) : Type 0 where
    pub bounded : (n : ℕ) (s : Bool) → (labels n s).arrival ≤ never
    pub explained : (n : ℕ) (s : Bool) → Explained labels n s (labels n s).predecessor

  pub start_labels-IsSound : (elapsed_ms : ℕ) → IsSound (start_labels elapsed_ms)
  unfolding start_labels
  start_labels-IsSound elapsed_ms = record {
    bounded = λ n s. ground arith;
    explained = λ n s set. elim (Bool-cases (n == 0 && not s)) [
      | inl here ↦ (ground (arith, here), ground (arith, here))
      | inr other ↦ absurd (set (rw other))
    ];
  }

  Reached-kept :
      (labels labels' : Labels) (n : ℕ) (s previous : Bool) (edge_id : EdgeId)
      → ((m : ℕ) (t : Bool) → HasArrival labels m t → HasArrival labels' m t)
      → Reached labels n s previous edge_id
      → Reached labels' n s previous edge_id
  Reached-kept labels labels' n s previous edge_id kept r = record {
    edge = r.edge;
    found = r.found;
    allowed = r.allowed;
    leads = r.leads;
    earlier = r.earlier;
    taken = r.taken;
    from_set = kept edge_id.node previous r.from_set;
  }

  -- What explains an entry is kept as long as no entry is unset.
  Explained-kept :
      (labels labels' : Labels) (n : ℕ) (s : Bool)
      → ((m : ℕ) (t : Bool) → HasArrival labels m t → HasArrival labels' m t)
      → labels' n s ≡ labels n s
      → (p : Option (Bool × EdgeId)) → Explained labels n s p
      → Explained labels' n s p
  Explained-kept labels labels' n s kept e none h = λ set. h (λ unset. set (rw e unset))
  Explained-kept labels labels' n s kept e (some (previous, edge_id)) r =
      Reached-kept labels labels' n s previous edge_id kept r

  -- A new entry that is explained keeps the others so.
  pub set_label-IsSound :
      (labels : Labels) (node arrival : ℕ) (state previous : Bool) (edge_id : EdgeId)
      → arrival < never
      → Reached labels node state previous edge_id
      → IsSound labels
      → IsSound (
          set_label labels node state
            (record { arrival = arrival; predecessor = some (previous, edge_id) }))
  set_label-IsSound labels node arrival state previous edge_id h r v =
      let label : Label = record { arrival = arrival; predecessor = some (previous, edge_id) } in
      let labels' = set_label labels node state label in
      let kept : (m : ℕ) (t : Bool) → HasArrival labels m t → HasArrival labels' m t =
        λ m t. set_label-HasArrival labels node state label m t (λ e. absurd (omega (arith, e))) in
      record {
        bounded = λ n s. elim (set_label-cases labels node state label n s) [
          | inl (_, _, e) ↦ rw e (omega arith)
          | inr e ↦ rw e (v.bounded n s)
        ];
        explained = λ n s. elim (set_label-cases labels node state label n s) [
          | inl (there, equal, e) ↦
              rw e
                (rw (there, equal) (Reached-kept labels labels' node state previous edge_id kept r))
          | inr e ↦
              rw e (
                Explained-kept labels labels' n s kept e (labels n s).predecessor (v.explained n s))
        ];
      }
