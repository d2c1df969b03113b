-- ===== src/Routing/Plans/Noting.antt =====
-- crates/raynet-core/src/routing.rs: `note_feedback` on the plans that the planner makes.
use raynet.Prelude.{
  ℕ, suc, ◌+◌, ◌≡◌, refl, ◌∙◌, subst, inl, inr, Bool, true, false, ◌&&◌, ◌||◌, List, [], ◌∷◌, map,
  none, some, get_elem?, ◌==◌, arith, Bool-cases, Option-cases, returns_injective, returns,
}
use raynet.Machine.Types.{ChannelId}
use raynet.Routing.{Edge, EdgeId, RoutePlanner}
use raynet.Routing.Edges.{fail_edge, observe_edge, recover_edge, is_recent}
use raynet.Routing.Feedback.{
  position, write_edge, edge_at, find_edge, note_local_send_failure, Noted, get_or_insert, is_none,
  note_plan, recover_first, after_plan, note_feedback,
}
use raynet.Routing.Plans.Links.{find_link, Leads}
use raynet.Routing.Shape.{Link, link, shape, shape-write_edge, get_elem?-map_from}

position-find_link :
    (channel_id : ChannelId) (index next : ℕ) (edges : List Edge)
    → find_link channel_id (map link edges) ≡ some next
    → (i : ℕ) × (edge : Edge) × (position channel_id index edges ≡ some (index + i, edge))
      × (get_elem? edges i ≡ some edge)
      × (edge.next ≡ next)
unfolding position
position-find_link c index next [] e = absurd (cc e)
position-find_link c index next (edge ∷ edges) e = elim (Bool-cases (edge.channel_id == c)) [
  | inl here ↦
      let same : index ≡ index + 0 = omega arith in
      (0, edge, rw (here, ← same), refl, cc (rw here at e))
  | inr later ↦
      let (i, edge', found, at, ends) =
        position-find_link c (index + 1) next edges (rw later at e) in
      let same : index + 1 + i ≡ index + suc i = omega arith in
      (suc i, edge', rw (later, ← same) found, at, ends)
]

-- The edge behind the first channel of a plan.
pub find_edge-Leads :
    (nodes : List (List Edge)) (node next : ℕ) (channel : ChannelId) (row : List Link)
    → get_elem? (shape nodes) node ≡ some row
    → find_link channel row ≡ some next
    → (i : ℕ) × (edge : Edge) × (find_edge nodes node channel ≡ some (i, edge))
      × (edge_at nodes (record { node = node; edge = i }) ≡ some edge)
      × (edge.next ≡ next)
unfolding find_edge edge_at
find_edge-Leads nodes node next channel row there found =
    let (edges, here, same) = get_elem?-map_from (λ es. map link es) nodes node row there in
    let (i, edge, at, in_row, ends) = position-find_link channel 0 next edges (rw same found) in
    let index : 0 + i ≡ i = omega arith in
    (i, edge, rw (here, find_edge, ← index) at, rw (here, edge_at) in_row, ends)

observe_edge-link :
    (edge : Edge) (at : ℕ) (success : Bool) → link (observe_edge edge at success) ≡ link edge
unfolding observe_edge
observe_edge-link edge at success = ground arith

-- What the loop of `note_feedback` keeps: the graph, and that `accepted_first` has an edge.
HasFirst : Noted → Type 0
HasFirst noted = noted.accepted_first ≡ true → (first : EdgeId) × (noted.first ≡ some first)

HasFirst-next :
    (noted : Noted) (edge_id : EdgeId)
    → (first : EdgeId) × (get_or_insert noted.first edge_id ≡ some first)
unfolding get_or_insert
HasFirst-next noted edge_id = elim (Option-cases noted.first) [
  | inl e ↦ (edge_id, rw (e, get_or_insert))
  | inr (first, e) ↦ (first, rw (e, get_or_insert))
]

note_plan-shape :
    (plan : List ChannelId) (at : ℕ) (success : Bool) (node destination : ℕ) (noted : Noted)
    → Leads (shape noted.nodes) node destination plan
    → HasFirst noted
    → (noted' : Noted) × (note_plan plan at success node noted ≡ returns noted')
      × (shape noted'.nodes ≡ shape noted.nodes)
      × HasFirst noted'
unfolding note_plan HasFirst
note_plan-shape [] at success node destination noted leads first = (noted, refl, refl, first)
note_plan-shape (channel ∷ plan) at success node destination noted
      (row, there, (next, found, leads)) first =
    let (i, edge, finds, at_edge, ends) =
      find_edge-Leads noted.nodes node next channel row there found in
    let id : EdgeId = record { node = node; edge = i } in
    let noted' : Noted = record {
      nodes = write_edge noted.nodes node i (observe_edge edge at success);
      first = get_or_insert noted.first id;
      accepted_first =
          noted.accepted_first || (is_recent edge.last_observation_at at && is_none noted.first);
    } in
    let kept : shape noted'.nodes ≡ shape noted.nodes =
      shape-write_edge noted.nodes id edge (observe_edge edge at success) at_edge
        (observe_edge-link edge at success) in
    let (noted'', built, shaped, has) =
      note_plan-shape plan at success edge.next destination noted' (rw (ends, kept) leads)
        (λ _. HasFirst-next noted id) in
    (noted'', rw (finds, note_plan) built, shaped ∙ kept, has)

recover_first-shape :
    (nodes : List (List Edge)) (first : EdgeId) → shape (recover_first nodes first) ≡ shape nodes
unfolding recover_first recover_edge edge_at
recover_first-shape nodes first = elim (Option-cases (get_elem? nodes first.node)) [
  | inl missing ↦ rw (missing, recover_first)
  | inr (edges, there) ↦ elim (Option-cases (get_elem? edges first.edge)) [
    | inl missing ↦ rw (there, recover_first, missing)
    | inr (edge, found) ↦
        rw (there, recover_first, found)
          (shape-write_edge nodes first edge (recover_edge edge) (rw (there, edge_at) found) refl)
  ]
]

-- Feedback on a plan whose channels lead through the graph never panics, whenever it comes, and
-- keeps the channels and the ends of all edges.
pub note_feedback-shape :
    (planner : RoutePlanner) (plan : List ChannelId) (destination at : ℕ) (success : Bool)
    → Leads (shape planner.nodes) 0 destination plan
    → (planner' : RoutePlanner) × (note_feedback planner plan at success ≡ returns planner')
      × (shape planner'.nodes ≡ shape planner.nodes)
unfolding note_feedback after_plan HasFirst
note_feedback-shape planner plan destination at success leads =
    let start : Noted = record { nodes = planner.nodes; first = none; accepted_first = false } in
    let (noted, built, shaped, has) =
      note_plan-shape plan at success 0 destination start leads (λ e. absurd (cc e)) in
    elim (Bool-cases (success && noted.accepted_first)) [
      | inr plain ↦ (record { nodes = noted.nodes }, rw (built, note_feedback, plain), shaped)
      | inl recovers ↦
          let (first, e) = has (ground (arith, recovers)) in
          (
            record { nodes = recover_first noted.nodes first },
            rw (built, note_feedback, recovers, e),
            recover_first-shape noted.nodes first ∙ shaped,
          )
    ]

position-get_elem? :
    (channel_id : ChannelId) (index i : ℕ) (edges : List Edge) (edge : Edge)
    → position channel_id index edges ≡ some (i, edge)
    → (j : ℕ) × (i ≡ index + j) × (get_elem? edges j ≡ some edge)
unfolding position
position-get_elem? c index i [] edge e = absurd (cc e)
position-get_elem? c index i (x ∷ edges) edge e = elim (Bool-cases (x.channel_id == c)) [
  | inl here ↦
      let same : index ≡ i = cc (rw here at e) in
      let equal : x ≡ edge = cc (rw here at e) in (0, omega (arith, same), rw equal)
  | inr later ↦
      let (j, at, found) = position-get_elem? c (index + 1) i edges edge (rw later at e) in
      (suc j, omega (arith, at), found)
]

find_edge-edge_at :
    (nodes : List (List Edge)) (node i : ℕ) (channel_id : ChannelId) (edge : Edge)
    → find_edge nodes node channel_id ≡ some (i, edge)
    → edge_at nodes (record { node = node; edge = i }) ≡ some edge
unfolding find_edge edge_at
find_edge-edge_at nodes node i c edge e = elim (Option-cases (get_elem? nodes node)) [
  | inl missing ↦ absurd (cc (rw (missing, find_edge) at e))
  | inr (edges, there) ↦
      let (j, at, found) = position-get_elem? c 0 i edges edge (rw (there, find_edge) at e) in
      let same : j ≡ i = omega (arith, at) in rw (there, edge_at) (rw same at found)
]

-- A failure that is noted keeps the channels and the ends of all edges.
pub note_local_send_failure-shape :
    (planner planner' : RoutePlanner) (channel_id : ChannelId) (at : ℕ)
    → note_local_send_failure planner channel_id at ≡ returns planner'
    → shape planner'.nodes ≡ shape planner.nodes
unfolding note_local_send_failure fail_edge
note_local_send_failure-shape planner planner' c at e =
    elim (Option-cases (find_edge planner.nodes 0 c)) [
      | inl missing ↦ absurd (cc (rw (missing, note_local_send_failure) at e))
      | inr ((i, edge), found) ↦
          subst (λ (p : RoutePlanner). shape p.nodes ≡ shape planner.nodes)
            (returns_injective (rw (found, note_local_send_failure) at e))
            (shape-write_edge planner.nodes (record { node = 0; edge = i }) edge (fail_edge edge at)
              (find_edge-edge_at planner.nodes 0 i c edge found) refl)
    ]
