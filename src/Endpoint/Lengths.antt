-- ===== src/Endpoint/Lengths.antt =====
-- crates/raynet-core/src/endpoint.rs: `scheduled_packet_overhead` counts the longest route of the
-- graph.
use raynet.Prelude.{
  ℕ, zero, suc, ◌+◌, max, ◌≤◌, ◌<◌, ◌≡◌, ◌≢◌, refl, ◌∙◌, subst, List, [], ◌∷◌, map, some, length,
  get_elem?, leb, ◌==◌, false, Bool-cases, inl, inr, All, returns, returns_injective, arith,
}
use raynet.Prelude.Outcomes.{>>=-returns}
use raynet.Machine.Types.{ChannelId}
use raynet.Endpoint.{Lengths, set_length, lengthen, longest}
use raynet.Routing.{Edge, RouteEdge, RouteNode, new_edge}
use raynet.Routing.Paths.Relaxing.{Forward}
use raynet.Routing.Plans.Links.{Leads, find_link}
use raynet.Routing.Shape.{Link, link, shape}

abbrev pub planner_nodes : List RouteNode → List (List Edge)
planner_nodes nodes = map (λ node. map new_edge node.edges) nodes

-- The length of a node is more than that of each node behind it.
abbrev pub Descends : Lengths → ℕ → List (List Link) → Type 0
Descends lengths node [] = Unit {0}
Descends lengths node (row ∷ rows) =
    All (λ (l : Link). lengths l.1 + 1 ≤ lengths node) row × Descends lengths (node + 1) rows

-- No edge leaves the last node.
abbrev pub EndsEmpty : List RouteNode → Type 0
EndsEmpty [] = Unit {0}
EndsEmpty (last ∷ []) = last.edges ≡ []
EndsEmpty (first ∷ second ∷ nodes) = EndsEmpty (second ∷ nodes)

lengthen-Descends :
    (count node : ℕ) (edges : List RouteEdge) (lengths : Lengths)
    → All (λ (edge : Edge). (node < edge.next) × (edge.next < count)) (map new_edge edges)
    → (lengths' : Lengths) × (lengthen count node edges lengths ≡ returns lengths')
      × ((m : ℕ) → m ≢ node → lengths' m ≡ lengths m)
      × (lengths node ≤ lengths' node)
      × All (λ (l : Link). lengths' l.1 + 1 ≤ lengths' node) (map link (map new_edge edges))
unfolding lengthen new_edge
lengthen-Descends count node [] lengths h = (lengths, refl, (λ m n. refl), omega arith, tt)
lengthen-Descends count node (edge ∷ edges) lengths ((later, inside), hs) =
    let longer = set_length lengths node (max (lengths node) (lengths edge.next + 1)) in
    let in_range : leb count edge.next ≡ false = ground arith in
    let here : longer node ≡ max (lengths node) (lengths edge.next + 1) = ground arith in
    let (lengths', e, kept, grows, all) = lengthen-Descends count node edges longer hs in
    let there : lengths' edge.next ≡ longer edge.next =
      kept edge.next (λ same. absurd (omega (arith, same))) in
    let unchanged : longer edge.next ≡ lengths edge.next = ground arith in
    (
      lengths',
      rw in_range e,
      (λ m other.
          let same : longer m ≡ lengths m = elim (Bool-cases (m == node)) [
            | inl equal ↦ absurd (other (ground (arith, equal)))
            | inr differs ↦ rw differs
          ] in
          kept m other ∙ same),
      omega (arith, here, grows),
      (omega (arith, here, grows, there, unchanged), all),
    )

-- Nodes up to `node` may change without harm to those behind it.
Descends-kept :
    (lengths lengths' : Lengths) (low node : ℕ) (rows : List (List Link))
    → ((m : ℕ) → low < m → lengths' m ≡ lengths m)
    → low < node
    → All (λ (row : List Link). All (λ (l : Link). low < l.1) row) rows
    → Descends lengths node rows
    → Descends lengths' node rows
Descends-kept lengths lengths' low node [] kept h far d = tt
Descends-kept lengths lengths' low node (row ∷ rows) kept h (far, fars) (d, ds) = (
  row_kept row far d,
  Descends-kept lengths lengths' low (node + 1) rows kept (omega arith) fars ds,
)
  where
    row_kept :
        (row : List Link)
        → All (λ (l : Link). low < l.1) row
        → All (λ (l : Link). lengths l.1 + 1 ≤ lengths node) row
        → All (λ (l : Link). lengths' l.1 + 1 ≤ lengths' node) row
    row_kept [] f d = tt
    row_kept (l ∷ row) (f, fs) (d, ds) =
        (omega (arith, kept l.1 f, kept node h), row_kept row fs ds)

links_far :
    (count low node : ℕ) (edges : List RouteEdge)
    → low ≤ node
    → All (λ (edge : Edge). (node < edge.next) × (edge.next < count)) (map new_edge edges)
    → All (λ (l : Link). low < l.1) (map link (map new_edge edges))
links_far count low node [] h hs = tt
links_far count low node (edge ∷ edges) h ((later, _), hs) =
    (omega arith, links_far count low node edges h hs)

rows_far :
    (count low node : ℕ) (nodes : List RouteNode)
    → low ≤ node
    → Forward count node (planner_nodes nodes)
    → EndsEmpty nodes
    → All (λ (row : List Link). All (λ (l : Link). low < l.1) row) (shape (planner_nodes nodes))
rows_far count low node [] h f e = tt
rows_far count low node (last ∷ []) h f e = rw e (tt, tt)
rows_far count low node (first ∷ second ∷ nodes) h (f, fs) e = (
  links_far count low node first.edges h f,
  rows_far count low (node + 1) (second ∷ nodes) (omega arith) fs e,
)

-- The loops never panic on a graph that leads forward, and each edge leads to a node that is
-- nearer to the end.
pub longest-Descends :
    (count node : ℕ) (nodes : List RouteNode)
    → Forward count node (planner_nodes nodes)
    → EndsEmpty nodes
    → (lengths : Lengths) × (longest count node nodes ≡ returns lengths)
      × Descends lengths node (shape (planner_nodes nodes))
unfolding longest
longest-Descends count node [] f e = ((λ m. 0), refl, tt)
longest-Descends count node (last ∷ []) f e = ((λ m. 0), refl, rw e (tt, tt))
longest-Descends count node (first ∷ second ∷ nodes) (f, fs) e =
    let (later, found, d) = longest-Descends count (node + 1) (second ∷ nodes) fs e in
    let (lengths, lengthened, kept, _, row) = lengthen-Descends count node first.edges later f in
    (
      lengths,
      rw found lengthened,
      (
        row,
        Descends-kept later lengths node (node + 1) (shape (planner_nodes (second ∷ nodes)))
            (λ m h. kept m (λ same. absurd (omega (arith, same)))) (omega arith)
            (rows_far count node (node + 1) (second ∷ nodes) (omega arith) fs e) d,
      ),
    )

Descends-row :
    (lengths : Lengths) (node i n : ℕ) (rows : List (List Link)) (row : List Link)
    → Descends lengths node rows
    → get_elem? rows i ≡ some row
    → node + i ≡ n
    → All (λ (l : Link). lengths l.1 + 1 ≤ lengths n) row
Descends-row lengths node i n [] row d e at = absurd (cc e)
Descends-row lengths node zero n (r ∷ rows) row (d, ds) e at =
    let same : r ≡ row = cc e in
    let here : node ≡ n = omega arith in
    subst (λ (k : ℕ). All (λ (l : Link). lengths l.1 + 1 ≤ lengths k) row) here
      (subst (All (λ (l : Link). lengths l.1 + 1 ≤ lengths node)) same d)
Descends-row lengths node (suc i) n (r ∷ rows) row (d, ds) e at =
    Descends-row lengths (node + 1) i n rows row ds e (omega arith)

find_link-below :
    (lengths : Lengths) (n next : ℕ) (channel : ChannelId) (row : List Link)
    → All (λ (l : Link). lengths l.1 + 1 ≤ lengths n) row
    → find_link channel row ≡ some next
    → lengths next + 1 ≤ lengths n
find_link-below lengths n next channel [] h e = absurd (cc e)
find_link-below lengths n next channel ((c, m) ∷ row) (h, hs) e = elim (Bool-cases (c == channel)) [
  | inl here ↦ let same : m ≡ next = cc (rw here at e) in rw (← same) h
  | inr later ↦ find_link-below lengths n next channel row hs (rw later at e)
]

-- No plan that leads through the graph is longer than the length of its first node.
pub length-Leads :
    (lengths : Lengths) (rows : List (List Link)) (node destination : ℕ) (plan : List ChannelId)
    → Descends lengths 0 rows
    → Leads rows node destination plan
    → length plan ≤ lengths node
length-Leads lengths rows node destination [] d leads = omega arith
length-Leads lengths rows node destination (channel ∷ plan) d (row, there, (next, found, leads)) =
    omega (
      arith,
      length-Leads lengths rows next destination plan d leads,
      find_link-below lengths node next channel row
          (Descends-row lengths 0 node node rows row d there (omega arith)) found,
    )

abbrev Bounded : ℕ → Lengths → Type 0
Bounded count lengths = (m : ℕ) → m ≤ count → lengths m + m ≤ count

lengthen-Bounded :
    (count node : ℕ) (edges : List RouteEdge) (lengths lengths' : Lengths)
    → All (λ (edge : Edge). (node < edge.next) × (edge.next < count)) (map new_edge edges)
    → Bounded count lengths
    → lengthen count node edges lengths ≡ returns lengths'
    → Bounded count lengths'
unfolding lengthen new_edge
lengthen-Bounded count node [] lengths lengths' h b e =
    subst (Bounded count) (returns_injective e) b
lengthen-Bounded count node (edge ∷ edges) lengths lengths' ((later, inside), hs) b e =
    let longer = set_length lengths node (max (lengths node) (lengths edge.next + 1)) in
    let in_range : leb count edge.next ≡ false = ground arith in
    lengthen-Bounded count node edges longer lengths' hs
      (λ m h. elim (Bool-cases (m == node)) [
        | inl here ↦
            let same : m ≡ node = ground (arith, here) in
            rw here (omega (arith, b node (omega (arith, same)), b edge.next (omega arith), same))
        | inr other ↦ rw other (b m h)
      ])
      (rw in_range at e)

longest-Bounded :
    (count node : ℕ) (nodes : List RouteNode) (lengths : Lengths)
    → Forward count node (planner_nodes nodes)
    → longest count node nodes ≡ returns lengths
    → Bounded count lengths
unfolding longest
longest-Bounded count node [] lengths f e =
    subst (Bounded count) (returns_injective e) (λ m h. omega arith)
longest-Bounded count node (last ∷ []) lengths f e =
    subst (Bounded count) (returns_injective e) (λ m h. omega arith)
longest-Bounded count node (first ∷ second ∷ nodes) lengths (f, fs) e =
    let (later, found, lengthened) = >>=-returns (longest count (node + 1) (second ∷ nodes)) _ e in
    lengthen-Bounded count node first.edges later lengths f
      (longest-Bounded count (node + 1) (second ∷ nodes) later fs found) lengthened

-- The longest route is not longer than the graph has nodes.
pub longest-le :
    (count : ℕ) (nodes : List RouteNode) (lengths : Lengths)
    → Forward count 0 (planner_nodes nodes)
    → longest count 0 nodes ≡ returns lengths
    → lengths 0 ≤ count
longest-le count nodes lengths f e =
    omega (arith, longest-Bounded count 0 nodes lengths f e 0 (omega arith))
