-- ===== src/Routing/Shape.antt =====
-- crates/raynet-core/src/routing.rs: what the planner never changes of its graph, the channel and
-- the end of each edge.
use raynet.Prelude.{
  ℕ, zero, suc, ◌+◌, ◌<◌, ◌≡◌, refl, sym, ◌∙◌, ap, inl, inr, List, [], ◌∷◌, map, Option, none, some,
  length, get_elem?, set, All, arith, Option-cases, length-map,
}
use raynet.Machine.Types.{ChannelId}
use raynet.Routing.{Edge, EdgeId}
use raynet.Routing.Feedback.{write_edge, edge_at}
use raynet.Routing.Paths.Relaxing.{Forward}

abbrev pub Link : Type 0
Link = ChannelId × ℕ

abbrev pub link : Edge → Link
link edge = (edge.channel_id, edge.next)

abbrev pub shape : List (List Edge) → List (List Link)
shape nodes = map (λ edges. map link edges) nodes

abbrev pub link_at : List (List Link) → EdgeId → Option Link
link_at rows edge_id = elim (get_elem? rows edge_id.node) [
  | none ↦ none
  | some row ↦ get_elem? row edge_id.edge
]

get_elem?-map {ℓ κ} :
    {A : Type ℓ} {B : Type κ} (f : A → B) (xs : List A) (i : ℕ) (x : A)
    → get_elem? xs i ≡ some x
    → get_elem? (map f xs) i ≡ some (f x)
get_elem?-map f [] i x e = absurd (cc e)
get_elem?-map f (y ∷ ys) zero x e = let same : y ≡ x = cc e in rw same
get_elem?-map f (y ∷ ys) (suc i) x e = get_elem?-map f ys i x e

pub get_elem?-map_from {ℓ κ} :
    {A : Type ℓ} {B : Type κ} (f : A → B) (xs : List A) (i : ℕ) (b : B)
    → get_elem? (map f xs) i ≡ some b
    → (x : A) × (get_elem? xs i ≡ some x) × (f x ≡ b)
get_elem?-map_from f [] i b e = absurd (cc e)
get_elem?-map_from f (y ∷ ys) zero b e = (y, refl, cc e)
get_elem?-map_from f (y ∷ ys) (suc i) b e = get_elem?-map_from f ys i b e

map-set {ℓ κ} :
    {A : Type ℓ} {B : Type κ} (f : A → B) (xs : List A) (i : ℕ) (v : A)
    → map f (set xs i v) ≡ set (map f xs) i (f v)
map-set f [] i v = refl
map-set f (x ∷ xs) zero v = refl
map-set f (x ∷ xs) (suc i) v = ap (◌∷◌ (f x)) (map-set f xs i v)

set_self {ℓ} :
    {A : Type ℓ} (xs : List A) (i : ℕ) (x : A) → get_elem? xs i ≡ some x → set xs i x ≡ xs
set_self [] i x e = refl
set_self (y ∷ ys) zero x e = let same : y ≡ x = cc e in rw same
set_self (y ∷ ys) (suc i) x e = ap (◌∷◌ y) (set_self ys i x e)

-- The row and the edge behind an identifier.
pub edge_at-rows :
    (nodes : List (List Edge)) (edge_id : EdgeId) (edge : Edge)
    → edge_at nodes edge_id ≡ some edge
    → (edges : List Edge) × (get_elem? nodes edge_id.node ≡ some edges)
      × (get_elem? edges edge_id.edge ≡ some edge)
unfolding edge_at
edge_at-rows nodes edge_id edge e = elim (Option-cases (get_elem? nodes edge_id.node)) [
  | inl missing ↦ absurd (cc (rw (missing, edge_at) at e))
  | inr (edges, there) ↦ (edges, there, rw (there, edge_at) at e)
]

pub link_at-shape :
    (nodes : List (List Edge)) (edge_id : EdgeId) (edge : Edge)
    → edge_at nodes edge_id ≡ some edge
    → link_at (shape nodes) edge_id ≡ some (link edge)
link_at-shape nodes edge_id edge e =
    let (edges, there, found) = edge_at-rows nodes edge_id edge e in
    rw (get_elem?-map (λ es. map link es) nodes edge_id.node edges there, link_at)
      (get_elem?-map link edges edge_id.edge edge found)

pub edge_at-shape :
    (nodes : List (List Edge)) (edge_id : EdgeId) (l : Link)
    → link_at (shape nodes) edge_id ≡ some l
    → (edge : Edge) × (edge_at nodes edge_id ≡ some edge) × (link edge ≡ l)
unfolding edge_at
edge_at-shape nodes edge_id l e = elim (Option-cases (get_elem? (shape nodes) edge_id.node)) [
  | inl missing ↦ absurd (cc (rw (missing, link_at) at e))
  | inr (row, there) ↦
      let (edges, here, same) =
        get_elem?-map_from (λ es. map link es) nodes edge_id.node row there in
      let found : get_elem? row edge_id.edge ≡ some l = rw (there, link_at) at e in
      let (edge, at, equal) = get_elem?-map_from link edges edge_id.edge l (rw same found) in
      (edge, rw (here, edge_at) at, equal)
]

-- A write that keeps the channel and the end of an edge keeps the shape.
pub shape-write_edge :
    (nodes : List (List Edge)) (edge_id : EdgeId) (old edge : Edge)
    → edge_at nodes edge_id ≡ some old
    → link edge ≡ link old
    → shape (write_edge nodes edge_id.node edge_id.edge edge) ≡ shape nodes
unfolding write_edge
shape-write_edge nodes edge_id old edge e same =
    let (edges, there, found) = edge_at-rows nodes edge_id old e in
    let row : map link (set edges edge_id.edge edge) ≡ map link edges =
      map-set link edges edge_id.edge edge
      ∙ ap (set (map link edges) edge_id.edge) same
      ∙ set_self (map link edges) edge_id.edge (link old)
          (get_elem?-map link edges edge_id.edge old found) in
    rw (there, write_edge)
      (map-set (λ es. map link es) nodes edge_id.node (set edges edge_id.edge edge)
        ∙ ap (set (shape nodes) edge_id.node) row
        ∙ set_self (shape nodes) edge_id.node (map link edges)
            (get_elem?-map (λ es. map link es) nodes edge_id.node edges there))

pub length-shape :
    (nodes nodes' : List (List Edge)) → shape nodes ≡ shape nodes' → length nodes ≡ length nodes'
length-shape nodes nodes' e =
    sym (length-map (λ es. map link es) nodes) ∙ ap length e ∙ length-map (λ es. map link es) nodes'

All-shape :
    (count node : ℕ) (edges edges' : List Edge)
    → map link edges ≡ map link edges'
    → All (λ (edge : Edge). (node < edge.next) × (edge.next < count)) edges
    → All (λ (edge : Edge). (node < edge.next) × (edge.next < count)) edges'
All-shape count node [] [] e h = tt
All-shape count node [] (x ∷ xs) e h = absurd (cc e)
All-shape count node (x ∷ xs) [] e h = absurd (cc e)
All-shape count node (x ∷ xs) (y ∷ ys) e ((later, inside), hs) =
    let same : x.next ≡ y.next = cc e in
    (
      (omega (arith, same, later), omega (arith, same, inside)),
      All-shape count node xs ys (cc e) hs,
    )

pub Forward-shape :
    (count node : ℕ) (nodes nodes' : List (List Edge))
    → shape nodes ≡ shape nodes'
    → Forward count node nodes
    → Forward count node nodes'
Forward-shape count node [] [] e h = tt
Forward-shape count node [] (x ∷ xs) e h = absurd (cc e)
Forward-shape count node (x ∷ xs) [] e h = absurd (cc e)
Forward-shape count node (x ∷ xs) (y ∷ []) e h = tt
Forward-shape count node (x ∷ []) (y ∷ y' ∷ ys) e h = absurd (cc e)
Forward-shape count node (x ∷ x' ∷ xs) (y ∷ y' ∷ ys) e (h, hs) = (
  All-shape count node x y (cc e) h,
  Forward-shape count (node + 1) (x' ∷ xs) (y' ∷ ys) (cc e) hs,
)
