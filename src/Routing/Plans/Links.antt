-- ===== src/Routing/Plans/Links.antt =====
-- crates/raynet-core/src/routing.rs: plans as the channels that they name, and `reserve`.
use raynet.Prelude.{
  ℕ, zero, suc, ◌≡◌, refl, sym, ◌∙◌, ap, subst, inl, inr, Bool, List, [], ◌∷◌, Option, none, some,
  length, get_elem?, ◌==◌, if◌then◌else◌, All, arith, Bool-cases, Option-cases, returns,
}
use raynet.Machine.Types.{ChannelId}
use raynet.Routing.{Edge, EdgeId}
use raynet.Routing.Edges.{reserve_edge}
use raynet.Routing.Feedback.{write_edge}
use raynet.Routing.Health.{get-All}
use raynet.Routing.Paths.Routes.{IsRoute}
use raynet.Routing.Plans.{reserve_path, channels_of}
use raynet.Routing.Shape.{
  Link, link, shape, link_at, link_at-shape, edge_at-shape, shape-write_edge,
}

-- The edge identifiers of a path, on the shape of the graph.
abbrev pub Links : List (List Link) → ℕ → ℕ → List EdgeId → Type 0
Links rows node destination [] = node ≡ destination
Links rows node destination (edge_id ∷ path) =
    (edge_id.node ≡ node)
    × ((l : Link) × (link_at rows edge_id ≡ some l) × Links rows l.1 destination path)

-- The end of the first edge of a node with a channel.
abbrev pub find_link : ChannelId → List Link → Option ℕ
find_link channel_id [] = none
find_link channel_id ((channel, next) ∷ row) =
    if channel == channel_id then some next else find_link channel_id row

-- The channels of a plan, each of them found at the node to which those before it lead.
abbrev pub Leads : List (List Link) → ℕ → ℕ → List ChannelId → Type 0
Leads rows node destination [] = node ≡ destination
Leads rows node destination (channel ∷ plan) =
    (row : List Link) × (get_elem? rows node ≡ some row)
    × ((next : ℕ) × (find_link channel row ≡ some next) × Leads rows next destination plan)

-- Edges of one node with the same channel have the same end: a channel has one other side.
abbrev pub IsPlain : List Link → Type 0
IsPlain [] = Unit {0}
IsPlain (l ∷ row) = All (λ (m : Link). l.0 ≡ m.0 → l.1 ≡ m.1) row × IsPlain row

pub IsRoute-Links :
    (nodes : List (List Edge)) (elapsed_ms node destination : ℕ) (path : List EdgeId)
    → IsRoute nodes elapsed_ms node destination path
    → Links (shape nodes) node destination path
IsRoute-Links nodes elapsed_ms node destination [] r = r
IsRoute-Links nodes elapsed_ms node destination (edge_id ∷ path) (e, (edge, found, _, r)) = (
  e,
  (
    link edge,
    link_at-shape nodes edge_id edge found,
    IsRoute-Links nodes elapsed_ms edge.next destination path r,
  ),
)

find_link-plain :
    (row : List Link) (i : ℕ) (l : Link)
    → IsPlain row
    → get_elem? row i ≡ some l
    → find_link l.0 row ≡ some l.1
find_link-plain [] i l v e = absurd (cc e)
find_link-plain ((c, n) ∷ row) zero l v e =
    let channel : c ≡ l.0 = cc e in
    let next : n ≡ l.1 = cc e in rw (← channel) (ground (arith, next))
find_link-plain ((c, n) ∷ row) (suc i) l (h, v) e = elim (Bool-cases (c == l.0)) [
  | inl here ↦
      rw here
        (ap some (get-All (λ (m : Link). c ≡ m.0 → n ≡ m.1) row i l e h (ground (arith, here))))
  | inr later ↦ rw later (find_link-plain row i l v e)
]

-- The row of an identifier.
link_at-row :
    (rows : List (List Link)) (edge_id : EdgeId) (l : Link)
    → link_at rows edge_id ≡ some l
    → (row : List Link) × (get_elem? rows edge_id.node ≡ some row)
      × (get_elem? row edge_id.edge ≡ some l)
link_at-row rows edge_id l e = elim (Option-cases (get_elem? rows edge_id.node)) [
  | inl missing ↦ absurd (cc (rw (missing, link_at) at e))
  | inr (row, there) ↦ (row, there, rw (there, link_at) at e)
]

-- The channels of a path lead where its edges do.
pub channels_of-Leads :
    (nodes : List (List Edge)) (node destination : ℕ) (path : List EdgeId)
    → All IsPlain (shape nodes)
    → Links (shape nodes) node destination path
    → (channels : List ChannelId) × (channels_of nodes path ≡ returns channels)
      × Leads (shape nodes) node destination channels
      × (length channels ≡ length path)
unfolding channels_of
channels_of-Leads nodes node destination [] plain r = ([], refl, r, refl)
channels_of-Leads nodes node destination (edge_id ∷ path) plain (e, (l, found, r)) =
    let (edge, at, same) = edge_at-shape nodes edge_id l found in
    let (row, there, in_row) = link_at-row (shape nodes) edge_id l found in
    let (channels, built, leads, size) = channels_of-Leads nodes l.1 destination path plain r in
    let is_plain = get-All IsPlain (shape nodes) edge_id.node row there plain in
    let channel : l.0 ≡ edge.channel_id = cc same in
    (
      edge.channel_id ∷ channels,
      rw (at, built),
      (
        row,
        rw (← e) there,
        (l.1, rw (← channel) (find_link-plain row edge_id.edge l is_plain in_row), leads),
      ),
      ap suc size,
    )

reserve_edge-link :
    (edge : Edge) (cursor elapsed_ms scheduled_bytes : ℕ) (sample : Bool)
    → link (reserve_edge edge cursor elapsed_ms scheduled_bytes sample).0 ≡ link edge
unfolding reserve_edge
reserve_edge-link edge cursor elapsed_ms scheduled_bytes sample = refl

-- `reserve` writes to the edges of the path, and keeps the graph and the bounds of the edges.
pub reserve_path-shape :
    (nodes : List (List Edge)) (path : List EdgeId)
    (node destination cursor elapsed_ms scheduled_bytes : ℕ) (sample : Bool)
    → Links (shape nodes) node destination path
    → (nodes' : List (List Edge)) × (reserve_path nodes path cursor elapsed_ms scheduled_bytes
          sample
        ≡ returns nodes')
      × (shape nodes' ≡ shape nodes)
unfolding reserve_path
reserve_path-shape nodes [] node destination cursor at bytes sample r = (nodes, refl, refl)
reserve_path-shape nodes (edge_id ∷ path) node destination cursor at bytes sample
      (e, (l, found, r)) =
    let (edge, there, same) = edge_at-shape nodes edge_id l found in
    let reserved = reserve_edge edge cursor at bytes sample in
    let written = write_edge nodes edge_id.node edge_id.edge reserved.0 in
    let kept : shape written ≡ shape nodes =
      shape-write_edge nodes edge_id edge reserved.0 there
        (reserve_edge-link edge cursor at bytes sample) in
    let (nodes', built, shaped) =
      reserve_path-shape written path l.1 destination reserved.1 at bytes sample
        (subst (λ (rows : List (List Link)). Links rows l.1 destination path) (sym kept) r) in
    (nodes', rw there built, shaped ∙ kept)
