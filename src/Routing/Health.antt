-- ===== src/Routing/Health.antt =====
-- crates/raynet-core/src/routing.rs: the bounds that every edge keeps.
use raynet.Prelude.{
  ℕ, zero, suc, ◌+◌, ◌*◌, ◌/◌, ◌%◌, ◌^◌, ◌≤◌, ◌<◌, ◌≡◌, Bool, true, List, [], ◌∷◌, some, min, leb,
  ◌==◌, get_elem?, set, arith, All, Bool-cases, inl, inr, subst, Option-cases,
}
use native.Mathlib.Nat.{lt-mul-div-succ, mul-div-le}
use raynet.Machine.Types.{ChannelId}
use raynet.Routing.{Edge, RouteEdge, new_edge, loss_one}
use raynet.Routing.Edges.{
  edge_allowed, penalty, effective_capacity, fail_edge, observe_edge, recover_edge, is_recent,
}
use raynet.Routing.Feedback.{position, write_edge, find_edge}

-- The loss is a fraction of 65535, the retry delay lies between its first and its last value, and
-- the capacity is not zero.
pub record IsHealthy (edge : Edge) : Type 0 where
  pub loss_le : edge.loss ≤ loss_one
  pub delay_ge : 50 ≤ edge.retry_delay_ms
  pub delay_le : edge.retry_delay_ms ≤ 200
  pub some_capacity : 0 < edge.capacity_kbps

abbrev pub AllHealthy : List (List Edge) → Type 0
AllHealthy nodes = All (λ edges. All IsHealthy edges) nodes

pub new_edge-IsHealthy : (edge : RouteEdge) → IsHealthy (new_edge edge)
unfolding new_edge
new_edge-IsHealthy edge = record {
  loss_le = ground arith;
  delay_ge = ground arith;
  delay_le = ground arith;
  some_capacity = ground arith;
}

pub fail_edge_bounds :
    (edge : Edge) (elapsed_ms : ℕ) → IsHealthy edge → IsHealthy (fail_edge edge elapsed_ms)
unfolding fail_edge
fail_edge_bounds edge elapsed_ms v = record {
  loss_le = ground (arith, v);
  delay_ge = ground (arith, v);
  delay_le = ground (arith, v);
  some_capacity = v.some_capacity;
}

-- A failure, at a time that does not leave 64 bits, keeps an edge in its bounds. The edge is not
-- allowed until its old delay has passed, and the delay doubles, up to 200 ms; where the failure is
-- not older than the last observation, the loss is at least half afterwards.
pub fail_edge-IsHealthy :
    (edge : Edge) (elapsed_ms at : ℕ)
    → IsHealthy edge
    → elapsed_ms + 200 < 2 ^ 64
    → IsHealthy (fail_edge edge elapsed_ms)
      × (edge_allowed (fail_edge edge elapsed_ms) at ≡ leb (elapsed_ms + edge.retry_delay_ms) at)
      × ((fail_edge edge elapsed_ms).retry_delay_ms ≡ min (2 * edge.retry_delay_ms) 200)
      × (is_recent edge.last_observation_at elapsed_ms ≡ true
          → 32767 ≤ (fail_edge edge elapsed_ms).loss)
unfolding fail_edge edge_allowed
fail_edge-IsHealthy edge elapsed_ms at v h = (
  fail_edge_bounds edge elapsed_ms v,
  ground (arith, v),
  ground (arith, v),
  λ recent. ground (arith, v),
)

pub observe_edge-IsHealthy :
    (edge : Edge) (at : ℕ) (success : Bool)
    → IsHealthy edge
    → IsHealthy (observe_edge edge at success)
unfolding observe_edge
observe_edge-IsHealthy edge at success v = record {
  loss_le = ground (arith, v);
  delay_ge = ground (arith, v);
  delay_le = ground (arith, v);
  some_capacity = ground (arith, v);
}

pub recover_edge-IsHealthy : (edge : Edge) → IsHealthy edge → IsHealthy (recover_edge edge)
unfolding recover_edge
recover_edge-IsHealthy edge v = record {
  loss_le = v.loss_le;
  delay_ge = omega arith;
  delay_le = omega arith;
  some_capacity = v.some_capacity;
}

set-All {ℓ κ} :
    {A : Type ℓ} (P : A → Type κ) (xs : List A) (i : ℕ) (x : A)
    → P x
    → All P xs
    → All P (set xs i x)
set-All P [] i x h hs = tt
set-All P (y ∷ ys) zero x h (hy, hs) = (h, hs)
set-All P (y ∷ ys) (suc i) x h (hy, hs) = (hy, set-All P ys i x h hs)

pub get-All {ℓ κ} :
    {A : Type ℓ} (P : A → Type κ) (xs : List A) (i : ℕ) (x : A)
    → get_elem? xs i ≡ some x
    → All P xs
    → P x
get-All P [] i x e hs = absurd (cc e)
get-All P (y ∷ ys) zero x e (hy, hs) = let same : y ≡ x = cc e in subst P same hy
get-All P (y ∷ ys) (suc i) x e (hy, hs) = get-All P ys i x e hs

position-IsHealthy :
    (channel_id : ChannelId) (index : ℕ) (edges : List Edge) (i : ℕ) (edge : Edge)
    → position channel_id index edges ≡ some (i, edge)
    → All IsHealthy edges
    → IsHealthy edge
unfolding position
position-IsHealthy c index [] i edge e h = absurd (cc e)
position-IsHealthy c index (x ∷ xs) i edge e (hx, hs) = elim (Bool-cases (x.channel_id == c)) [
  | inl here ↦ let same : x ≡ edge = cc (rw here at e) in subst IsHealthy same hx
  | inr later ↦ position-IsHealthy c (index + 1) xs i edge (rw later at e) hs
]

module _ (nodes : List (List Edge)) (healthy : AllHealthy nodes) where
  pub write_edge-AllHealthy :
      (node index : ℕ) (edge : Edge)
      → IsHealthy edge
      → AllHealthy (write_edge nodes node index edge)
  unfolding write_edge
  write_edge-AllHealthy node index edge h = elim (Option-cases (get_elem? nodes node)) [
    | inl e ↦ rw (e, write_edge) healthy
    | inr (edges, e) ↦
        let row = get-All (λ es. All IsHealthy es) nodes node edges e healthy in
        rw (e, write_edge)
          (set-All (λ es. All IsHealthy es) nodes node (set edges index edge)
            (set-All IsHealthy edges index edge h row) healthy)
  ]

  pub find_edge-IsHealthy :
      (node : ℕ) (channel_id : ChannelId) (i : ℕ) (edge : Edge)
      → find_edge nodes node channel_id ≡ some (i, edge)
      → IsHealthy edge
  unfolding find_edge
  find_edge-IsHealthy node c i edge e = elim (Option-cases (get_elem? nodes node)) [
    | inl none_there ↦ absurd (cc (rw (none_there, find_edge) at e))
    | inr (edges, there) ↦
        position-IsHealthy c 0 edges i edge (rw (there, find_edge) at e)
          (get-All (λ es. All IsHealthy es) nodes node edges there healthy)
  ]

penalty_bounds :
    (edge : Edge) → edge.loss ≤ 65535 → (65536 ≤ penalty edge) × (penalty edge ≤ 16 * 65536)
unfolding penalty
penalty_bounds edge h =
    let loss = edge.loss in
    let square : loss * loss ≤ 65535 * 65535 = grind (arith, h) in
    let first : 15 * loss % 2 ^ 64 ≡ 15 * loss = omega arith in
    let second : 15 * loss * loss % 2 ^ 64 ≡ 15 * (loss * loss) = omega arith in
    let third : 15 * (loss * loss) * 65536 % 2 ^ 64 ≡ 15 * (loss * loss) * 65536 = omega arith in
    let share : 15 * (loss * loss) * 65536 / (65535 * 65535) ≤ 15 * 65536 = omega arith in
    rw (first, second, third) (omega arith, omega arith)

-- The loss of an edge in its bounds, with a capacity of 32 bits, slows it down at most 16 times:
-- the capacity that the planner counts with is at most the nominal one, and at least its sixteenth,
-- rounded down.
pub effective_capacity_bounds :
    (edge : Edge)
    → IsHealthy edge
    → edge.capacity_kbps < 2 ^ 32
    → (edge.capacity_kbps ≤ 16 * effective_capacity edge + 15)
      × (effective_capacity edge ≤ edge.capacity_kbps)
unfolding effective_capacity
effective_capacity_bounds edge v h =
    let (p_low, p_high) = penalty_bounds edge v.loss_le in
    let p = penalty edge in
    let scaled : edge.capacity_kbps * 65536 % 2 ^ 64 ≡ edge.capacity_kbps * 65536 = omega arith in
    let q = edge.capacity_kbps * 65536 / p in
    let below : edge.capacity_kbps * 65536 < p * (q + 1) =
      lt-mul-div-succ (edge.capacity_kbps * 65536) (omega (arith, p_low)) in
    let above : p * q ≤ edge.capacity_kbps * 65536 = mul-div-le (edge.capacity_kbps * 65536) p in
    let wide : p * (q + 1) ≤ 16 * 65536 * (q + 1) = grind (arith, p_high) in
    let narrow : 65536 * q ≤ p * q = grind (arith, p_low) in
    rw scaled (omega arith, omega (arith, v.some_capacity))
