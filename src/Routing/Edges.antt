-- ===== src/Routing/Edges.antt =====
-- crates/raynet-core/src/routing.rs: `edge_allowed`, `serialization_time`, `latency` and `reserve`,
-- and what a failure or an observation does to one edge.
use raynet.Prelude.{
  ℕ, ◌*◌, ◌/◌, Bool, true, Option, none, some, max, min, leb, if◌then◌else◌, add64, mul64, add32,
  sub32, mul32,
}
use raynet.Kcp.Send.{div_ceil}
use raynet.Limits.{local_cooldown_initial_ms, local_cooldown_max_ms}
use raynet.Routing.{Edge, fixed_one, loss_one}

unfoldable pub edge_allowed : Edge → ℕ → Bool
edge_allowed edge elapsed_ms = leb edge.cooldown_until elapsed_ms

unfoldable pub penalty : Edge → ℕ
penalty edge =
    add64 fixed_one (mul64 (mul64 (mul64 15 edge.loss) edge.loss) fixed_one / (loss_one * loss_one))

unfoldable pub effective_capacity : Edge → ℕ
effective_capacity edge = max (mul64 edge.capacity_kbps fixed_one / penalty edge) 1

unfoldable pub serialization_time : Edge → ℕ → ℕ
serialization_time edge bytes = div_ceil (mul64 (mul64 bytes 8) fixed_one) (effective_capacity edge)

unfoldable pub latency : Edge → ℕ
latency edge = mul64 edge.latency_ms fixed_one

-- One round of the loop of `reserve`: the edge, and the cursor for the next one.
unfoldable pub reserve_edge : Edge → ℕ → ℕ → ℕ → Bool → Edge × ℕ
reserve_edge edge cursor elapsed_ms scheduled_bytes sample =
    let finished =
      add64 (max cursor edge.virtual_free_at) (serialization_time edge scheduled_bytes) in
    (
      record edge {
        virtual_free_at = finished;
        last_sampled = if sample then some elapsed_ms else edge.last_sampled;
      },
      add64 finished (latency edge),
    )

-- `is_none_or(|last| at >= last)`.
unfoldable pub is_recent : Option ℕ → ℕ → Bool
is_recent none at = true
is_recent (some last) at = leb last at

-- What `note_local_send_failure` does to the edge that it finds.
unfoldable pub fail_edge : Edge → ℕ → Edge
fail_edge edge elapsed_ms =
    let recent = is_recent edge.last_observation_at elapsed_ms in
    record edge {
      loss = if recent then add32 edge.loss (sub32 loss_one edge.loss / 2) else edge.loss;
      last_observation_at = if recent then some elapsed_ms else edge.last_observation_at;
      cooldown_until = add64 elapsed_ms edge.retry_delay_ms;
      retry_delay_ms = min (mul64 edge.retry_delay_ms 2) local_cooldown_max_ms;
    }

-- What `note_feedback` does to an edge of the plan, if the observation is not an old one.
unfoldable pub observe_edge : Edge → ℕ → Bool → Edge
observe_edge edge observation_at success =
    if is_recent edge.last_observation_at observation_at
    then record edge {
      loss =
          if success
          then mul32 edge.loss 3 / 4
          else add32 edge.loss (sub32 loss_one edge.loss / 16);
      last_observation_at = some observation_at;
    }
    else edge

-- The end of `note_feedback`, for the first edge of the plan.
unfoldable pub recover_edge : Edge → Edge
recover_edge edge = record edge { cooldown_until = 0; retry_delay_ms = local_cooldown_initial_ms }
