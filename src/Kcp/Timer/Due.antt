-- ===== src/Kcp/Timer/Due.antt =====
-- crates/raynet-core/src/kcp/kcp.rs: `check` tells when to call `update`.
use raynet.Prelude.{
  ℕ, ◌-◌, ◌^◌, ◌≤◌, ◌<◌, ◌≡◌, refl, true, false, not, arith, if◌then◌else◌, Bool-cases, inl, inr,
  Option-cases, ok,
}
use raynet.Prelude.Int.{pos, leb_ℤ}
use raynet.Kcp.Types.{Kcp, timediff}
use raynet.Kcp.Codec.{ByteOrder}
use raynet.Kcp.Timer.{is_far, next_resend, check, start_update, update}

now_due : (current : ℕ) → leb_ℤ (pos 0) (timediff current current) ≡ true
unfolding timediff
now_due current = ground arith

-- Where `check` answers with a time, the last flush is near and the next one is not due.
check-not_due :
    (k : Kcp) (current : ℕ)
    → 0 < check k current
    → (k.updated ≡ true)
      × (is_far current k.ts_flush ≡ false)
      × (leb_ℤ (pos 0) (timediff current k.ts_flush) ≡ false)
unfolding check
check-not_due k current h =
    let self = now_due current in
    elim (Bool-cases (not k.updated)) [
      | inl early ↦ absurd (omega (arith, rw (early, check) at h))
      | inr updated ↦ elim (Bool-cases (is_far current k.ts_flush)) [
        | inl far ↦ absurd (omega (arith, rw (updated, far, self, check) at h))
        | inr near ↦ elim (Bool-cases (leb_ℤ (pos 0) (timediff current k.ts_flush))) [
          | inl due ↦ absurd (omega (arith, rw (updated, near, due, check) at h))
          | inr later ↦ (ground arith, near, later)
        ]
      ]
    ]

-- The time that `check` answers with is at most the flush interval.
pub check-le : (k : Kcp) (current : ℕ) → check k current ≤ k.timing.interval
unfolding check
check-le k current =
    let ts_flush = if is_far current k.ts_flush then current else k.ts_flush in
    elim (Bool-cases (not k.updated)) [
      | inl early ↦ rw (early, check) (omega arith)
      | inr updated ↦ elim (Bool-cases (leb_ℤ (pos 0) (timediff current ts_flush))) [
        | inl due ↦ rw (updated, due, check) (omega arith)
        | inr later ↦ elim (Option-cases (next_resend current k.snd_buf (2 ^ 32 - 1))) [
          | inl now ↦ rw (updated, later, now, check) (omega arith)
          | inr (tm_packet, at) ↦ rw (updated, later, at, check) (omega arith)
        ]
      ]
    ]

-- As long as the time that `check` answers with is not zero, an `update` at the time of the call puts
-- nothing out: it only notes the time.
pub update_early :
    (order : ByteOrder) (k : Kcp) (current : ℕ)
    → 0 < check k current
    → update order k current ≡ (record k { current = current }, ok tt)
unfolding update start_update
update_early order k current h =
    let (updated, near, later) = check-not_due k current h in rw (updated, near, later) refl
