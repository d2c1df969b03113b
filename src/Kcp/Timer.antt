-- ===== src/Kcp/Timer.antt =====
-- crates/raynet-core/src/kcp/kcp.rs: `check`, `wait_snd`, `take_output` and `update`.
pub mod Due
use raynet.Prelude.{
  ℕ, ◌+◌, ◌-◌, ◌^◌, Bool, true, not, ◌||◌, List, [], ◌∷◌, Option, none, some, length, min,
  if◌then◌else◌, Result, ok, add32,
}
use raynet.Prelude.Int.{pos, negsuc, ltb_ℤ, leb_ℤ, pos_part}
use raynet.Kcp.Types.{Kcp, KcpSegment, KcpError, timediff}
use raynet.Kcp.Codec.{ByteOrder}
use raynet.Kcp.Flush.{flush}

-- Whether a difference lies outside of -10000..10000.
unfoldable pub is_far : ℕ → ℕ → Bool
is_far current ts_flush =
    leb_ℤ (pos 10000) (timediff current ts_flush) || ltb_ℤ (timediff current ts_flush) (negsuc 9999)

-- The loop of `check`; `none` is the early return of zero.
unfoldable pub next_resend : ℕ → List KcpSegment → ℕ → Option ℕ
next_resend current [] tm_packet = some tm_packet
next_resend current (seg ∷ segs) tm_packet =
    let diff = timediff seg.resendts current in
    let rest = next_resend current segs (min tm_packet (pos_part diff)) in
    if leb_ℤ diff (pos 0) then none else rest

unfoldable pub check : Kcp → ℕ → ℕ
check k current =
    let ts_flush = if is_far current k.ts_flush then current else k.ts_flush in
    if not k.updated
    then 0
    else if leb_ℤ (pos 0) (timediff current ts_flush)
    then 0
    else elim (next_resend current k.snd_buf (2 ^ 32 - 1)) [
      | none ↦ 0
      | some tm_packet ↦
          min (min tm_packet (pos_part (timediff ts_flush current))) k.timing.interval
    ]

unfoldable pub wait_snd : Kcp → ℕ
wait_snd k = length k.snd_buf + length k.snd_queue

unfoldable pub take_output : Kcp → Kcp × List (List ℕ)
take_output k = (record k { output = [] }, k.output)

-- The state of the clock before the flush of `update`, and whether it is time to flush.
unfoldable pub start_update : Kcp → ℕ → Kcp
start_update k current =
    if k.updated
    then record k { current = current }
    else record k { current = current; updated = true; ts_flush = current }

unfoldable pub advance_flush : Kcp → Kcp
advance_flush k =
    let next = add32 k.ts_flush k.timing.interval in
    if leb_ℤ (pos 0) (timediff k.current next)
    then record k { ts_flush = add32 k.current k.timing.interval }
    else record k { ts_flush = next }

unfoldable pub update : ByteOrder → Kcp → ℕ → Kcp × Result KcpError (Unit {0})
update order k current =
    let started = start_update k current in
    let timed =
      if is_far started.current started.ts_flush
      then record started { ts_flush = started.current }
      else started in
    if leb_ℤ (pos 0) (timediff timed.current timed.ts_flush)
    then flush order (advance_flush timed)
    else (timed, ok tt)
