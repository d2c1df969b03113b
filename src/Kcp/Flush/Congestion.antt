-- ===== src/Kcp/Flush/Congestion.antt =====
-- crates/raynet-core/src/kcp/kcp.rs: the bounds of the congestion window and of the probes for the
-- window of the peer.
use raynet.Prelude.{
  ℕ, ◌^◌, ◌≤◌, ◌<◌, ◌≡◌, ◌⊎◌, Bool, true, false, not, ◌&&◌, max, ltb, ◌==◌, if◌then◌else◌, arith,
  is_some, Bool-cases, inl, inr,
}
use raynet.Prelude.Int.{pos, ltb_ℤ}
use raynet.Kcp.Types.{Kcp, timediff}
use raynet.Kcp.Codec.{ByteOrder}
use raynet.Kcp.Acks.{parse_fastack}
use raynet.Kcp.Input.{AckState, grow_cwnd, after_loop}
use raynet.Kcp.Flush.{
  flush, flush_control, queue_to_buf, send_segments, emit_output, adjust_windows, send_window,
  wnd_unused, probe_wnd_size, next_wait,
}

adjust_windows-cwnd :
    (k : Kcp) (cwnd change : ℕ) (lost : Bool) → 1 ≤ (adjust_windows k cwnd change lost).cwnd
unfolding adjust_windows
adjust_windows-cwnd k cwnd change lost = ground arith

-- After a `flush` that follows the first `update`, the congestion window admits a segment, whatever
-- was lost: the sender is not stopped by its own window.
pub flush-cwnd : (order : ByteOrder) (k : Kcp) → k.updated ≡ true → 1 ≤ (flush order k).0.cwnd
unfolding flush
flush-cwnd order k updated =
    let wnd = wnd_unused k in
    let control = flush_control order k in
    let filled = queue_to_buf control wnd in
    let sent = send_segments order filled wnd filled.snd_buf in
    let emitted = emit_output (record sent.kcp { snd_buf = sent.segments }) in
    let ready : not k.updated ≡ false = ground arith in
    rw ready (adjust_windows-cwnd emitted (send_window control) sent.change sent.lost)

grow_cwnd-le : (k : Kcp) → (grow_cwnd k).cwnd ≤ k.rmt_wnd
unfolding grow_cwnd
grow_cwnd-le k = ground arith

parse_fastack-windows :
    (k : Kcp) (sn ts : ℕ)
    → ((parse_fastack k sn ts).cwnd ≡ k.cwnd) × ((parse_fastack k sn ts).rmt_wnd ≡ k.rmt_wnd)
unfolding parse_fastack
parse_fastack-windows k sn ts = ground arith

-- What `input` does at its end leaves the congestion window within what it was or the window of the
-- peer, whichever is greater.
pub after_loop-cwnd :
    (k : Kcp) (a : AckState) (old_una : ℕ) → (after_loop k a old_una).cwnd ≤ max k.cwnd k.rmt_wnd
unfolding after_loop
after_loop-cwnd k a old_una = elim (Bool-cases (a.flag && is_some k.fastresend)) [
  | inl skips ↦
      let k' = parse_fastack k a.max_ack a.latest_ts in
      let (same_cwnd, same_wnd) = parse_fastack-windows k a.max_ack a.latest_ts in
      rw skips (omega (arith, grown k', same_cwnd, same_wnd))
  | inr none_skipped ↦ rw none_skipped (grown k)
]
  where
    grown :
        (k' : Kcp)
        → (if ltb_ℤ (pos 0) (timediff k'.snd_una old_una) && ltb k'.cwnd k'.rmt_wnd
            then grow_cwnd k'
            else k').cwnd
          ≤ max k'.cwnd k'.rmt_wnd
    grown k' =
        elim (Bool-cases (ltb_ℤ (pos 0) (timediff k'.snd_una old_una) && ltb k'.cwnd k'.rmt_wnd)) [
          | inl grows ↦ rw grows (omega (arith, grow_cwnd-le k'))
          | inr stays ↦ rw stays (omega arith)
        ]

-- The wait between two probes is zero, or lies between its first value and its last.
pub record IsProbing (k : Kcp) : Type 0 where
  pub initial_le_max : k.timing.probe_initial ≤ k.timing.probe_max
  pub max_in : k.timing.probe_max < 2 ^ 31
  pub wait : (k.probe_wait ≡ 0) ⊎ (k.timing.probe_initial ≤ k.probe_wait)
  pub wait_le : k.probe_wait ≤ k.timing.probe_max

-- The wait between probes stays in its bounds; it is zero as long as the peer has a window, and not
-- shorter than before as long as it has none.
pub probe_wnd_size-IsProbing :
    (k : Kcp)
    → IsProbing k
    → IsProbing (probe_wnd_size k)
      × (if k.rmt_wnd == 0
          then k.probe_wait ≤ (probe_wnd_size k).probe_wait
          else (probe_wnd_size k).probe_wait ≡ 0)
unfolding probe_wnd_size next_wait
probe_wnd_size-IsProbing k v = (
  record {
    initial_le_max = ground (arith, v);
    max_in = ground (arith, v);
    wait = grind (arith, v.wait, v.initial_le_max, v.max_in, v.wait_le);
    wait_le = ground (arith, v);
  },
  ground (arith, v),
)
