-- ===== src/Kcp/Flush/Soundness.antt =====
-- crates/raynet-core/src/kcp/kcp.rs: what the parts of `flush` leave as it is.
use raynet.Prelude.{
  ℕ, ◌+◌, ◌≤◌, ◌<◌, ◌≡◌, refl, sym, ◌∙◌, subst, Bool, true, false, not, List, [], ◌∷◌, ◌==◌,
  if◌then◌else◌, arith, IsU32, Bool-cases, inl, inr, bit_and,
}
use raynet.Kcp.Types.{Kcp, KcpSegment, ask_send, ask_tell}
use raynet.Kcp.Codec.{ByteOrder}
use raynet.Kcp.Receive.Order.{ahead, Between}
use raynet.Kcp.Input.Soundness.{Sound, SameReceiver, SameSender, InOrder-same, Outstanding-same}
use raynet.Kcp.Flush.{
  emit_output, make_room, put_segment, flush_acks, flush_ack, flush_probe_command,
  flush_probe_commands, probe_wnd_size, flush_control, send_segments, adjust_windows, ack_template,
}
use raynet.Kcp.Schedule.{
  Sending, first_time, timed_out, skipped, kept, sending, schedule, stamp, is_kept,
}
use raynet.Kcp.Timer.{start_update, advance_flush}

abbrev pub Same : Kcp → Kcp → Type 0
Same k k' = SameReceiver k k' × SameSender k k'

pub Sound-Same : (first : ℕ) (k k' : Kcp) → Same k k' → Sound first k → Sound first k'
Sound-Same first k k' (r, s) v = record {
  receiving = InOrder-same first k k' r v.receiving;
  sending = Outstanding-same k k' s v.sending;
}

Same-trans : (a b c : Kcp) → Same a b → Same b c → Same a c
Same-trans a b c ((r1, r2, r3, r4), (s1, s2, s3, s4)) ((r1', r2', r3', r4'), (s1', s2', s3', s4')) =
    ((r1 ∙ r1', r2 ∙ r2', r3 ∙ r3', r4 ∙ r4'), (s1 ∙ s1', s2 ∙ s2', s3 ∙ s3', s4 ∙ s4'))

pub emit_output-Same : (k : Kcp) → Same k (emit_output k)
unfolding emit_output
emit_output-Same k = ground arith

probe_wnd_size-Same : (k : Kcp) → Same k (probe_wnd_size k)
unfolding probe_wnd_size
probe_wnd_size-Same k = ground arith

pub adjust_windows-Same :
    (k : Kcp) (cwnd change : ℕ) (lost : Bool) → Same k (adjust_windows k cwnd change lost)
unfolding adjust_windows
adjust_windows-Same k cwnd change lost = ground arith

pub start_update-Same : (k : Kcp) (current : ℕ) → Same k (start_update k current)
unfolding start_update
start_update-Same k current = ground arith

pub advance_flush-Same : (k : Kcp) → Same k (advance_flush k)
unfolding advance_flush
advance_flush-Same k = ground arith

schedule-sn :
    (k : Kcp) (wnd : ℕ) (how : Sending) (seg : KcpSegment)
    → (stamp k wnd (schedule k how seg)).sn ≡ seg.sn
unfolding stamp schedule
schedule-sn k wnd first_time seg = refl
schedule-sn k wnd timed_out seg = refl
schedule-sn k wnd skipped seg = refl
schedule-sn k wnd kept seg = refl

module _ (order : ByteOrder) where
  put_segment-Same : (k : Kcp) (seg : KcpSegment) → Same k (put_segment order k seg)
  unfolding put_segment make_room emit_output
  put_segment-Same k seg = ground arith

  flush_acks-Same :
      (acks : List (ℕ × ℕ)) (k : Kcp) (seg : KcpSegment) → Same k (flush_acks order k acks seg).0
  unfolding flush_acks
  flush_acks-Same [] k seg = ((refl, refl, refl, refl), (refl, refl, refl, refl))
  flush_acks-Same ((sn, ts) ∷ acks) k seg =
      let seg' = record seg { sn = sn; ts = ts } in
      let k' = put_segment order k seg' in
      Same-trans k k' (flush_acks order k' acks seg').0 (put_segment-Same k seg')
        (flush_acks-Same acks k' seg')

  flush_probe_command-Same :
      (asked : Bool) (cmd : ℕ) (k : Kcp) (seg : KcpSegment)
      → Same k (if asked then flush_probe_command order k cmd seg else k)
  unfolding flush_probe_command
  flush_probe_command-Same false cmd k seg = ((refl, refl, refl, refl), (refl, refl, refl, refl))
  flush_probe_command-Same true cmd k seg = put_segment-Same k (record seg { cmd = cmd })

  flush_probe_commands-Same :
      (k : Kcp) (seg : KcpSegment) → Same k (flush_probe_commands order k seg)
  unfolding flush_probe_commands
  flush_probe_commands-Same k seg =
      let asks = not (bit_and k.probe ask_send == 0) in
      let k' = if asks then flush_probe_command order k 83 seg else k in
      let tells = not (bit_and k'.probe ask_tell == 0) in
      Same-trans k k' (if tells then flush_probe_command order k' 84 seg else k')
        (flush_probe_command-Same asks 83 k seg) (flush_probe_command-Same tells 84 k' seg)

  pub flush_control-Same : (k : Kcp) → Same k (flush_control order k)
  unfolding flush_control flush_ack
  flush_control-Same k =
      let acked = (flush_acks order k k.acklist (ack_template k)).0 in
      let seg = (flush_acks order k k.acklist (ack_template k)).1 in
      let cleared = record acked { acklist = [] } in
      let probed = probe_wnd_size cleared in
      let first : Same k cleared = flush_acks-Same k.acklist k (ack_template k) in
      let second : Same k probed =
        Same-trans k cleared probed first (probe_wnd_size-Same cleared) in
      Same-trans k probed (flush_probe_commands order probed seg) second
        (flush_probe_commands-Same probed seg)

  -- The numbers of the segments are not changed by being sent.
  pub send_segments-Between :
      (k : Kcp) (wnd nxt low high : ℕ) (segs : List KcpSegment)
      → Between nxt low high segs
      → Same k (send_segments order k wnd segs).kcp
        × Between nxt low high (send_segments order k wnd segs).segments
  unfolding send_segments
  send_segments-Between k wnd nxt low high [] b =
      (((refl, refl, refl, refl), (refl, refl, refl, refl)), b)
  send_segments-Between k wnd nxt low high (seg ∷ segs) (u, l, h, b) =
      elim (Bool-cases (is_kept (sending k seg))) [
        | inl keep ↦
            let (same, rest) = send_segments-Between k wnd nxt (ahead nxt seg.sn + 1) high segs b in
            rw keep (same, (u, l, h, rest))
        | inr put ↦
            let seg' = stamp k wnd (schedule k (sending k seg) seg) in
            let k' = put_segment order k seg' in
            let (same, rest) =
              send_segments-Between k' wnd nxt (ahead nxt seg.sn + 1) high segs b in
            let sn_eq = schedule-sn k wnd (sending k seg) seg in
            let rest_segs = (send_segments order k' wnd segs).segments in
            let front =
              subst
                (λ sn.
                  IsU32 sn
                  × (low ≤ ahead nxt sn)
                  × (ahead nxt sn < high)
                  × Between nxt (ahead nxt sn + 1) high rest_segs)
                (sym sn_eq) (u, l, h, rest) in
            rw put (
              Same-trans k k' (send_segments order k' wnd segs).kcp (put_segment-Same k seg') same,
              front,
            )
      ]
