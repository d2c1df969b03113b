-- ===== src/Kcp/Flush.antt =====
-- crates/raynet-core/src/kcp/kcp.rs: `wnd_unused`, `probe_wnd_size`, `emit_output`, `flush_ack`,
-- `flush_probe_command`, `flush_probe_commands` and `flush`.
pub mod Mtu
pub mod Congestion
pub mod Window
pub mod Soundness
pub mod Updates
pub mod Datagrams
pub mod Output
pub mod Emission
use raynet.Prelude.{
  ℕ, zero, suc, ◌+◌, ◌-◌, ◌*◌, ◌/◌, ◌%◌, ◌^◌, Bool, true, false, not, ◌&&◌, ◌||◌, List, [], ◌∷◌,
  ◌++◌, Option, none, some, bit_and, bit_or, length, min, max, ltb, leb, ◌==◌, if◌then◌else◌,
  Result, ok, err, add32, sub32, mul64,
}
use raynet.Prelude.Int.{pos, ltb_ℤ, leb_ℤ}
use raynet.Kcp.Types.{
  Kcp, KcpSegment, KcpError, need_update, cmd_push, cmd_ack, cmd_wask, cmd_wins, ask_send, ask_tell,
  kcp_overhead, thresh_min, timediff, new_with_data,
}
use raynet.Kcp.Codec.{ByteOrder, encode}
use raynet.Kcp.Schedule.{
  Sending, first_time, timed_out, skipped, kept, reaches, sending, rtomin, backed_off, schedule,
  stamp, is_timed_out, is_skipped, is_kept,
}

unfoldable pub wnd_unused : Kcp → ℕ
wnd_unused k =
    if ltb (length k.rcv_queue) k.rcv_wnd then k.rcv_wnd - length k.rcv_queue % 2 ^ 16 else 0

-- The wait for the next probe, half as long again.
unfoldable pub next_wait : Kcp → ℕ
next_wait k =
    let least = max k.probe_wait k.timing.probe_initial in
    min (add32 least (least / 2)) k.timing.probe_max

unfoldable pub probe_wnd_size : Kcp → Kcp
probe_wnd_size k =
    if not (k.rmt_wnd == 0)
    then record k { ts_probe = 0; probe_wait = 0 }
    else if k.probe_wait == 0
    then record k {
      probe_wait = k.timing.probe_initial;
      ts_probe = add32 k.current k.timing.probe_initial;
    }
    else if leb_ℤ (pos 0) (timediff k.current k.ts_probe)
    then record k {
      probe_wait = next_wait k;
      ts_probe = add32 k.current (next_wait k);
      probe = bit_or k.probe ask_send;
    }
    else k

-- `BytesMut` being split off is the buffer starting anew.
unfoldable pub emit_output : Kcp → Kcp
emit_output k =
    if length k.buf == 0 then k else record k { output = k.output ++ (k.buf ∷ []); buf = [] }

-- `if self.buf.len() + need > self.mtu { emit_output }`
unfoldable pub make_room : Kcp → ℕ → Kcp
make_room k need = if ltb k.mtu (length k.buf + need) then emit_output k else k

-- The move from `snd_queue` to `snd_buf`, for a window that ends at `window_end`.
unfoldable pub number_segment : Kcp → ℕ → ℕ → KcpSegment → KcpSegment
number_segment k wnd sn seg = record seg {
  conv = k.conv;
  cmd = cmd_push;
  wnd = wnd;
  ts = k.current;
  sn = sn;
  una = k.rcv_nxt;
  resendts = k.current;
  rto = k.rx_rto;
  fastack = 0;
  xmit = 0;
}

-- The queue that is left, the buffer and the next number.
pub record Filled : Type 0 where
  pub snd_queue : List KcpSegment
  pub snd_buf : List KcpSegment
  pub snd_nxt : ℕ

unfoldable pub fill_window : Kcp → ℕ → ℕ → List KcpSegment → List KcpSegment → ℕ → Filled
fill_window k wnd window_end [] buf nxt = record { snd_queue = []; snd_buf = buf; snd_nxt = nxt }
fill_window k wnd window_end (seg ∷ queue) buf nxt =
    let next =
      fill_window k wnd window_end queue (buf ++ (number_segment k wnd nxt seg ∷ []))
        (add32 nxt 1) in
    if ltb_ℤ (timediff nxt window_end) (pos 0)
    then next
    else record { snd_queue = seg ∷ queue; snd_buf = buf; snd_nxt = nxt }

-- The loop over `snd_buf`: the control block with its output, the segments, and whether any was
-- lost or sent again early.
pub record Sent : Type 0 where
  pub kcp : Kcp
  pub segments : List KcpSegment
  pub lost : Bool
  pub change : ℕ

-- What `flush` does with the windows once everything is sent; `cwnd` is the window it used.
unfoldable pub adjust_windows : Kcp → ℕ → ℕ → Bool → Kcp
adjust_windows k cwnd change lost =
    let inflight = sub32 k.snd_nxt k.snd_una in
    let ssthresh = max (inflight % 2 ^ 16 / 2) thresh_min in
    let resent : ℕ = elim k.fastresend [ none ↦ 0 | some threshold ↦ threshold ] in
    let opened = min (min (ssthresh + resent) (2 ^ 32 - 1)) (2 ^ 16 - 1) in
    let faster =
      if change == 0
      then k
      else record k { ssthresh = ssthresh; cwnd = opened; incr = mul64 opened k.mss } in
    let slower =
      if lost
      then record faster { ssthresh = max (cwnd / 2) thresh_min; cwnd = 1; incr = faster.mss }
      else faster in
    if ltb slower.cwnd 1 then record slower { cwnd = 1; incr = slower.mss } else slower

unfoldable pub send_window : Kcp → ℕ
send_window k =
    let cwnd = min k.snd_wnd k.rmt_wnd in if k.congestion_control then min cwnd k.cwnd else cwnd

-- The template of acknowledgements and probes.
unfoldable pub ack_template : Kcp → KcpSegment
ack_template k = record (new_with_data []) {
  conv = k.conv;
  cmd = cmd_ack;
  wnd = wnd_unused k;
  una = k.rcv_nxt;
}

unfoldable pub queue_to_buf : Kcp → ℕ → Kcp
queue_to_buf k wnd =
    let f = fill_window k wnd (add32 k.snd_una (send_window k)) k.snd_queue k.snd_buf k.snd_nxt in
    record k { snd_queue = f.snd_queue; snd_buf = f.snd_buf; snd_nxt = f.snd_nxt }

module _ (order : ByteOrder) where
  unfoldable pub put_segment : Kcp → KcpSegment → Kcp
  put_segment k seg =
      let k' = make_room k (kcp_overhead + length seg.bytes) in
      record k' { buf = k'.buf ++ encode order seg }

  -- `flush_ack`. The segment is a template that keeps the number and the time of the last
  -- acknowledgement.
  unfoldable pub flush_acks : Kcp → List (ℕ × ℕ) → KcpSegment → Kcp × KcpSegment
  flush_acks k [] seg = (k, seg)
  flush_acks k ((sn, ts) ∷ acks) seg =
      let seg' = record seg { sn = sn; ts = ts } in flush_acks (put_segment k seg') acks seg'

  unfoldable pub flush_ack : Kcp → KcpSegment → Kcp × KcpSegment
  flush_ack k seg =
      let (k', seg') = flush_acks k k.acklist seg in (record k' { acklist = [] }, seg')

  unfoldable pub flush_probe_command : Kcp → ℕ → KcpSegment → Kcp
  flush_probe_command k cmd seg = put_segment k (record seg { cmd = cmd })

  unfoldable pub flush_probe_commands : Kcp → KcpSegment → Kcp
  flush_probe_commands k seg =
      let asked =
        if not (bit_and k.probe ask_send == 0) then flush_probe_command k cmd_wask seg else k in
      let told =
        if not (bit_and asked.probe ask_tell == 0)
        then flush_probe_command asked cmd_wins seg
        else asked in
      record told { probe = 0 }

  unfoldable pub send_segments : Kcp → ℕ → List KcpSegment → Sent
  send_segments k wnd [] = record { kcp = k; segments = []; lost = false; change = 0 }
  send_segments k wnd (seg ∷ segs) =
      let how = sending k seg in
      let seg' = if is_kept how then seg else stamp k wnd (schedule k how seg) in
      let k' = if is_kept how then k else put_segment k seg' in
      let rest = send_segments k' wnd segs in
      record rest {
        segments = seg' ∷ rest.segments;
        lost = is_timed_out how || rest.lost;
        change = if is_skipped how then rest.change + 1 else rest.change;
      }

  -- The part of `flush` up to the move from the queue: acknowledgements and probes.
  unfoldable pub flush_control : Kcp → Kcp
  flush_control k =
      let (acked, seg) = flush_ack k (ack_template k) in
      flush_probe_commands (probe_wnd_size acked) seg

  unfoldable pub flush : Kcp → Kcp × Result KcpError (Unit {0})
  flush k =
      if not k.updated
      then (k, err need_update)
      else let wnd = wnd_unused k in
        let control = flush_control k in
        let filled = queue_to_buf control wnd in
        let sent = send_segments filled wnd filled.snd_buf in
        let emitted = emit_output (record sent.kcp { snd_buf = sent.segments }) in
        (adjust_windows emitted (send_window control) sent.change sent.lost, ok tt)
