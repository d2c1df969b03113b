-- ===== src/Kcp/Flush/Datagrams.antt =====
-- crates/raynet-core/src/kcp/kcp.rs: no packet that `flush` puts out is empty or larger than `mtu`.
use raynet.Prelude.{
  ℕ, Bool, not, List, [], ◌∷◌, ◌++◌, arith, add32, All, All-append, Bool-cases, inl, inr,
}
use raynet.Kcp.Types.{Kcp, KcpSegment, timediff}
use raynet.Prelude.Int.{pos, ltb_ℤ}
use raynet.Kcp.Codec.{ByteOrder}
use raynet.Kcp.Send.Fragments.{AtMost}
use raynet.Kcp.Flush.Mtu.{Fits, emit_output-Fits, put_segment-Fits, flush_control-Fits}
use raynet.Kcp.Flush.{
  emit_output, put_segment, flush_control, fill_window, number_segment, queue_to_buf, send_segments,
  adjust_windows, flush, wnd_unused, send_window,
}
use raynet.Kcp.Schedule.{
  Sending, first_time, timed_out, skipped, kept, sending, schedule, stamp, is_kept,
}

module _ (mss mtu : ℕ) where
  module _ (order : ByteOrder) where
    fill_window-AtMost :
        (k : Kcp) (wnd window_end : ℕ) (queue buf : List KcpSegment) (nxt : ℕ)
        → All (AtMost mss) queue
        → All (AtMost mss) buf
        → All (AtMost mss) (fill_window k wnd window_end queue buf nxt).snd_queue
          × All (AtMost mss) (fill_window k wnd window_end queue buf nxt).snd_buf
    unfolding fill_window number_segment
    fill_window-AtMost k wnd window_end [] buf nxt hq hb = (tt, hb)
    fill_window-AtMost k wnd window_end (seg ∷ queue) buf nxt (h, hq) hb =
        let seg' = number_segment k wnd nxt seg in
        let more : All (AtMost mss) (buf ++ (seg' ∷ [])) =
          All-append (AtMost mss) buf (seg' ∷ []) hb (h, tt) in
        elim (Bool-cases (ltb_ℤ (timediff nxt window_end) (pos 0))) [
          | inl inside ↦
              rw inside (
                fill_window-AtMost k wnd window_end queue (buf ++ (seg' ∷ [])) (add32 nxt 1) hq
                  more)
          | inr outside ↦ rw outside ((h, hq), hb)
        ]

    queue_to_buf-Fits : (k : Kcp) (wnd : ℕ) → Fits mss mtu k → Fits mss mtu (queue_to_buf k wnd)
    unfolding queue_to_buf
    queue_to_buf-Fits k wnd v =
        let window_end = add32 k.snd_una (send_window k) in
        let (hq, hb) =
          fill_window-AtMost k wnd window_end k.snd_queue k.snd_buf k.snd_nxt v.waiting_le
            v.sending_le in
        record {
          mtu_eq = v.mtu_eq;
          mss_le = v.mss_le;
          buf_le = v.buf_le;
          datagrams = v.datagrams;
          sending_le = hb;
          waiting_le = hq;
        }

    schedule-AtMost :
        (k : Kcp) (wnd : ℕ) (how : Sending) (seg : KcpSegment)
        → AtMost mss seg
        → AtMost mss (stamp k wnd (schedule k how seg))
    unfolding stamp schedule
    schedule-AtMost k wnd first_time seg h = h
    schedule-AtMost k wnd timed_out seg h = h
    schedule-AtMost k wnd skipped seg h = h
    schedule-AtMost k wnd kept seg h = h

    send_segments-Fits :
        (k : Kcp) (wnd : ℕ) (segs : List KcpSegment)
        → All (AtMost mss) segs
        → Fits mss mtu k
        → Fits mss mtu (send_segments order k wnd segs).kcp
          × All (AtMost mss) (send_segments order k wnd segs).segments
    unfolding send_segments
    send_segments-Fits k wnd [] h v = (v, tt)
    send_segments-Fits k wnd (seg ∷ segs) (h, hs) v = elim (Bool-cases (is_kept (sending k seg))) [
      | inl keep ↦
          let (fits, rest) = send_segments-Fits k wnd segs hs v in rw keep (fits, (h, rest))
      | inr put ↦
          let seg' = stamp k wnd (schedule k (sending k seg) seg) in
          let small = schedule-AtMost k wnd (sending k seg) seg h in
          let (fits, rest) =
            send_segments-Fits (put_segment order k seg') wnd segs hs
              (put_segment-Fits mss mtu order k seg' small v) in
          rw put (fits, (small, rest))
    ]

    adjust_windows-Fits :
        (k : Kcp) (cwnd change : ℕ) (lost : Bool)
        → Fits mss mtu k
        → Fits mss mtu (adjust_windows k cwnd change lost)
    unfolding adjust_windows
    adjust_windows-Fits k cwnd change lost v = record {
      mtu_eq = ground (arith, v);
      mss_le = v.mss_le;
      buf_le = ground (arith, v);
      datagrams = ground (arith, v);
      sending_le = ground (arith, v);
      waiting_le = ground (arith, v);
    }

    -- The part of `flush` that follows the acknowledgements and probes.
    flush_data-Fits :
        (k : Kcp) (wnd : ℕ)
        → Fits mss mtu k
        → let filled = queue_to_buf k wnd in
          let sent = send_segments order filled wnd filled.snd_buf in
          let emitted = emit_output (record sent.kcp { snd_buf = sent.segments }) in
          Fits mss mtu emitted
    flush_data-Fits k wnd v =
        let filled = queue_to_buf-Fits k wnd v in
        let (sent, small) =
          send_segments-Fits (queue_to_buf k wnd) wnd (queue_to_buf k wnd).snd_buf filled.sending_le
            filled in
        let s = send_segments order (queue_to_buf k wnd) wnd (queue_to_buf k wnd).snd_buf in
        (emit_output-Fits mss mtu (record s.kcp { snd_buf = s.segments })
          (record {
            mtu_eq = sent.mtu_eq;
            mss_le = sent.mss_le;
            buf_le = sent.buf_le;
            datagrams = sent.datagrams;
            sending_le = small;
            waiting_le = sent.waiting_le;
          })).0

    -- Every datagram that `flush` puts out is neither empty nor larger than `mtu`, whatever mixture
    -- of acknowledgements, probes, new segments and repetitions it holds, where the segments that
    -- wait leave room for a header; and this is so again for the state that `flush` leaves.
    pub flush-Fits : (k : Kcp) → Fits mss mtu k → Fits mss mtu (flush order k).0
    unfolding flush
    flush-Fits k v = elim (Bool-cases (not k.updated)) [
      | inl early ↦ rw early v
      | inr updated ↦
          let control = flush_control order k in
          let filled = queue_to_buf control (wnd_unused k) in
          let sent = send_segments order filled (wnd_unused k) filled.snd_buf in
          rw updated (
            adjust_windows-Fits (emit_output (record sent.kcp { snd_buf = sent.segments }))
              (send_window control) sent.change sent.lost
              (flush_data-Fits control (wnd_unused k) (flush_control-Fits mss mtu order k v)))
    ]
