-- ===== src/Kcp/Flush/Emission.antt =====
-- crates/raynet-core/src/kcp/kcp.rs: the bytes that `flush` puts out.
use raynet.Prelude.{
  ℕ, ◌≡◌, refl, sym, ap, ◌∙◌, Bool, true, false, not, List, [], ◌∷◌, ◌++◌, append_assoc, append-nil,
  if◌then◌else◌, Bool-cases, inl, inr, arith, add32,
}
use raynet.Kcp.Types.{Kcp, KcpSegment}
use raynet.Kcp.Codec.{ByteOrder, encode}
use raynet.Kcp.Schedule.{
  Sending, first_time, timed_out, skipped, kept, sending, schedule, stamp, is_kept, rtomin,
  backed_off,
}
use raynet.Kcp.Flush.{
  wnd_unused, emit_output, number_segment, fill_window, adjust_windows, send_window, queue_to_buf,
  put_segment, send_segments, flush_control, flush,
}
use raynet.Kcp.Flush.Output.{
  joined, all_bytes, with_output, with_control, Puts, Puts-trans, nothing_put, emit_output-Puts,
  put_segment-Puts, control_due, flush_control-Puts,
}

module _ (order : ByteOrder) where
  -- The segments of the send buffer that are sent now, for the first time or again.
  abbrev pub data_due : Kcp → ℕ → List KcpSegment → List ℕ
  data_due k wnd [] = []
  data_due k wnd (seg ∷ segs) =
      if is_kept (sending k seg)
      then data_due k wnd segs
      else encode order (stamp k wnd (schedule k (sending k seg) seg)) ++ data_due k wnd segs

  stamp-control :
      (k other : Kcp) (wnd : ℕ) (how : Sending) (seg : KcpSegment)
      → stamp (with_control k other) wnd (schedule (with_control k other) how seg)
        ≡ stamp k wnd (schedule k how seg)
  unfolding schedule stamp rtomin backed_off
  stamp-control k other wnd first_time seg = refl
  stamp-control k other wnd timed_out seg = refl
  stamp-control k other wnd skipped seg = refl
  stamp-control k other wnd kept seg = refl

  data_due-control :
      (k other : Kcp) (wnd : ℕ) (segs : List KcpSegment)
      → data_due (with_control k other) wnd segs ≡ data_due k wnd segs
  unfolding sending
  data_due-control k other wnd [] = refl
  data_due-control k other wnd (seg ∷ segs) =
      rw (stamp-control k other wnd (sending k seg) seg, data_due-control k other wnd segs) refl

  fill_window-control :
      (k other : Kcp) (wnd window_end : ℕ) (queue buf : List KcpSegment) (nxt : ℕ)
      → fill_window (with_control k other) wnd window_end queue buf nxt
        ≡ fill_window k wnd window_end queue buf nxt
  unfolding fill_window number_segment
  fill_window-control k other wnd window_end [] buf nxt = refl
  fill_window-control k other wnd window_end (seg ∷ queue) buf nxt =
      rw
        (fill_window-control k other wnd window_end queue
          (buf ++ (number_segment k wnd nxt seg ∷ [])) (add32 nxt 1))
        refl

  queue_to_buf-control :
      (k other : Kcp) (wnd : ℕ)
      → queue_to_buf (with_control k other) wnd ≡ with_control (queue_to_buf k wnd) other
  unfolding queue_to_buf send_window
  queue_to_buf-control k other wnd =
      rw
        (fill_window-control k other wnd (add32 k.snd_una (send_window k)) k.snd_queue k.snd_buf
          k.snd_nxt)
        refl

  send_segments-Puts :
      (k : Kcp) (wnd : ℕ) (segs : List KcpSegment)
      → Puts k (data_due k wnd segs) (send_segments order k wnd segs).kcp
  unfolding send_segments
  send_segments-Puts k wnd [] = nothing_put k
  send_segments-Puts k wnd (seg ∷ segs) = elim (Bool-cases (is_kept (sending k seg))) [
    | inl keep ↦ rw keep (send_segments-Puts k wnd segs)
    | inr put ↦
        let seg' = stamp k wnd (schedule k (sending k seg) seg) in
        let k' = put_segment order k seg' in
        let first = put_segment-Puts order k seg' in
        let as_before : data_due k' wnd segs ≡ data_due k wnd segs =
          ap (λ (x : Kcp). data_due x wnd segs) first.same
          ∙ data_due-control k (with_output k k') wnd segs in
        rw put (
          Puts-trans k k' _ (encode order seg') (data_due k wnd segs) first
            (rw as_before at (send_segments-Puts k' wnd segs)))
  ]

  adjust_windows-output :
      (k : Kcp) (cwnd change : ℕ) (lost : Bool)
      → ((adjust_windows k cwnd change lost).buf ≡ k.buf)
        × ((adjust_windows k cwnd change lost).output ≡ k.output)
  unfolding adjust_windows
  adjust_windows-output k cwnd change lost = ground arith

  -- The part of `flush` that follows the acknowledgements and probes.
  flush_data-Puts :
      (k : Kcp) (wnd : ℕ)
      → let filled = queue_to_buf k wnd in
        let sent = send_segments order filled wnd filled.snd_buf in
        let emitted = emit_output (record sent.kcp { snd_buf = sent.segments }) in
        (emitted.buf ≡ []) × (all_bytes emitted ≡ all_bytes k ++ data_due filled wnd filled.snd_buf)
  unfolding queue_to_buf
  flush_data-Puts k wnd =
      let filled = queue_to_buf k wnd in
      let sent = send_segments order filled wnd filled.snd_buf in
      let (nothing_more, none_left) =
        emit_output-Puts (record sent.kcp { snd_buf = sent.segments }) in
      (
        none_left,
        nothing_more.put
            ∙ append-nil (all_bytes sent.kcp)
            ∙ (send_segments-Puts filled wnd filled.snd_buf).put,
      )

  -- After the first `update`, `flush` leaves nothing in the buffer, and what is put out is what was
  -- put out and buffered before, followed by each waiting acknowledgement in its order, the probes
  -- that are asked for, and then, in the order of the send buffer behind the move from the queue,
  -- each segment that is due for the first time or again, and nothing else.
  pub flush_emits :
      (k : Kcp)
      → k.updated ≡ true
      → let wnd = wnd_unused k in
        let filled = queue_to_buf k wnd in
        ((flush order k).0.buf ≡ [])
        × (joined (flush order k).0.output
            ≡ all_bytes k ++ (control_due order k ++ data_due filled wnd filled.snd_buf))
  unfolding flush
  flush_emits k updated =
      let wnd = wnd_unused k in
      let filled = queue_to_buf k wnd in
      let control = flush_control order k in
      let ready : not k.updated ≡ false = ap not updated in
      let (same, put) = flush_control-Puts order k in
      let (emptied, sent_too) = flush_data-Puts control wnd in
      let sent =
        send_segments order (queue_to_buf control wnd) wnd (queue_to_buf control wnd).snd_buf in
      let emitted = emit_output (record sent.kcp { snd_buf = sent.segments }) in
      let (buf_kept, output_kept) =
        adjust_windows-output emitted (send_window control) sent.change sent.lost in
      let moved : queue_to_buf control wnd ≡ with_control filled control =
        ap (λ (x : Kcp). queue_to_buf x wnd) same ∙ queue_to_buf-control k control wnd in
      let due : data_due (queue_to_buf control wnd) wnd (queue_to_buf control wnd).snd_buf
          ≡ data_due filled wnd filled.snd_buf =
        ap (λ (x : Kcp). data_due x wnd x.snd_buf) moved
        ∙ data_due-control filled control wnd filled.snd_buf in
      rw ready (
        buf_kept ∙ emptied,
        ap joined output_kept
            ∙ sym (append-nil (joined emitted.output))
            ∙ ap (λ (rest : List ℕ). joined emitted.output ++ rest) (sym emptied)
            ∙ sent_too
            ∙ ap (λ (later : List ℕ). all_bytes control ++ later) due
            ∙ ap (λ (before : List ℕ). before ++ data_due filled wnd filled.snd_buf) put
            ∙ append_assoc (all_bytes k) (control_due order k) (data_due filled wnd filled.snd_buf),
      )
