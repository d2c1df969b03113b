-- ===== src/Kcp/Flush/Updates.antt =====
-- crates/raynet-core/src/kcp/kcp.rs: `flush` and `update` keep the received segments in order and
-- the sent ones outstanding.
use raynet.Prelude.{ℕ, refl, not, if◌then◌else◌, Bool-cases, inl, inr, ok}
use raynet.Prelude.Int.{pos, leb_ℤ}
use raynet.Kcp.Types.{Kcp, timediff}
use raynet.Kcp.Codec.{ByteOrder}
use raynet.Kcp.Receive.Order.{ahead}
use raynet.Kcp.Input.Soundness.{Sound, InOrder-same}
use raynet.Kcp.Flush.{
  emit_output, flush_control, queue_to_buf, send_segments, adjust_windows, flush, wnd_unused,
  send_window,
}
use raynet.Kcp.Flush.Window.{queue_to_buf-FillsWindow}
use raynet.Kcp.Timer.{start_update, advance_flush, update, is_far}
use raynet.Kcp.Flush.Soundness.{
  Sound-Same, emit_output-Same, adjust_windows-Same, start_update-Same, advance_flush-Same,
  flush_control-Same, send_segments-Between,
}

module _ (order : ByteOrder) where
  module _ (first : ℕ) where
    flush_data-Sound :
        (k : Kcp) (wnd : ℕ)
        → Sound first k
        → let filled = queue_to_buf k wnd in
          let sent = send_segments order filled wnd filled.snd_buf in
          Sound first (emit_output (record sent.kcp { snd_buf = sent.segments }))
    unfolding queue_to_buf
    flush_data-Sound k wnd v =
        let filled = queue_to_buf k wnd in
        let f = (queue_to_buf-FillsWindow k wnd v.sending).0 in
        let r = InOrder-same first k filled (refl, refl, refl, refl) v.receiving in
        let ((same_r, (ew, eu, en, _)), sent) =
          send_segments-Between order filled wnd filled.snd_una 0
            (ahead filled.snd_una filled.snd_nxt) filled.snd_buf f.sent in
        let s = send_segments order filled wnd filled.snd_buf in
        let before = record filled { snd_buf = s.segments } in
        let k' = record s.kcp { snd_buf = s.segments } in
        let v' : Sound first before = record {
          receiving = InOrder-same first filled before (refl, refl, refl, refl) r;
          sending = record {
            wnd_in = f.wnd_in;
            una_in = f.una_in;
            nxt_in = f.nxt_in;
            near = f.near;
            sent = sent;
          };
        } in
        Sound-Same first k' (emit_output k') (emit_output-Same k')
          (Sound-Same first before k' (same_r, (ew, eu, en, refl)) v')

    -- `flush` keeps the received segments in order and the sent ones outstanding.
    pub flush-Sound : (k : Kcp) → Sound first k → Sound first (flush order k).0
    unfolding flush
    flush-Sound k v = elim (Bool-cases (not k.updated)) [
      | inl early ↦ rw early v
      | inr updated ↦
          let control = flush_control order k in
          let wnd = wnd_unused k in
          let filled = queue_to_buf control wnd in
          let sent = send_segments order filled wnd filled.snd_buf in
          let emitted = emit_output (record sent.kcp { snd_buf = sent.segments }) in
          rw updated (
            Sound-Same first emitted
              (adjust_windows emitted (send_window control) sent.change sent.lost)
              (adjust_windows-Same emitted (send_window control) sent.change sent.lost)
              (flush_data-Sound control wnd
                (Sound-Same first k control (flush_control-Same order k) v)))
    ]

    -- So does `update`, at any time.
    pub update-Sound :
        (k : Kcp) (current : ℕ) → Sound first k → Sound first (update order k current).0
    unfolding update
    update-Sound k current v =
        let started = start_update k current in
        let v0 = Sound-Same first k started (start_update-Same k current) v in
        elim (Bool-cases (is_far started.current started.ts_flush)) [
          | inl far ↦
              let timed = record started { ts_flush = started.current } in
              rw far (
                flushed timed (
                  Sound-Same first started timed
                    ((refl, refl, refl, refl), (refl, refl, refl, refl)) v0))
          | inr close ↦ rw close (flushed started v0)
        ]
      where
        flushed :
            (timed : Kcp)
            → Sound first timed
            → Sound first
                (if leb_ℤ (pos 0) (timediff timed.current timed.ts_flush)
                  then flush order (advance_flush timed)
                  else (timed, ok tt)).0
        flushed timed w =
            elim (Bool-cases (leb_ℤ (pos 0) (timediff timed.current timed.ts_flush))) [
              | inl due ↦ rw due (
                  flush-Sound (advance_flush timed)
                    (Sound-Same first timed (advance_flush timed) (advance_flush-Same timed) w))
              | inr early ↦ rw early w
            ]
