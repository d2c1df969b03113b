-- ===== src/Kcp/Flush/Mtu.antt =====
-- crates/raynet-core/src/kcp/kcp.rs: no packet that `flush` puts out is empty or larger than `mtu`.
use raynet.Prelude.{
  ℕ, ◌+◌, ◌≤◌, ◌<◌, ◌≡◌, refl, Bool, true, false, not, List, [], ◌∷◌, arith, length, ltb, ◌==◌,
  if◌then◌else◌, All, All-append, length-append, bit_and, Bool-cases, inl, inr,
}
use raynet.Kcp.Types.{
  Kcp, KcpSegment, kcp_overhead, new_with_data, ask_send, ask_tell, cmd_wask, cmd_wins,
}
use raynet.Kcp.Codec.{ByteOrder, encode}
use raynet.Kcp.Codec.RoundTrip.{length-encode}
use raynet.Kcp.Send.Fragments.{AtMost}
use raynet.Kcp.Flush.{
  emit_output, make_room, put_segment, flush_acks, flush_ack, flush_probe_command,
  flush_probe_commands, probe_wnd_size, flush_control, ack_template,
}

-- A datagram that may be sent.
abbrev pub IsDatagram : ℕ → List ℕ → Type 0
IsDatagram mtu bytes = (0 < length bytes) × (length bytes ≤ mtu)

-- The buffer and the output so far respect `mtu`, and so will the segments that wait, of at most
-- `mss` bytes.
pub record Fits (mss mtu : ℕ) (k : Kcp) : Type 0 where
  pub mtu_eq : k.mtu ≡ mtu
  pub mss_le : kcp_overhead + mss ≤ mtu
  pub buf_le : length k.buf ≤ mtu
  pub datagrams : All (IsDatagram mtu) k.output
  pub sending_le : All (AtMost mss) k.snd_buf
  pub waiting_le : All (AtMost mss) k.snd_queue

module _ (mss mtu : ℕ) where
  pub emit_output-Fits :
      (k : Kcp) → Fits mss mtu k → Fits mss mtu (emit_output k) × (length (emit_output k).buf ≡ 0)
  unfolding emit_output
  emit_output-Fits k v = elim (Bool-cases (length k.buf == 0)) [
    | inl empty ↦ rw empty (v, ground arith)
    | inr full ↦
        let size : IsDatagram mtu k.buf = (ground arith, v.buf_le) in
        rw full (
          record {
            mtu_eq = v.mtu_eq;
            mss_le = v.mss_le;
            sending_le = v.sending_le;
            waiting_le = v.waiting_le;
            buf_le = omega arith;
            datagrams = All-append (IsDatagram mtu) k.output (k.buf ∷ []) v.datagrams (size, tt);
          },
          refl,
        )
  ]

  make_room-Fits :
      (need : ℕ) (k : Kcp)
      → need ≤ mtu
      → Fits mss mtu k
      → Fits mss mtu (make_room k need) × (length (make_room k need).buf + need ≤ mtu)
  unfolding make_room
  make_room-Fits need k h v =
      let (emitted, empty) = emit_output-Fits k v in
      elim (Bool-cases (ltb k.mtu (length k.buf + need))) [
        | inl full ↦ rw full (emitted, omega arith)
        | inr room ↦ rw room (v, ground (arith, v.mtu_eq))
      ]

  module _ (order : ByteOrder) where
    pub put_segment-Fits :
        (k : Kcp) (seg : KcpSegment)
        → AtMost mss seg
        → Fits mss mtu k
        → Fits mss mtu (put_segment order k seg)
    unfolding put_segment
    put_segment-Fits k seg h v =
        let need = kcp_overhead + length seg.bytes in
        let (fits, room) = make_room-Fits need k (omega (arith, v.mss_le)) v in
        record {
          mtu_eq = fits.mtu_eq;
          mss_le = fits.mss_le;
          datagrams = fits.datagrams;
          sending_le = fits.sending_le;
          waiting_le = fits.waiting_le;
          buf_le = omega (
            arith,
            room,
            length-encode order seg,
            length-append (make_room k need).buf (encode order seg),
          );
        }

    flush_acks-Fits :
        (acks : List (ℕ × ℕ)) (k : Kcp) (seg : KcpSegment)
        → AtMost mss seg
        → Fits mss mtu k
        → Fits mss mtu (flush_acks order k acks seg).0 × AtMost mss (flush_acks order k acks seg).1
    unfolding flush_acks
    flush_acks-Fits [] k seg h v = (v, h)
    flush_acks-Fits ((sn, ts) ∷ acks) k seg h v =
        let seg' = record seg { sn = sn; ts = ts } in
        flush_acks-Fits acks (put_segment order k seg') seg' h (put_segment-Fits k seg' h v)

    flush_probe_command-Fits :
        (asked : Bool) (cmd : ℕ) (k : Kcp) (seg : KcpSegment)
        → AtMost mss seg
        → Fits mss mtu k
        → Fits mss mtu (if asked then flush_probe_command order k cmd seg else k)
    unfolding flush_probe_command
    flush_probe_command-Fits false cmd k seg h v = v
    flush_probe_command-Fits true cmd k seg h v = put_segment-Fits k (record seg { cmd = cmd }) h v

    flush_probe_commands-Fits :
        (k : Kcp) (seg : KcpSegment)
        → AtMost mss seg
        → Fits mss mtu k
        → Fits mss mtu (flush_probe_commands order k seg)
    unfolding flush_probe_commands
    flush_probe_commands-Fits k seg h v =
        let asked =
          flush_probe_command-Fits (not (bit_and k.probe ask_send == 0)) cmd_wask k seg h v in
        let k' =
          if not (bit_and k.probe ask_send == 0)
          then flush_probe_command order k cmd_wask seg
          else k in
        let told =
          flush_probe_command-Fits (not (bit_and k'.probe ask_tell == 0)) cmd_wins k' seg h asked in
        record {
          mtu_eq = told.mtu_eq;
          mss_le = told.mss_le;
          buf_le = told.buf_le;
          datagrams = told.datagrams;
          sending_le = told.sending_le;
          waiting_le = told.waiting_le;
        }

    probe_wnd_size-Fits : (k : Kcp) → Fits mss mtu k → Fits mss mtu (probe_wnd_size k)
    unfolding probe_wnd_size
    probe_wnd_size-Fits k v = record {
      mtu_eq = ground (arith, v);
      mss_le = v.mss_le;
      buf_le = ground (arith, v);
      datagrams = ground (arith, v);
      sending_le = ground (arith, v);
      waiting_le = ground (arith, v);
    }

    -- Acknowledgements and probes are put out in datagrams of the right size.
    pub flush_control-Fits : (k : Kcp) → Fits mss mtu k → Fits mss mtu (flush_control order k)
    unfolding flush_control flush_ack ack_template new_with_data
    flush_control-Fits k v =
        let template = ack_template k in
        let acked = flush_acks-Fits k.acklist k template (omega arith) v in
        let k' = (flush_acks order k k.acklist template).0 in
        let emptied : Fits mss mtu (record k' { acklist = [] }) = record {
          mtu_eq = acked.0.mtu_eq;
          mss_le = acked.0.mss_le;
          buf_le = acked.0.buf_le;
          datagrams = acked.0.datagrams;
          sending_le = acked.0.sending_le;
          waiting_le = acked.0.waiting_le;
        } in
        flush_probe_commands-Fits (probe_wnd_size (record k' { acklist = [] }))
          (flush_acks order k k.acklist template).1 acked.1
          (probe_wnd_size-Fits (record k' { acklist = [] }) emptied)
