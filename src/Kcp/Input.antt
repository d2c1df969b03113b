-- ===== src/Kcp/Input.antt =====
-- crates/raynet-core/src/kcp/kcp.rs: `input`, which takes a packet of segments apart.
pub mod Soundness
pub mod Packets
use raynet.Prelude.{
  ℕ, zero, suc, ◌+◌, ◌-◌, ◌*◌, ◌/◌, ◌%◌, ◌^◌, Bool, true, false, not, ◌&&◌, ◌||◌, List, length,
  take, drop, min, max, ltb, leb, ◌==◌, if◌then◌else◌, is_some, bit_or, Result, ok, err, add32,
  add64, mul64,
}
use raynet.Prelude.Int.{ℤ, pos, negsuc, ltb_ℤ, leb_ℤ, pos_part}
use raynet.Kcp.Types.{
  Kcp, KcpSegment, KcpError, conv_inconsistent, invalid_segment_size, invalid_segment_data_size,
  unsupported_cmd, cmd_push, cmd_ack, cmd_wask, cmd_wins, ask_tell, kcp_overhead, timediff,
  new_with_data,
}
use raynet.Kcp.Codec.{ByteOrder, Header, read_header}
use raynet.Kcp.Receive.{parse_data}
use raynet.Kcp.Send.{div_ceil}
use raynet.Kcp.Acks.{update_ack, shrink_buf, parse_ack, parse_una, parse_fastack, ack_push}

-- The local variables of `input` that the loop changes.
pub record AckState : Type 0 where
  pub flag : Bool
  pub max_ack : ℕ
  pub latest_ts : ℕ

unfoldable pub note_ack : AckState → ℕ → ℕ → AckState
note_ack a sn ts =
    if not a.flag
    then record { flag = true; max_ack = sn; latest_ts = ts }
    else if ltb_ℤ (pos 0) (timediff sn a.max_ack) && ltb_ℤ (pos 0) (timediff ts a.latest_ts)
    then record a { max_ack = sn; latest_ts = ts }
    else a

-- The branch KCP_CMD_ACK, but for the variables above. A non-negative difference is its own `u32`.
unfoldable pub input_ack : Kcp → ℕ → ℕ → Kcp
input_ack k sn ts =
    let rtt = timediff k.current ts in
    let k' = if leb_ℤ (pos 0) rtt then update_ack k (pos_part rtt) else k in
    shrink_buf (parse_ack k' sn)

unfoldable pub pushed_segment : Header → List ℕ → KcpSegment
pushed_segment h bytes = record (new_with_data bytes) {
  conv = h.conv;
  cmd = h.cmd;
  frg = h.frg;
  wnd = h.wnd;
  ts = h.ts;
  sn = h.sn;
  una = h.una;
}

-- The branch KCP_CMD_PUSH. A number behind the window is acknowledged again, and not stored.
unfoldable pub input_push : Kcp → Header → List ℕ → Kcp
input_push k h bytes =
    if ltb_ℤ (timediff h.sn (add32 k.rcv_nxt k.rcv_wnd)) (pos 0)
    then if leb_ℤ (pos 0) (timediff h.sn k.rcv_nxt)
      then parse_data (ack_push k h.sn h.ts) (pushed_segment h bytes)
      else ack_push k h.sn h.ts
    else k

unfoldable pub is_command : ℕ → Bool
is_command cmd = cmd == cmd_push || cmd == cmd_ack || cmd == cmd_wask || cmd == cmd_wins

-- One segment that passed the checks, with its data.
unfoldable pub input_segment : Kcp → AckState → Header → List ℕ → Kcp × AckState
input_segment k a h bytes =
    let k' = shrink_buf (parse_una (record k { rmt_wnd = h.wnd }) h.una) in
    if h.cmd == cmd_ack
    then (input_ack k' h.sn h.ts, note_ack a h.sn h.ts)
    else if h.cmd == cmd_push
    then (input_push k' h bytes, a)
    else if h.cmd == cmd_wask
    then (record k' { probe = bit_or k'.probe ask_tell }, a)
    else (k', a)

-- The congestion window, when the packet has acknowledged something.
unfoldable pub grow_cwnd : Kcp → Kcp
grow_cwnd k =
    let mss = k.mss in
    let grown =
      if ltb k.cwnd k.ssthresh
      then record k { cwnd = (k.cwnd + 1) % 2 ^ 16; incr = add64 k.incr mss }
      else let base = max k.incr mss in
        let incr = add64 base (add64 (mul64 mss mss / base) (mss / 16)) in
        record k {
          incr = incr;
          cwnd =
              if leb (mul64 (k.cwnd + 1) mss) incr
              then min (div_ceil incr mss) k.rmt_wnd % 2 ^ 16
              else k.cwnd;
        } in
    if ltb grown.rmt_wnd grown.cwnd
    then record grown { cwnd = grown.rmt_wnd; incr = mul64 grown.rmt_wnd mss }
    else grown

unfoldable pub after_loop : Kcp → AckState → ℕ → Kcp
after_loop k a old_una =
    let k' = if a.flag && is_some k.fastresend then parse_fastack k a.max_ack a.latest_ts else k in
    if ltb_ℤ (pos 0) (timediff k'.snd_una old_una) && ltb k'.cwnd k'.rmt_wnd
    then grow_cwnd k'
    else k'

module _ (order : ByteOrder) where
  -- The loop; every round reads 28 bytes at least, so that the length is fuel enough. The state is
  -- kept when a segment is refused: what the segments before it did is not undone.
  unfoldable pub input_loop :
      ℕ → Kcp → AckState → List ℕ → Kcp × Result KcpError (AckState × List ℕ)
  input_loop zero k a buf = (k, ok (a, buf))
  input_loop (suc fuel) k a buf =
      let h = read_header order buf in
      let body = drop kcp_overhead buf in
      let (k', a') = input_segment k a h (take h.len body) in
      let next = input_loop fuel k' a' (drop h.len body) in
      if ltb (length buf) kcp_overhead
      then (k, ok (a, buf))
      else if not (h.conv == k.conv)
      then (k, err conv_inconsistent)
      else if ltb (length body) h.len
      then (k, err invalid_segment_data_size)
      else if not (is_command h.cmd)
      then (k, err unsupported_cmd)
      else next

  -- The result is the number of bytes read.
  unfoldable pub input : Kcp → ℕ → List ℕ → Kcp × Result KcpError ℕ
  input k current buf =
      if ltb (length buf) kcp_overhead
      then (k, err invalid_segment_size)
      else let start : AckState = record { flag = false; max_ack = 0; latest_ts = 0 } in
        let (k', r) = input_loop (length buf) (record k { current = current }) start buf in
        elim r [
          | err e ↦ (k', err e)
          | ok (a, rest) ↦ (after_loop k' a k.snd_una, ok (length buf - length rest))
        ]
