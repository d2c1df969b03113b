-- ===== src/Kcp/Types.antt =====
-- crates/raynet-core/src/kcp/kcp.rs and error.rs: constants, parameters, timing, segments, the
-- control block and its construction.
use raynet.Prelude.{ℕ, ◌*◌, Bool, false, List, [], Option, sub32, sub64, if◌then◌else◌}
use raynet.Prelude.Int.{ℤ, signed32}

-- KCP_CMD_PUSH, KCP_CMD_ACK, KCP_CMD_WASK and KCP_CMD_WINS.
abbrev pub cmd_push : ℕ
cmd_push = 81

abbrev pub cmd_ack : ℕ
cmd_ack = 82

abbrev pub cmd_wask : ℕ
cmd_wask = 83

abbrev pub cmd_wins : ℕ
cmd_wins = 84

-- KCP_ASK_SEND and KCP_ASK_TELL.
abbrev pub ask_send : ℕ
ask_send = 1

abbrev pub ask_tell : ℕ
ask_tell = 2

abbrev pub kcp_overhead : ℕ
kcp_overhead = 28

-- KCP_THRESH_INIT, KCP_THRESH_MIN, KCP_RTO_MAX_SCALE and KCP_FASTACK_LIMIT.
abbrev pub thresh_init : ℕ
thresh_init = 2

abbrev pub thresh_min : ℕ
thresh_min = 2

abbrev pub rto_max_scale : ℕ
rto_max_scale = 6000

abbrev pub fastack_limit : ℕ
fastack_limit = 5

pub data KcpError : Type 0 where
  conv_inconsistent invalid_segment_size invalid_segment_data_size need_update : KcpError
  recv_queue_empty expecting_fragment unsupported_cmd user_buf_too_big user_buf_too_small : KcpError

-- `fast_resend` is an `Option<NonZeroU32>`.
pub record KcpParams : Type 0 where
  pub mtu : ℕ
  pub send_window : ℕ
  pub receive_window : ℕ
  pub nodelay : Bool
  pub fast_resend : Option ℕ
  pub congestion_control : Bool
  pub time_scale : ℕ

pub record KcpTiming : Type 0 where
  pub rto_nodelay : ℕ
  pub rto_normal : ℕ
  pub rto_initial : ℕ
  pub rto_max : ℕ
  pub interval : ℕ
  pub probe_initial : ℕ
  pub probe_max : ℕ

-- `KcpTiming::new`. The scale is a byte, so that no product leaves 32 bits.
unfoldable pub new_timing : ℕ → KcpTiming
new_timing scale = record {
  rto_nodelay = 3 * scale;
  rto_normal = 10 * scale;
  rto_initial = 20 * scale;
  rto_max = rto_max_scale * scale;
  interval = 2 * scale;
  probe_initial = 700 * scale;
  probe_max = 12000 * scale;
}

unfoldable pub timediff : ℕ → ℕ → ℤ
timediff later earlier = signed32 (sub32 later earlier)

pub record KcpSegment : Type 0 where
  pub conv : ℕ
  pub cmd : ℕ
  pub frg : ℕ
  pub wnd : ℕ
  pub ts : ℕ
  pub sn : ℕ
  pub una : ℕ
  pub resendts : ℕ
  pub rto : ℕ
  pub fastack : ℕ
  pub xmit : ℕ
  pub bytes : List ℕ

-- `KcpSegment::new_with_data`; the other fields are zero.
unfoldable pub new_with_data : List ℕ → KcpSegment
new_with_data bytes = record {
  conv = 0;
  cmd = 0;
  frg = 0;
  wnd = 0;
  ts = 0;
  sn = 0;
  una = 0;
  resendts = 0;
  rto = 0;
  fastack = 0;
  xmit = 0;
  bytes = bytes;
}

pub record Kcp : Type 0 where
  pub conv : ℕ
  pub mtu : ℕ
  pub mss : ℕ
  pub snd_una : ℕ
  pub snd_nxt : ℕ
  pub rcv_nxt : ℕ
  pub ssthresh : ℕ
  pub rx_rttval : ℕ
  pub rx_srtt : ℕ
  pub rx_rto : ℕ
  pub rx_minrto : ℕ
  pub timing : KcpTiming
  pub snd_wnd : ℕ
  pub rcv_wnd : ℕ
  pub rmt_wnd : ℕ
  pub cwnd : ℕ
  pub probe : ℕ
  pub current : ℕ
  pub ts_flush : ℕ
  pub nodelay : Bool
  pub updated : Bool
  pub ts_probe : ℕ
  pub probe_wait : ℕ
  pub incr : ℕ
  pub snd_queue : List KcpSegment
  pub rcv_queue : List KcpSegment
  pub snd_buf : List KcpSegment
  pub rcv_buf : List KcpSegment
  pub acklist : List (ℕ × ℕ)
  pub buf : List ℕ
  pub fastresend : Option ℕ
  pub fastlimit : ℕ
  pub congestion_control : Bool
  pub output : List (List ℕ)

-- `Kcp::new`. The capacity of `buf` is no part of the model.
unfoldable pub new_kcp : ℕ → KcpParams → Kcp
new_kcp conv params =
    let timing = new_timing params.time_scale in
    record {
      conv = conv;
      mtu = params.mtu;
      mss = sub64 params.mtu kcp_overhead;
      snd_una = 0;
      snd_nxt = 0;
      rcv_nxt = 0;
      ssthresh = thresh_init;
      rx_rttval = 0;
      rx_srtt = 0;
      rx_rto = timing.rto_initial;
      rx_minrto = if params.nodelay then timing.rto_nodelay else timing.rto_normal;
      timing = timing;
      snd_wnd = params.send_window;
      rcv_wnd = params.receive_window;
      rmt_wnd = params.receive_window;
      cwnd = 0;
      probe = 0;
      current = 0;
      ts_flush = timing.interval;
      nodelay = params.nodelay;
      updated = false;
      ts_probe = 0;
      probe_wait = 0;
      incr = 0;
      snd_queue = [];
      rcv_queue = [];
      snd_buf = [];
      rcv_buf = [];
      acklist = [];
      buf = [];
      fastresend = params.fast_resend;
      fastlimit = fastack_limit;
      congestion_control = params.congestion_control;
      output = [];
    }
