-- ===== src/Kcp/Schedule.antt =====
-- crates/raynet-core/src/kcp/kcp.rs: what `flush` decides for one segment of `snd_buf`: whether to send
-- it, and when to send it again.
use raynet.Prelude.{
  ℕ, ◌/◌, ◌^◌, Bool, true, false, not, ◌&&◌, ◌||◌, Option, none, some, min, max, leb, ◌==◌,
  if◌then◌else◌, add32,
}
use raynet.Prelude.Int.{pos, leb_ℤ}
use raynet.Kcp.Types.{Kcp, KcpSegment, timediff}

-- What becomes of one segment of `snd_buf`.
pub data Sending : Type 0 where
  first_time timed_out skipped kept : Sending

unfoldable pub reaches : Option ℕ → ℕ → Bool
reaches none fastack = false
reaches (some threshold) fastack = leb threshold fastack

unfoldable pub sending : Kcp → KcpSegment → Sending
sending k seg =
    if seg.xmit == 0
    then first_time
    else if leb_ℤ (pos 0) (timediff k.current seg.resendts)
    then timed_out
    else if reaches k.fastresend seg.fastack && (leb seg.xmit k.fastlimit || k.fastlimit == 0)
    then skipped
    else kept

unfoldable pub rtomin : Kcp → ℕ
rtomin k = if not k.nodelay then k.rx_rto / 2 ^ 3 else 0

unfoldable pub backed_off : Kcp → ℕ → ℕ
backed_off k rto =
    if not k.nodelay
    then min (add32 rto (max rto k.rx_rto)) k.timing.rto_max
    else min (add32 rto (rto / 2)) k.timing.rto_max

unfoldable pub schedule : Kcp → Sending → KcpSegment → KcpSegment
schedule k first_time seg = record seg {
  xmit = add32 seg.xmit 1;
  rto = k.rx_rto;
  resendts = add32 k.current (add32 k.rx_rto (rtomin k));
}
schedule k timed_out seg = record seg {
  xmit = add32 seg.xmit 1;
  rto = backed_off k seg.rto;
  resendts = add32 k.current (backed_off k seg.rto);
}
schedule k skipped seg = record seg {
  xmit = add32 seg.xmit 1;
  fastack = 0;
  resendts = add32 k.current seg.rto;
}
schedule k kept seg = seg

unfoldable pub stamp : Kcp → ℕ → KcpSegment → KcpSegment
stamp k wnd seg = record seg { ts = k.current; wnd = wnd; una = k.rcv_nxt }

abbrev pub is_timed_out : Sending → Bool
is_timed_out timed_out = true
is_timed_out s = false

abbrev pub is_skipped : Sending → Bool
is_skipped skipped = true
is_skipped s = false

abbrev pub is_kept : Sending → Bool
is_kept kept = true
is_kept s = false
