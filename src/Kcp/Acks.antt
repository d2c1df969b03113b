-- ===== src/Kcp/Acks.antt =====
-- crates/raynet-core/src/kcp/kcp.rs: `update_ack`, `shrink_buf`, `parse_ack`, `parse_una`,
-- `parse_fastack` and `ack_push`.
pub mod Timeout
pub mod Removal
pub mod Outstanding
use raynet.Prelude.{
  ℕ, ◌+◌, ◌-◌, ◌*◌, ◌/◌, ◌%◌, ◌^◌, Bool, true, false, not, ◌&&◌, ◌||◌, List, [], ◌∷◌, ◌++◌, max,
  min, ltb, ◌==◌, if◌then◌else◌, add32, mul32,
}
use raynet.Prelude.Int.{pos, ltb_ℤ, leb_ℤ}
use raynet.Kcp.Types.{Kcp, KcpSegment, timediff}

-- `u32::abs_diff` and `Ord::clamp`.
abbrev pub abs_diff : ℕ → ℕ → ℕ
abs_diff a b = (a - b) + (b - a)

abbrev pub clamp : ℕ → ℕ → ℕ → ℕ
clamp x low high = if ltb x low then low else if ltb high x then high else x

unfoldable pub sample_rtt : Kcp → ℕ → Kcp
sample_rtt k rtt =
    if k.rx_srtt == 0 then record k { rx_srtt = rtt; rx_rttval = rtt / 2 } else record k {
      rx_rttval = add32 (mul32 3 k.rx_rttval) (abs_diff rtt k.rx_srtt) / 4;
      rx_srtt = max (add32 (mul32 7 k.rx_srtt) rtt / 8) 1;
    }

unfoldable pub update_ack : Kcp → ℕ → Kcp
update_ack k rtt =
    let s = sample_rtt k rtt in
    let rto = add32 s.rx_srtt (max s.timing.interval (mul32 4 s.rx_rttval)) in
    record s { rx_rto = clamp rto s.rx_minrto s.timing.rto_max }

unfoldable pub first_sn : List KcpSegment → ℕ → ℕ
first_sn [] nxt = nxt
first_sn (seg ∷ rest) nxt = seg.sn

unfoldable pub shrink_buf : Kcp → Kcp
shrink_buf k = record k { snd_una = first_sn k.snd_buf k.snd_nxt }

-- Whether a number was sent and is not yet acknowledged.
unfoldable pub in_flight : Kcp → ℕ → Bool
in_flight k sn =
    not (ltb_ℤ (timediff sn k.snd_una) (pos 0) || leb_ℤ (pos 0) (timediff sn k.snd_nxt))

-- The loop of `parse_ack`. The numbers are compared as plain integers.
unfoldable pub remove_acked : ℕ → List KcpSegment → List KcpSegment
remove_acked sn [] = []
remove_acked sn (seg ∷ rest) =
    if sn == seg.sn then rest else if ltb sn seg.sn then seg ∷ rest else seg ∷ remove_acked sn rest

unfoldable pub parse_ack : Kcp → ℕ → Kcp
parse_ack k sn = if in_flight k sn then record k { snd_buf = remove_acked sn k.snd_buf } else k

unfoldable pub drop_acked : ℕ → List KcpSegment → List KcpSegment
drop_acked una [] = []
drop_acked una (seg ∷ rest) =
    if ltb_ℤ (pos 0) (timediff una seg.sn) then drop_acked una rest else seg ∷ rest

unfoldable pub parse_una : Kcp → ℕ → Kcp
parse_una k una = record k { snd_buf = drop_acked una k.snd_buf }

-- The loop of `parse_fastack`, without the feature `fastack-conserve`.
unfoldable pub count_skipped : ℕ → ℕ → List KcpSegment → List KcpSegment
count_skipped sn ts [] = []
count_skipped sn ts (seg ∷ rest) =
    if ltb_ℤ (timediff sn seg.sn) (pos 0)
    then seg ∷ rest
    else (if not (sn == seg.sn) && leb_ℤ (pos 0) (timediff ts seg.ts)
        then record seg { fastack = add32 seg.fastack 1 }
        else seg)
      ∷ count_skipped sn ts rest

unfoldable pub parse_fastack : Kcp → ℕ → ℕ → Kcp
parse_fastack k sn ts =
    if in_flight k sn then record k { snd_buf = count_skipped sn ts k.snd_buf } else k

unfoldable pub ack_push : Kcp → ℕ → ℕ → Kcp
ack_push k sn ts = record k { acklist = k.acklist ++ ((sn, ts) ∷ []) }
