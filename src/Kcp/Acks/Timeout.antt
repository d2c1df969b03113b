-- ===== src/Kcp/Acks/Timeout.antt =====
-- crates/raynet-core/src/kcp/kcp.rs: the bounds of the retransmission timeout under `update_ack`.
use raynet.Prelude.{ℕ, ◌*◌, ◌^◌, ◌≤◌, ◌<◌, ◌≡◌, false, arith, min}
use raynet.Kcp.Types.{Kcp, KcpParams, new_kcp, new_timing}
use raynet.Kcp.Acks.{sample_rtt, update_ack}
use raynet.Kcp.Schedule.{backed_off}

-- The timeout lies between its least value and `rto_max`.
pub record IsTimed (k : Kcp) : Type 0 where
  pub least_le_rto : k.rx_minrto ≤ k.rx_rto
  pub rto_le_max : k.rx_rto ≤ k.timing.rto_max

-- A new control block has a timeout in its bounds.
pub new_kcp-IsTimed : (conv : ℕ) (params : KcpParams) → IsTimed (new_kcp conv params)
unfolding new_kcp new_timing
new_kcp-IsTimed conv params = record { least_le_rto = ground arith; rto_le_max = ground arith }

-- Any round-trip time keeps a timeout that is between its bounds there, leaves the bounds as they
-- are, and keeps a smoothed time that is not zero so.
pub update_ack-IsTimed :
    (k : Kcp) (rtt : ℕ)
    → IsTimed k
    → IsTimed (update_ack k rtt)
      × ((update_ack k rtt).rx_minrto ≡ k.rx_minrto)
      × ((update_ack k rtt).timing ≡ k.timing)
      × (0 < k.rx_srtt → 0 < (update_ack k rtt).rx_srtt)
unfolding update_ack sample_rtt
update_ack-IsTimed k rtt v = (
  record { least_le_rto = ground (arith, v); rto_le_max = ground (arith, v) },
  ground arith,
  ground arith,
  λ h. ground arith,
)

-- Where the timeout is in its bounds and `rto_max` below 2^31, a segment that timed out waits at
-- least as long as before and at most `rto_max`; in the normal mode twice as long, up to `rto_max`.
pub backed_off_grows :
    (k : Kcp) (rto : ℕ)
    → IsTimed k
    → rto ≤ k.timing.rto_max
    → k.timing.rto_max < 2 ^ 31
    → (rto ≤ backed_off k rto)
      × (backed_off k rto ≤ k.timing.rto_max)
      × (k.nodelay ≡ false → min (2 * rto) k.timing.rto_max ≤ backed_off k rto)
unfolding backed_off
backed_off_grows k rto v h hm = (ground (arith, v), ground arith, λ normal. ground (arith, v))
