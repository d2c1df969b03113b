-- ===== src/Kcp/Input/Soundness.antt =====
-- crates/raynet-core/src/kcp/kcp.rs: what `input` keeps, whatever bytes arrive.
use raynet.Prelude.{ℕ, ◌≡◌, refl, List, ◌==◌, arith, add32, IsU32, Bool-cases, inl, inr, bit_or}
use raynet.Prelude.Int.{pos, ltb_ℤ, leb_ℤ, pos_part}
use raynet.Kcp.Types.{Kcp, KcpSegment, timediff, cmd_push, cmd_ack, cmd_wask, ask_tell}
use raynet.Kcp.Codec.{Header}
use raynet.Kcp.Receive.{parse_data, move_buf}
use raynet.Kcp.Receive.Delivery.{InOrder, parse_data-InOrder}
use raynet.Kcp.Acks.{
  update_ack, sample_rtt, shrink_buf, parse_ack, parse_una, parse_fastack, ack_push,
}
use raynet.Kcp.Acks.Outstanding.{Outstanding, parse_una-Outstanding, parse_ack-Outstanding}
use raynet.Kcp.Input.{AckState, input_ack, pushed_segment, input_push, input_segment, grow_cwnd}

-- The receiver's and the sender's order.
pub record Sound (first : ℕ) (k : Kcp) : Type 0 where
  pub receiving : InOrder first k
  pub sending : Outstanding k

-- What the two orders depend on.
abbrev pub SameReceiver : Kcp → Kcp → Type 0
SameReceiver k k' =
    (k.rcv_nxt ≡ k'.rcv_nxt)
    × (k.rcv_wnd ≡ k'.rcv_wnd)
    × (k.rcv_queue ≡ k'.rcv_queue)
    × (k.rcv_buf ≡ k'.rcv_buf)

abbrev pub SameSender : Kcp → Kcp → Type 0
SameSender k k' =
    (k.snd_wnd ≡ k'.snd_wnd)
    × (k.snd_una ≡ k'.snd_una)
    × (k.snd_nxt ≡ k'.snd_nxt)
    × (k.snd_buf ≡ k'.snd_buf)

pub InOrder-same : (first : ℕ) (k k' : Kcp) → SameReceiver k k' → InOrder first k → InOrder first k'
InOrder-same first k k' (en, ew, eq, eb) v = record {
  nxt_in = rw⁻¹ en v.nxt_in;
  wnd_in = rw⁻¹ ew v.wnd_in;
  queued = rw⁻¹ (en, eq) v.queued;
  buffered = rw⁻¹ (en, ew, eb) v.buffered;
}

pub Outstanding-same : (k k' : Kcp) → SameSender k k' → Outstanding k → Outstanding k'
Outstanding-same k k' (ew, eu, en, eb) v = record {
  wnd_in = rw⁻¹ ew v.wnd_in;
  una_in = rw⁻¹ eu v.una_in;
  nxt_in = rw⁻¹ en v.nxt_in;
  near = rw⁻¹ (eu, en) v.near;
  sent = rw⁻¹ (eu, en, eb) v.sent;
}

update_ack-same :
    (k : Kcp) (rtt : ℕ) → SameReceiver k (update_ack k rtt) × SameSender k (update_ack k rtt)
unfolding update_ack sample_rtt
update_ack-same k rtt = ground arith

acks-SameReceiver :
    (k : Kcp) (sn : ℕ)
    → SameReceiver k (shrink_buf (parse_una k sn)) × SameReceiver k (shrink_buf (parse_ack k sn))
unfolding shrink_buf parse_una parse_ack
acks-SameReceiver k sn = ground arith

pub parse_fastack-SameReceiver : (k : Kcp) (sn ts : ℕ) → SameReceiver k (parse_fastack k sn ts)
unfolding parse_fastack
parse_fastack-SameReceiver k sn ts = ground arith

pub grow_cwnd-same : (k : Kcp) → SameReceiver k (grow_cwnd k) × SameSender k (grow_cwnd k)
unfolding grow_cwnd
grow_cwnd-same k = ground arith

parse_data-SameSender : (k : Kcp) (seg : KcpSegment) → SameSender k (parse_data k seg)
unfolding parse_data move_buf
parse_data-SameSender k seg = ground arith

module _ (first : ℕ) where
  input_ack-Sound : (k : Kcp) (sn ts : ℕ) → Sound first k → Sound first (input_ack k sn ts)
  unfolding input_ack
  input_ack-Sound k sn ts v = elim (Bool-cases (leb_ℤ (pos 0) (timediff k.current ts))) [
    | inl timed ↦ rw timed (acked (update_ack k (pos_part (timediff k.current ts))) timed_Sound)
    | inr untimed ↦ rw untimed (acked k v)
  ]
    where
      acked : (k' : Kcp) → Sound first k' → Sound first (shrink_buf (parse_ack k' sn))
      acked k' v' = record {
        receiving =
            InOrder-same first k' (shrink_buf (parse_ack k' sn)) (acks-SameReceiver k' sn).1
              v'.receiving;
        sending = parse_ack-Outstanding k' sn v'.sending;
      }

      timed_Sound : Sound first (update_ack k (pos_part (timediff k.current ts)))
      timed_Sound =
          let same = update_ack-same k (pos_part (timediff k.current ts)) in
          let k'' = update_ack k (pos_part (timediff k.current ts)) in
          record {
            receiving = InOrder-same first k k'' same.0 v.receiving;
            sending = Outstanding-same k k'' same.1 v.sending;
          }

  ack_push-Sound : (k : Kcp) (sn ts : ℕ) → Sound first k → Sound first (ack_push k sn ts)
  unfolding ack_push
  ack_push-Sound k sn ts v = record {
    receiving = InOrder-same first k (ack_push k sn ts) (refl, refl, refl, refl) v.receiving;
    sending = Outstanding-same k (ack_push k sn ts) (refl, refl, refl, refl) v.sending;
  }

  input_push-Sound :
      (k : Kcp) (h : Header) (bytes : List ℕ)
      → IsU32 h.sn
      → Sound first k
      → Sound first (input_push k h bytes)
  unfolding input_push pushed_segment
  input_push-Sound k h bytes u v =
      let pushed = ack_push k h.sn h.ts in
      let p = ack_push-Sound k h.sn h.ts v in
      let seg = pushed_segment h bytes in
      let stored : Sound first (parse_data pushed seg) = record {
        receiving = parse_data-InOrder first pushed seg u p.receiving;
        sending =
            Outstanding-same pushed (parse_data pushed seg) (parse_data-SameSender pushed seg)
              p.sending;
      } in
      elim (Bool-cases (ltb_ℤ (timediff h.sn (add32 k.rcv_nxt k.rcv_wnd)) (pos 0))) [
        | inl below ↦ elim (Bool-cases (leb_ℤ (pos 0) (timediff h.sn k.rcv_nxt))) [
          | inl inside ↦ rw (below, inside) stored
          | inr old ↦ rw (below, old) p
        ]
        | inr beyond ↦ rw beyond v
      ]

  pub input_segment-Sound :
      (k : Kcp) (a : AckState) (h : Header) (bytes : List ℕ)
      → IsU32 h.sn
      → Sound first k
      → Sound first (input_segment k a h bytes).0
  unfolding input_segment
  input_segment-Sound k a h bytes u v =
      let k0 = record k { rmt_wnd = h.wnd } in
      let k' = shrink_buf (parse_una k0 h.una) in
      let v0 = Outstanding-same k k0 (refl, refl, refl, refl) v.sending in
      let v' : Sound first k' = record {
        receiving =
            InOrder-same first k0 k' (acks-SameReceiver k0 h.una).0
              (InOrder-same first k k0 (refl, refl, refl, refl) v.receiving);
        sending = parse_una-Outstanding k0 h.una v0;
      } in
      let probed = record k' { probe = bit_or k'.probe ask_tell } in
      elim (Bool-cases (h.cmd == cmd_ack)) [
        | inl ack ↦ rw ack (input_ack-Sound k' h.sn h.ts v')
        | inr no_ack ↦ elim (Bool-cases (h.cmd == cmd_push)) [
          | inl push ↦ rw (no_ack, push) (input_push-Sound k' h bytes u v')
          | inr no_push ↦ elim (Bool-cases (h.cmd == cmd_wask)) [
            | inl asks ↦
                rw (no_ack, no_push, asks)
                  (record {
                    receiving = InOrder-same first k' probed (refl, refl, refl, refl) v'.receiving;
                    sending = Outstanding-same k' probed (refl, refl, refl, refl) v'.sending;
                  })
            | inr tells ↦ rw (no_ack, no_push, tells) v'
          ]
        ]
      ]
