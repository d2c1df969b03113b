-- ===== src/Kcp/Input/Packets.antt =====
-- crates/raynet-core/src/kcp/kcp.rs: `input` on a whole packet.
use raynet.Prelude.{
  ℕ, zero, suc, ◌+◌, ◌-◌, ◌^◌, ◌≤◌, ◌<◌, refl, sym, subst, false, not, ◌&&◌, List, length, take,
  drop, ltb, ◌==◌, if◌then◌else◌, is_some, arith, IsByte, IsU32, All, All-append_left,
  All-append_right, take-append-drop, length-take, length-drop, Bool-cases, inl, inr, Result, ok,
  err,
}
use raynet.Prelude.Bytes.{from_le_bytes-lt}
use raynet.Prelude.Int.{pos, ltb_ℤ}
use raynet.Kcp.Types.{Kcp, KcpError, timediff, kcp_overhead}
use raynet.Kcp.Codec.{ByteOrder, read_header}
use raynet.Kcp.Acks.{parse_fastack}
use raynet.Kcp.Acks.Outstanding.{parse_fastack-Outstanding}
use raynet.Kcp.Input.{AckState, is_command, input_segment, grow_cwnd, after_loop, input_loop, input}
use raynet.Kcp.Input.Soundness.{
  Sound, InOrder-same, Outstanding-same, parse_fastack-SameReceiver, grow_cwnd-same,
  input_segment-Sound,
}

bytes-take : (n : ℕ) (bs : List ℕ) → All IsByte bs → All IsByte (take n bs)
bytes-take n bs h =
    All-append_left IsByte (take n bs) (drop n bs)
      (subst (All IsByte) (sym (take-append-drop n bs)) h)

bytes-drop : (n : ℕ) (bs : List ℕ) → All IsByte bs → All IsByte (drop n bs)
bytes-drop n bs h =
    All-append_right IsByte (take n bs) (drop n bs)
      (subst (All IsByte) (sym (take-append-drop n bs)) h)

pow_le : (n : ℕ) → n ≤ 4 → 256 ^ n ≤ 2 ^ 32
pow_le zero h = omega arith
pow_le (suc zero) h = omega arith
pow_le (suc (suc zero)) h = omega arith
pow_le (suc (suc (suc zero))) h = omega arith
pow_le (suc (suc (suc (suc zero)))) h = omega arith
pow_le (suc (suc (suc (suc (suc n))))) h = absurd (omega arith)

-- A loop that was not broken off by an error stopped because fewer bytes are left than a header has.
abbrev pub Ended : List ℕ → Result KcpError (AckState × List ℕ) → Type 0
Ended buf (err e) = Unit {0}
Ended buf (ok (a, rest)) = (length rest < kcp_overhead) × (length rest ≤ length buf)

-- A packet that was accepted was read up to a remainder that is shorter than a header.
abbrev pub ReadsWhole : List ℕ → Result KcpError ℕ → Type 0
ReadsWhole buf (err e) = Unit {0}
ReadsWhole buf (ok n) = (0 < n) × (n ≤ length buf) × (length buf < n + kcp_overhead)

Ended-mono :
    (buf buf' : List ℕ) (r : Result KcpError (AckState × List ℕ))
    → length buf ≤ length buf'
    → Ended buf r
    → Ended buf' r
Ended-mono buf buf' (err e) h v = tt
Ended-mono buf buf' (ok (a, rest)) h (short, le) = (short, omega arith)

module _ (order : ByteOrder) where
  -- A number that is read off bytes is a 32-bit number.
  read_header-IsU32 : (buf : List ℕ) → All IsByte buf → IsU32 (read_header order buf).sn
  unfolding read_header
  read_header-IsU32 buf h =
      let four = take 4 (drop 16 buf) in
      let below = from_le_bytes-lt four (bytes-take 4 (drop 16 buf) (bytes-drop 16 buf h)) in
      let small = pow_le (length four) (omega (arith, length-take 4 (drop 16 buf))) in
      rw (order.get_le_little 4 (drop 16 buf)) (omega (arith, below, small))

  module _ (first : ℕ) where
    input_loop-Sound :
        (fuel : ℕ) (k : Kcp) (a : AckState) (buf : List ℕ)
        → All IsByte buf
        → Sound first k
        → Sound first (input_loop order fuel k a buf).0
    unfolding input_loop
    input_loop-Sound zero k a buf hb v = v
    input_loop-Sound (suc fuel) k a buf hb v =
        let h = read_header order buf in
        let body = drop kcp_overhead buf in
        let step = input_segment k a h (take h.len body) in
        let next =
          input_loop-Sound fuel step.0 step.1 (drop h.len body)
            (bytes-drop h.len body (bytes-drop kcp_overhead buf hb))
            (input_segment-Sound first k a h (take h.len body) (read_header-IsU32 buf hb) v) in
        elim (Bool-cases (ltb (length buf) kcp_overhead)) [
          | inl short ↦ rw short v
          | inr enough ↦ elim (Bool-cases (not (h.conv == k.conv))) [
            | inl foreign ↦ rw (enough, foreign) v
            | inr ours ↦ elim (Bool-cases (ltb (length body) h.len)) [
              | inl cut ↦ rw (enough, ours, cut) v
              | inr whole ↦ elim (Bool-cases (not (is_command h.cmd))) [
                | inl unknown ↦ rw (enough, ours, whole, unknown) v
                | inr known ↦ rw (enough, ours, whole, known) next
              ]
            ]
          ]
        ]

    after_loop-Sound :
        (k : Kcp) (a : AckState) (old_una : ℕ)
        → Sound first k
        → Sound first (after_loop k a old_una)
    unfolding after_loop
    after_loop-Sound k a old_una v = elim (Bool-cases (a.flag && is_some k.fastresend)) [
      | inl skips ↦
          let k' = parse_fastack k a.max_ack a.latest_ts in
          let v' : Sound first k' = record {
            receiving =
                InOrder-same first k k' (parse_fastack-SameReceiver k a.max_ack a.latest_ts)
                  v.receiving;
            sending = parse_fastack-Outstanding k a.max_ack a.latest_ts v.sending;
          } in
          rw skips (grown k' v')
      | inr none_skipped ↦ rw none_skipped (grown k v)
    ]
      where
        grown :
            (k' : Kcp)
            → Sound first k'
            → Sound first (
                if ltb_ℤ (pos 0) (timediff k'.snd_una old_una) && ltb k'.cwnd k'.rmt_wnd
                then grow_cwnd k'
                else k')
        grown k' v' =
            elim (Bool-cases
              (ltb_ℤ (pos 0) (timediff k'.snd_una old_una) && ltb k'.cwnd k'.rmt_wnd)) [
                | inl grows ↦
                    let same = grow_cwnd-same k' in
                    rw grows (record {
                      receiving = InOrder-same first k' (grow_cwnd k') same.0 v'.receiving;
                      sending = Outstanding-same k' (grow_cwnd k') same.1 v'.sending;
                    })
                | inr stays ↦ rw stays v'
              ]

  input_loop-Ended :
      (fuel : ℕ) (k : Kcp) (a : AckState) (buf : List ℕ)
      → length buf ≤ fuel
      → Ended buf (input_loop order fuel k a buf).1
  unfolding input_loop
  input_loop-Ended zero k a buf hf = (omega arith, omega arith)
  input_loop-Ended (suc fuel) k a buf hf =
      let h = read_header order buf in
      let body = drop kcp_overhead buf in
      let rest = drop h.len body in
      let step = input_segment k a h (take h.len body) in
      elim (Bool-cases (ltb (length buf) kcp_overhead)) [
        | inl short ↦ rw short (ground arith, omega arith)
        | inr enough ↦
            let long : kcp_overhead ≤ length buf = ground arith in
            let less : length rest + kcp_overhead ≤ length buf =
              omega (arith, length-drop h.len body, length-drop kcp_overhead buf) in
            let next =
              Ended-mono rest buf (input_loop order fuel step.0 step.1 rest).1 (omega arith)
                (input_loop-Ended fuel step.0 step.1 rest (omega arith)) in
            elim (Bool-cases (not (h.conv == k.conv))) [
              | inl foreign ↦ rw (enough, foreign) tt
              | inr ours ↦ elim (Bool-cases (ltb (length body) h.len)) [
                | inl cut ↦ rw (enough, ours, cut) tt
                | inr whole ↦ elim (Bool-cases (not (is_command h.cmd))) [
                  | inl unknown ↦ rw (enough, ours, whole, unknown) tt
                  | inr known ↦ rw (enough, ours, whole, known) next
                ]
              ]
            ]
      ]

  -- Where the received segments are in order and the sent ones outstanding, they are so after
  -- `input`, whatever bytes arrive, accepted or refused with any of its errors; and a packet that
  -- is accepted was read up to a remainder shorter than a header, so that the loop has ended by
  -- itself.
  pub input-Sound :
      (first : ℕ) (k : Kcp) (current : ℕ) (buf : List ℕ)
      → All IsByte buf
      → Sound first k
      → Sound first (input order k current buf).0 × ReadsWhole buf (input order k current buf).1
  unfolding input
  input-Sound first k current buf hb v = elim (Bool-cases (ltb (length buf) kcp_overhead)) [
    | inl short ↦ rw short (v, tt)
    | inr enough ↦ rw enough (
        ending (input_loop order (length buf) k0 start buf)
          (input_loop-Sound first (length buf) k0 start buf hb v0)
          (input_loop-Ended (length buf) k0 start buf (omega arith)) (ground arith))
  ]
    where
      k0 : Kcp
      k0 = record k { current = current }

      start : AckState
      start = record { flag = false; max_ack = 0; latest_ts = 0 }

      v0 : Sound first k0
      v0 = record {
        receiving = InOrder-same first k k0 (refl, refl, refl, refl) v.receiving;
        sending = Outstanding-same k k0 (refl, refl, refl, refl) v.sending;
      }

      ending :
          (p : Kcp × Result KcpError (AckState × List ℕ))
          → Sound first p.0
          → Ended buf p.1
          → kcp_overhead ≤ length buf
          → let r : Kcp × Result KcpError ℕ = elim p.1 [
            | err e ↦ (p.0, err e)
            | ok (a, rest) ↦ (after_loop p.0 a k.snd_una, ok (length buf - length rest))
          ] in
            Sound first r.0 × ReadsWhole buf r.1
      ending (k', err e) v' ended h = (v', tt)
      ending (k', ok (a, rest)) v' (short, le) h =
          (after_loop-Sound first k' a k.snd_una v', (omega arith, omega arith, omega arith))
