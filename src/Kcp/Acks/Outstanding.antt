-- ===== src/Kcp/Acks/Outstanding.antt =====
-- crates/raynet-core/src/kcp/kcp.rs: the segments of `snd_buf` are those between `snd_una` and
-- `snd_nxt` that nothing has acknowledged, under `parse_ack`, `parse_una`, `parse_fastack` and
-- `shrink_buf`.
use raynet.Prelude.{
  ℕ, ◌+◌, ◌-◌, ◌^◌, ◌<◌, ◌≡◌, not, ◌&&◌, List, [], ◌∷◌, subst, ltb, ◌==◌, arith, IsU16, IsU32,
  Bool-cases, inl, inr,
}
use raynet.Prelude.Int.{pos, ltb_ℤ, leb_ℤ}
use raynet.Kcp.Types.{Kcp, KcpSegment, KcpParams, timediff, new_kcp}
use raynet.Kcp.Receive.Order.{ahead, Between, Between-mono}
use raynet.Kcp.Acks.{
  first_sn, shrink_buf, in_flight, remove_acked, parse_ack, drop_acked, parse_una, count_skipped,
  parse_fastack,
}

-- `snd_buf` holds numbers from `snd_una` on and below `snd_nxt`, in strictly ascending order as the
-- numbers wrap around, and less than half of the numbers are in use.
pub record Outstanding (k : Kcp) : Type 0 where
  pub wnd_in : IsU16 k.snd_wnd
  pub una_in : IsU32 k.snd_una
  pub nxt_in : IsU32 k.snd_nxt
  pub near : ahead k.snd_una k.snd_nxt < 2 ^ 31
  pub sent : Between k.snd_una 0 (ahead k.snd_una k.snd_nxt) k.snd_buf

-- A new control block has sent nothing.
pub new_kcp-Outstanding :
    (conv : ℕ) (params : KcpParams) → IsU16 params.send_window → Outstanding (new_kcp conv params)
unfolding new_kcp
new_kcp-Outstanding conv params h = record {
  wnd_in = h;
  una_in = omega arith;
  nxt_in = omega arith;
  near = omega arith;
  sent = omega arith;
}

-- Seen from a number that lies in front of all of them.
Between-shift :
    (una una' low high : ℕ) (segs : List KcpSegment)
    → IsU32 una
    → IsU32 una'
    → high < 2 ^ 31
    → Between una (ahead una una' + low) high segs
    → Between una' low (high - ahead una una') segs
Between-shift una una' low high [] u u' hh b = omega arith
Between-shift una una' low high (x ∷ segs) u u' hh (ux, l, h, b) =
    let near : ahead una x.sn ≡ ahead una una' + ahead una' x.sn = omega arith in
    let rest : Between una (ahead una una' + (ahead una' x.sn + 1)) high segs =
      Between-mono una (ahead una x.sn + 1) (ahead una una' + (ahead una' x.sn + 1)) high high segs
        (omega arith) (omega arith) b in
    (
      ux,
      omega arith,
      omega arith,
      Between-shift una una' (ahead una' x.sn + 1) high segs u u' hh rest,
    )

-- The loops only take numbers out.
drop_acked-Between :
    (una nxt low high : ℕ) (segs : List KcpSegment)
    → Between nxt low high segs
    → Between nxt low high (drop_acked una segs)
unfolding drop_acked
drop_acked-Between una nxt low high [] b = b
drop_acked-Between una nxt low high (x ∷ segs) (u, l, h, b) =
    elim (Bool-cases (ltb_ℤ (pos 0) (timediff una x.sn))) [
      | inl gone ↦ rw gone (
          drop_acked-Between una nxt low high segs (
            Between-mono nxt (ahead nxt x.sn + 1) low high high segs (omega arith) (omega arith) b))
      | inr here ↦ rw here (u, l, h, b)
    ]

remove_acked-Between :
    (sn nxt low high : ℕ) (segs : List KcpSegment)
    → Between nxt low high segs
    → Between nxt low high (remove_acked sn segs)
unfolding remove_acked
remove_acked-Between sn nxt low high [] b = b
remove_acked-Between sn nxt low high (x ∷ segs) (u, l, h, b) = elim (Bool-cases (sn == x.sn)) [
  | inl same ↦
      rw same
        (Between-mono nxt (ahead nxt x.sn + 1) low high high segs (omega arith) (omega arith) b)
  | inr other ↦ elim (Bool-cases (ltb sn x.sn)) [
    | inl below ↦ rw (other, below) (u, l, h, b)
    | inr above ↦
        rw (other, above) (u, l, h, remove_acked-Between sn nxt (ahead nxt x.sn + 1) high segs b)
  ]
]

count_skipped-Between :
    (sn ts nxt low high : ℕ) (segs : List KcpSegment)
    → Between nxt low high segs
    → Between nxt low high (count_skipped sn ts segs)
unfolding count_skipped
count_skipped-Between sn ts nxt low high [] b = b
count_skipped-Between sn ts nxt low high (x ∷ segs) (u, l, h, b) =
    let rest = count_skipped-Between sn ts nxt (ahead nxt x.sn + 1) high segs b in
    elim (Bool-cases (ltb_ℤ (timediff sn x.sn) (pos 0))) [
      | inl behind ↦ rw behind (u, l, h, b)
      | inr ahead_of ↦ elim (Bool-cases (not (sn == x.sn) && leb_ℤ (pos 0) (timediff ts x.ts))) [
        | inl counts ↦ rw (ahead_of, counts) (u, l, h, rest)
        | inr skips ↦ rw (ahead_of, skips) (u, l, h, rest)
      ]
    ]

-- Nothing outstanding is lost, and nothing appears: `snd_una` moves up to the first number left.
pub shrink_buf-Outstanding :
    (k : Kcp)
    → IsU16 k.snd_wnd
    → IsU32 k.snd_una
    → IsU32 k.snd_nxt
    → ahead k.snd_una k.snd_nxt < 2 ^ 31
    → Between k.snd_una 0 (ahead k.snd_una k.snd_nxt) k.snd_buf
    → Outstanding (shrink_buf k)
unfolding shrink_buf first_sn
shrink_buf-Outstanding k w u n h b = shrunk k.snd_buf b
  where
    shrunk :
        (segs : List KcpSegment)
        → Between k.snd_una 0 (ahead k.snd_una k.snd_nxt) segs
        → Outstanding (record k { snd_buf = segs; snd_una = first_sn segs k.snd_nxt })
    shrunk [] b = record {
      wnd_in = w;
      una_in = n;
      nxt_in = n;
      near = omega arith;
      sent = omega arith;
    }
    shrunk (x ∷ segs) (ux, l, hx, b) =
        let whole : Between k.snd_una (ahead k.snd_una x.sn + 0) (ahead k.snd_una k.snd_nxt)
            (x ∷ segs) =
          (ux, omega arith, hx, b) in
        let shifted =
          Between-shift k.snd_una x.sn 0 (ahead k.snd_una k.snd_nxt) (x ∷ segs) u ux h whole in
        let left : ahead k.snd_una k.snd_nxt - ahead k.snd_una x.sn ≡ ahead x.sn k.snd_nxt =
          omega arith in
        record {
          wnd_in = w;
          una_in = ux;
          nxt_in = n;
          near = omega arith;
          sent = subst (λ high. Between x.sn 0 high (x ∷ segs)) left shifted;
        }

-- A cumulative acknowledgement, whatever number it carries.
pub parse_una-Outstanding :
    (k : Kcp) (una : ℕ) → Outstanding k → Outstanding (shrink_buf (parse_una k una))
unfolding parse_una
parse_una-Outstanding k una v =
    shrink_buf-Outstanding (record k { snd_buf = drop_acked una k.snd_buf }) v.wnd_in v.una_in
      v.nxt_in v.near
      (drop_acked-Between una k.snd_una 0 (ahead k.snd_una k.snd_nxt) k.snd_buf v.sent)

-- The acknowledgement of one number, whatever number it is.
pub parse_ack-Outstanding :
    (k : Kcp) (sn : ℕ) → Outstanding k → Outstanding (shrink_buf (parse_ack k sn))
unfolding parse_ack
parse_ack-Outstanding k sn v = elim (Bool-cases (in_flight k sn)) [
  | inl flying ↦ rw flying (
      shrink_buf-Outstanding (record k { snd_buf = remove_acked sn k.snd_buf }) v.wnd_in v.una_in
        v.nxt_in v.near
        (remove_acked-Between sn k.snd_una 0 (ahead k.snd_una k.snd_nxt) k.snd_buf v.sent))
  | inr foreign ↦ rw foreign (shrink_buf-Outstanding k v.wnd_in v.una_in v.nxt_in v.near v.sent)
]

-- Counting what an acknowledgement skipped.
pub parse_fastack-Outstanding :
    (k : Kcp) (sn ts : ℕ) → Outstanding k → Outstanding (parse_fastack k sn ts)
unfolding parse_fastack
parse_fastack-Outstanding k sn ts v = elim (Bool-cases (in_flight k sn)) [
  | inl flying ↦ rw flying (record {
    wnd_in = v.wnd_in;
    una_in = v.una_in;
    nxt_in = v.nxt_in;
    near = v.near;
    sent = count_skipped-Between sn ts k.snd_una 0 (ahead k.snd_una k.snd_nxt) k.snd_buf v.sent;
  })
  | inr foreign ↦ rw foreign v
]
