-- ===== src/Kcp/Acks/Removal.antt =====
-- crates/raynet-core/src/kcp/kcp.rs: what `parse_ack` takes out of `snd_buf`.
use raynet.Prelude.{
  ℕ, zero, suc, ◌+◌, ◌^◌, ◌≤◌, ◌<◌, ◌≡◌, refl, ap, sym, ◌∙◌, true, false, List, [], ◌∷◌, some,
  length, get_elem?, IsU32, ltb, ◌==◌, if◌then◌else◌, arith, Bool-cases, inl, inr,
}
use raynet.Kcp.Types.{Kcp, KcpSegment, timediff}
use raynet.Kcp.Receive.Order.{ahead, Between}
use raynet.Kcp.Acks.{in_flight, remove_acked, parse_ack}
use raynet.Kcp.Acks.Outstanding.{Outstanding}

-- The segments but those with the number `sn`.
unfoldable pub without : ℕ → List KcpSegment → List KcpSegment
without sn [] = []
without sn (seg ∷ segs) = if sn == seg.sn then without sn segs else seg ∷ without sn segs

-- Numbers from `una + low` on are not below it, where they do not wrap around.
without-above :
    (sn una low high : ℕ) (segs : List KcpSegment)
    → una + high ≤ 2 ^ 32
    → sn < una + low
    → Between una low high segs
    → without sn segs ≡ segs
unfolding without
without-above sn una low high [] hw hs b = refl
without-above sn una low high (x ∷ segs) hw hs (u, l, h, b) =
    let other : (sn == x.sn) ≡ false = ground arith in
    rw other (ap (◌∷◌ x) (without-above sn una (ahead una x.sn + 1) high segs hw (omega arith) b))

remove_acked-without :
    (sn una low high : ℕ) (segs : List KcpSegment)
    → una + high ≤ 2 ^ 32
    → Between una low high segs
    → remove_acked sn segs ≡ without sn segs
unfolding remove_acked without
remove_acked-without sn una low high [] hw b = refl
remove_acked-without sn una low high (x ∷ segs) hw (u, l, h, b) = elim (Bool-cases (sn == x.sn)) [
  | inl same ↦
      rw same (sym (without-above sn una (ahead una x.sn + 1) high segs hw (ground arith) b))
  | inr other ↦ elim (Bool-cases (ltb sn x.sn)) [
    | inl below ↦
        rw (other, below)
          (ap (◌∷◌ x)
            (sym (without-above sn una (ahead una x.sn + 1) high segs hw (ground arith) b)))
    | inr above ↦
        rw (other, above)
          (ap (◌∷◌ x) (remove_acked-without sn una (ahead una x.sn + 1) high segs hw b))
  ]
]

-- Where the segments in flight are in order and their numbers do not wrap around, the
-- acknowledgement of a number in flight takes exactly that number out of `snd_buf`, and that of any
-- other number takes nothing out.
pub parse_ack-without :
    (k : Kcp) (sn : ℕ)
    → Outstanding k
    → k.snd_una + ahead k.snd_una k.snd_nxt ≤ 2 ^ 32
    → (parse_ack k sn).snd_buf ≡ (if in_flight k sn then without sn k.snd_buf else k.snd_buf)
unfolding parse_ack
parse_ack-without k sn v hw = elim (Bool-cases (in_flight k sn)) [
  | inl flying ↦
      rw flying
        (remove_acked-without sn k.snd_una 0 (ahead k.snd_una k.snd_nxt) k.snd_buf hw v.sent)
  | inr foreign ↦ rw foreign refl
]

-- A segment of the list lies within the bounds of the list.
Between-at :
    (una low high i : ℕ) (segs : List KcpSegment) (seg : KcpSegment)
    → Between una low high segs
    → get_elem? segs i ≡ some seg
    → IsU32 seg.sn × (low ≤ ahead una seg.sn) × (ahead una seg.sn < high)
Between-at una low high i [] seg b e = absurd (cc e)
Between-at una low high zero (x ∷ segs) seg (u, l, h, b) e =
    let same : x ≡ seg = cc e in rw (← same) (u, l, h)
Between-at una low high (suc i) (x ∷ segs) seg (u, l, h, b) e =
    let (u', l', h') = Between-at una (ahead una x.sn + 1) high i segs seg b e in
    (u', omega arith, h')

-- Numbers ahead of another one are not that one, also where they wrap around.
without-ahead :
    (sn una low high : ℕ) (segs : List KcpSegment)
    → ahead una sn < low
    → Between una low high segs
    → without sn segs ≡ segs
unfolding without
without-ahead sn una low high [] h b = refl
without-ahead sn una low high (x ∷ segs) h (u, l, _, b) = elim (Bool-cases (sn == x.sn)) [
  | inl same ↦ let equal : sn ≡ x.sn = ground (arith, same) in absurd (omega (arith, equal, h, l))
  | inr other ↦
      rw other (ap (◌∷◌ x) (without-ahead sn una (ahead una x.sn + 1) high segs (omega arith) b))
]

-- The numbers from `base` up to that of the segment do not wrap around, where `base` is not greater.
remove_acked-at :
    (base una low high i : ℕ) (segs : List KcpSegment) (seg : KcpSegment)
    → IsU32 una
    → IsU32 base
    → ahead una base ≤ low
    → Between una low high segs
    → get_elem? segs i ≡ some seg
    → base ≤ seg.sn
    → remove_acked seg.sn segs ≡ without seg.sn segs
unfolding remove_acked without
remove_acked-at base una low high i [] seg hu hb ha b e le = absurd (cc e)
remove_acked-at base una low high zero (x ∷ segs) seg hu hb ha (u, l, h, b) e le =
    let same : x ≡ seg = cc e in
    let here : (seg.sn == x.sn) ≡ true = ground (arith, same) in
    rw here (
      sym (
        without-ahead seg.sn una (ahead una x.sn + 1) high segs
          (omega (arith, ap (λ (s : KcpSegment). s.sn) same)) b))
remove_acked-at base una low high (suc i) (x ∷ segs) seg hu hb ha (u, l, h, b) e le =
    let (u', l', h') = Between-at una (ahead una x.sn + 1) high i segs seg b e in
    let below : x.sn < seg.sn = omega arith in
    let other : (seg.sn == x.sn) ≡ false = ground arith in
    let onward : ltb seg.sn x.sn ≡ false = ground arith in
    rw (other, onward)
      (ap (◌∷◌ x)
        (remove_acked-at base una (ahead una x.sn + 1) high i segs seg hu hb (omega arith) b e le))

without-le : (sn : ℕ) (segs : List KcpSegment) → length (without sn segs) ≤ length segs
unfolding without
without-le sn [] = omega arith
without-le sn (x ∷ segs) = elim (Bool-cases (sn == x.sn)) [
  | inl same ↦ rw same (omega (arith, without-le sn segs))
  | inr other ↦ rw other (omega (arith, without-le sn segs))
]

without-shorter :
    (i : ℕ) (segs : List KcpSegment) (seg : KcpSegment)
    → get_elem? segs i ≡ some seg
    → length (without seg.sn segs) < length segs
unfolding without
without-shorter i [] seg e = absurd (cc e)
without-shorter zero (x ∷ segs) seg e =
    let same : x ≡ seg = cc e in
    let here : (seg.sn == x.sn) ≡ true = ground (arith, same) in
    rw here (omega (arith, without-le seg.sn segs))
without-shorter (suc i) (x ∷ segs) seg e = elim (Bool-cases (seg.sn == x.sn)) [
  | inl same ↦ rw same (omega (arith, without-le seg.sn segs))
  | inr other ↦ rw other (omega (arith, without-shorter i segs seg e))
]

remove_acked-below :
    (sn : ℕ) (first : KcpSegment) (rest : List KcpSegment)
    → sn < first.sn
    → remove_acked sn (first ∷ rest) ≡ first ∷ rest
unfolding remove_acked
remove_acked-below sn first rest h =
    let other : (sn == first.sn) ≡ false = ground arith in
    let below : ltb sn first.sn ≡ true = ground arith in rw (other, below) refl

-- A number that is outstanding is taken as one in flight.
in_flight-at :
    (k : Kcp) (sn : ℕ)
    → Outstanding k
    → IsU32 sn
    → ahead k.snd_una sn < ahead k.snd_una k.snd_nxt
    → in_flight k sn ≡ true
unfolding in_flight timediff
in_flight-at k sn v u h = ground (arith, v.una_in, v.nxt_in, v.near)

-- Where the segments in flight are in order, the acknowledgement of any segment that is in `snd_buf`
-- takes it out exactly where its number is not less, as a plain integer, than that of the first
-- segment: behind the wrap of the numbers it is less, and `snd_buf` stays as it is, although the
-- acknowledged segment is in it.
pub parse_ack_across_wrap :
    (k : Kcp) (i : ℕ) (seg first : KcpSegment) (rest : List KcpSegment)
    → Outstanding k
    → k.snd_buf ≡ first ∷ rest
    → get_elem? k.snd_buf i ≡ some seg
    → ((parse_ack k seg.sn).snd_buf
        ≡ (if ltb seg.sn first.sn then k.snd_buf else without seg.sn k.snd_buf))
      × (length (without seg.sn k.snd_buf) < length k.snd_buf)
unfolding parse_ack
parse_ack_across_wrap k i seg first rest v e there =
    let una = k.snd_una in
    let high = ahead una k.snd_nxt in
    let (u, l, h) = Between-at una 0 high i k.snd_buf seg v.sent there in
    let flying = in_flight-at k seg.sn v u h in
    (
      elim (Bool-cases (ltb seg.sn first.sn)) [
        | inl below ↦
            rw (flying, below)
              (ap (remove_acked seg.sn) e
                ∙ remove_acked-below seg.sn first rest (ground (arith, below))
                ∙ sym e)
        | inr above ↦
            let b : Between una 0 high (first ∷ rest) = rw e at v.sent in
            let b' : Between una (ahead una first.sn) high k.snd_buf =
              rw e (b.0, omega arith, b.2, b.3) in
            rw (flying, above)
              (remove_acked-at first.sn una (ahead una first.sn) high i k.snd_buf seg v.una_in b.0
                (omega arith) b' there (ground (arith, above)))
      ],
      without-shorter i k.snd_buf seg there,
    )
