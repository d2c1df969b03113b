-- ===== src/Kcp/Receive/Order.antt =====
-- crates/raynet-core/src/kcp/kcp.rs: the order of `rcv_buf`, and `parse_data`'s insertion into it.
use mathlib.Core.List.{reverse-cons, reverse-reverse}
use raynet.Prelude.{
  ℕ, zero, suc, ◌+◌, ◌-◌, ◌^◌, ◌≤◌, ◌<◌, ◌≡◌, refl, ap, sym, ◌∙◌, Bool, true, false, List, [], ◌∷◌,
  ◌++◌, reverse, length, ◌==◌, if◌then◌else◌, arith, sub32, IsU32, length-append, Bool-cases, inl,
  inr, ltb,
}
use raynet.Prelude.Int.{pos, ltb_ℤ}
use raynet.Kcp.Types.{KcpSegment, timediff}
use raynet.Kcp.Receive.{scan_back, insert_at, insert_segment}

-- How far a number lies ahead of `nxt`, around the ring of 32-bit numbers.
abbrev pub ahead : ℕ → ℕ → ℕ
ahead nxt sn = sub32 sn nxt

-- The segments lie in strictly ascending order at distances from `low` up to below `high`.
abbrev pub Between : ℕ → ℕ → ℕ → List KcpSegment → Type 0
Between nxt low high [] = low ≤ high
Between nxt low high (seg ∷ segs) =
    IsU32 seg.sn
    × (low ≤ ahead nxt seg.sn)
    × (ahead nxt seg.sn < high)
    × Between nxt (ahead nxt seg.sn + 1) high segs

pub Between-snoc :
    (nxt low high : ℕ) (segs : List KcpSegment) (seg : KcpSegment)
    → IsU32 seg.sn
    → ahead nxt seg.sn < high
    → Between nxt low (ahead nxt seg.sn) segs
    → Between nxt low high (segs ++ (seg ∷ []))
Between-snoc nxt low high [] seg u h b = (u, b, h, omega arith)
Between-snoc nxt low high (x ∷ segs) seg u h (ux, lx, hx, b) =
    (ux, lx, omega arith, Between-snoc nxt (ahead nxt x.sn + 1) high segs seg u h b)

pub Between-lt :
    (nxt low high : ℕ) (segs : List KcpSegment) → Between nxt low high segs → low ≤ high
Between-lt nxt low high [] b = b
Between-lt nxt low high (seg ∷ segs) (_, l, h, b) = omega arith

Between-unsnoc :
    (nxt low high : ℕ) (segs : List KcpSegment) (seg : KcpSegment)
    → Between nxt low high (segs ++ (seg ∷ []))
    → IsU32 seg.sn × (ahead nxt seg.sn < high) × Between nxt low (ahead nxt seg.sn) segs
Between-unsnoc nxt low high [] seg (u, l, h, b) = (u, h, l)
Between-unsnoc nxt low high (x ∷ segs) seg (ux, lx, hx, b) =
    let (u, h, rest) = Between-unsnoc nxt (ahead nxt x.sn + 1) high segs seg b in
    (
      u,
      h,
      (
        ux,
        lx,
        omega (arith, Between-lt nxt (ahead nxt x.sn + 1) (ahead nxt seg.sn) segs rest),
        rest,
      ),
    )

-- The insertion, on the reversed buffer that the code walks over.
place_back : KcpSegment → List KcpSegment → List KcpSegment
place_back seg [] = seg ∷ []
place_back seg (x ∷ xs) =
    if x.sn == seg.sn
    then x ∷ xs
    else if ltb_ℤ (pos 0) (timediff seg.sn x.sn)
    then seg ∷ x ∷ xs
    else x ∷ place_back seg xs

-- Inside the window, the signed difference of two numbers orders them as their distances do.
ahead_order :
    (nxt a b : ℕ)
    → IsU32 nxt
    → IsU32 a
    → IsU32 b
    → ahead nxt a < 2 ^ 31
    → ahead nxt b < 2 ^ 31
    → ltb_ℤ (pos 0) (timediff a b) ≡ ltb (ahead nxt b) (ahead nxt a)
unfolding timediff
ahead_order nxt a b un ua ub ha hb = ground arith

ahead_injective : (nxt a b : ℕ) → IsU32 nxt → IsU32 a → IsU32 b → ahead nxt a ≡ ahead nxt b → a ≡ b
ahead_injective nxt a b un ua ub e = omega arith

module _ (nxt : ℕ) (un : IsU32 nxt) (seg : KcpSegment) (useg : IsU32 seg.sn) where
  abbrev place : ℕ
  place = ahead nxt seg.sn

  place_back-Between :
      (low high : ℕ) (rs : List KcpSegment)
      → low ≤ place
      → place < high
      → high ≤ 2 ^ 31
      → Between nxt low high (reverse rs)
      → Between nxt low high (reverse (place_back seg rs))
  unfolding place_back
  place_back-Between low high [] hl hh h b = (useg, hl, hh, omega arith)
  place_back-Between low high (x ∷ xs) hl hh h b =
      let (ux, hx, bx) = Between-unsnoc nxt low high (reverse xs) x (rw reverse-cons at b) in
      let order = ahead_order nxt seg.sn x.sn un useg ux (omega arith) (omega arith) in
      elim (Bool-cases (x.sn == seg.sn)) [
        | inl same ↦ rw same b
        | inr other ↦ elim (Bool-cases (ltb_ℤ (pos 0) (timediff seg.sn x.sn))) [
          | inl later ↦
              rw (other, later, reverse-cons seg (x ∷ xs))
                (Between-snoc nxt low high (reverse (x ∷ xs)) seg useg hh (
                  rw reverse-cons
                    (Between-snoc nxt low place (reverse xs) x ux (ground (arith, order)) bx)))
          | inr earlier ↦
              rw (other, earlier, reverse-cons x (place_back seg xs))
                (Between-snoc nxt low high (reverse (place_back seg xs)) x ux hx (
                  place_back-Between low (ahead nxt x.sn) xs hl
                    (ground (arith, order, ahead_injective nxt seg.sn x.sn un useg ux))
                    (omega arith) bx))
        ]
      ]

-- The index that `scan_back` finds is where `place_back` puts the segment.
length-reverse {ℓ} : {A : Type ℓ} (xs : List A) → length (reverse xs) ≡ length xs
length-reverse [] = refl
length-reverse (x ∷ xs) =
    let snoc = length-append (reverse xs) (x ∷ []) in
    let rest = length-reverse xs in rw (reverse-cons x xs) (omega arith)

abbrev placed : KcpSegment → List KcpSegment → Bool × ℕ → List KcpSegment
placed seg rs (true, i) = reverse rs
placed seg rs (false, i) = insert_at i seg (reverse rs)

scan_back-le : (sn : ℕ) (rs : List KcpSegment) (n : ℕ) → (scan_back sn rs n).1 ≤ n
unfolding scan_back
scan_back-le sn [] n = omega arith
scan_back-le sn (x ∷ xs) n = ground (arith, scan_back-le sn xs (n - 1))

insert_at_snoc :
    (i : ℕ) (seg x : KcpSegment) (xs : List KcpSegment)
    → i ≤ length xs
    → insert_at i seg (xs ++ (x ∷ [])) ≡ insert_at i seg xs ++ (x ∷ [])
unfolding insert_at
insert_at_snoc zero seg x xs h = refl
insert_at_snoc (suc i) seg x [] h = absurd (omega arith)
insert_at_snoc (suc i) seg x (y ∷ ys) h = ap (◌∷◌ y) (insert_at_snoc i seg x ys (omega arith))

insert_at_end :
    (seg : KcpSegment) (xs : List KcpSegment) (n : ℕ)
    → n ≡ length xs
    → insert_at n seg xs ≡ xs ++ (seg ∷ [])
unfolding insert_at
insert_at_end seg [] zero e = refl
insert_at_end seg [] (suc n) e = absurd (omega arith)
insert_at_end seg (x ∷ xs) zero e = absurd (omega arith)
insert_at_end seg (x ∷ xs) (suc n) e = ap (◌∷◌ x) (insert_at_end seg xs n (omega arith))

placed-cons :
    (seg x : KcpSegment) (xs : List KcpSegment) (r : Bool × ℕ)
    → r.1 ≤ length xs
    → placed seg (x ∷ xs) r ≡ placed seg xs r ++ (x ∷ [])
placed-cons seg x xs (true, i) h = reverse-cons x xs
placed-cons seg x xs (false, i) h =
    rw reverse-cons (insert_at_snoc i seg x (reverse xs) (omega (arith, length-reverse xs)))

scan_back-place_back :
    (seg : KcpSegment) (rs : List KcpSegment) (n : ℕ)
    → n ≡ length rs
    → placed seg rs (scan_back seg.sn rs n) ≡ reverse (place_back seg rs)
unfolding scan_back place_back
scan_back-place_back seg [] n e = insert_at_end seg [] n e
scan_back-place_back seg (x ∷ xs) n e = elim (Bool-cases (x.sn == seg.sn)) [
  | inl same ↦ rw same
  | inr other ↦ elim (Bool-cases (ltb_ℤ (pos 0) (timediff seg.sn x.sn))) [
    | inl later ↦
        rw (other, later, reverse-cons seg (x ∷ xs))
          (insert_at_end seg (reverse (x ∷ xs)) n (omega (arith, length-reverse (x ∷ xs))))
    | inr earlier ↦
        let back : (scan_back seg.sn xs (n - 1)).1 ≤ length xs =
          omega (arith, scan_back-le seg.sn xs (n - 1)) in
        rw (other, earlier, reverse-cons x (place_back seg xs))
          (placed-cons seg x xs (scan_back seg.sn xs (n - 1)) back
            ∙ ap (λ ys. ys ++ (x ∷ [])) (scan_back-place_back seg xs (n - 1) (omega arith)))
  ]
]

insert_segment-placed :
    (seg : KcpSegment) (segs : List KcpSegment)
    → insert_segment seg segs
      ≡ placed seg (reverse segs) (scan_back seg.sn (reverse segs) (length segs))
unfolding insert_segment
insert_segment-placed seg segs = go (scan_back seg.sn (reverse segs) (length segs))
  where
    go :
        (r : Bool × ℕ)
        → (if r.0 then segs else insert_at r.1 seg segs) ≡ placed seg (reverse segs) r
    go (true, i) = sym (reverse-reverse segs)
    go (false, i) = ap (insert_at i seg) (sym (reverse-reverse segs))

-- A segment in the window keeps the buffer in strictly ascending order, whatever it is.
pub insert_segment-Between :
    (nxt low high : ℕ) (seg : KcpSegment) (segs : List KcpSegment)
    → IsU32 nxt
    → IsU32 seg.sn
    → low ≤ ahead nxt seg.sn
    → ahead nxt seg.sn < high
    → high ≤ 2 ^ 31
    → Between nxt low high segs
    → Between nxt low high (insert_segment seg segs)
insert_segment-Between nxt low high seg segs un us hl hh h b =
    rw
      (
        insert_segment-placed seg segs,
        scan_back-place_back seg (reverse segs) (length segs) (sym (length-reverse segs)),
      )
      (place_back-Between nxt un seg us low high (reverse segs) hl hh h
        (rw (reverse-reverse segs) b))

-- Wider bounds.
pub Between-mono :
    (nxt low low' high high' : ℕ) (segs : List KcpSegment)
    → low' ≤ low
    → high ≤ high'
    → Between nxt low high segs
    → Between nxt low' high' segs
Between-mono nxt low low' high high' [] hl hh b = omega arith
Between-mono nxt low low' high high' (x ∷ segs) hl hh (u, l, h, b) = (
  u,
  omega arith,
  omega arith,
  Between-mono nxt (ahead nxt x.sn + 1) (ahead nxt x.sn + 1) high high' segs (omega arith) hh b,
)
