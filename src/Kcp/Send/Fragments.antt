-- ===== src/Kcp/Send/Fragments.antt =====
-- crates/raynet-core/src/kcp/kcp.rs: the fragments of `send`, as `peeksize` and `recv` see them.
use raynet.Prelude.{
  ℕ, zero, suc, ◌+◌, ◌-◌, ◌*◌, ◌%◌, ◌≤◌, ◌<◌, ◌≡◌, refl, sym, ap, ◌∙◌, List, [], ◌∷◌, ◌++◌, arith,
  length, take, drop, min, max, ◌||◌, length-take, length-drop, take-append-drop, length-append,
  leb, ltb, ◌==◌, ok, returns, All, true, false,
}
use native.Mathlib.Nat.{div-add-mod'}
use raynet.Kcp.Types.{Kcp, KcpSegment, new_with_data}
use raynet.Kcp.Receive.{peeksize, message_size, merge_fragments, recv, after_merge}
use raynet.Kcp.Receive.Messages.{merge_fragments_size, peeksize_whole, recv_total}
use raynet.Kcp.Send.{div_ceil, fragments, send}

-- At most this many bytes of data.
abbrev pub AtMost : ℕ → KcpSegment → Type 0
AtMost mss seg = length seg.bytes ≤ mss

pub length-fragments : (count mss : ℕ) (buf : List ℕ) → length (fragments count mss buf) ≡ count
unfolding fragments
length-fragments zero mss buf = refl
length-fragments (suc left) mss buf =
    ap suc (length-fragments left mss (drop (min mss (length buf)) buf))

-- No fragment is larger than the segment size.
pub fragments-AtMost : (count mss : ℕ) (buf : List ℕ) → All (AtMost mss) (fragments count mss buf)
unfolding fragments new_with_data
fragments-AtMost zero mss buf = tt
fragments-AtMost (suc left) mss buf = (
  omega (arith, length-take (min mss (length buf)) buf),
  fragments-AtMost left mss (drop (min mss (length buf)) buf),
)

take_all {ℓ} : {A : Type ℓ} → (n : ℕ) (xs : List A) → length xs ≤ n → take n xs ≡ xs
take_all zero [] h = refl
take_all zero (x ∷ xs) h = absurd (omega arith)
take_all (suc n) [] h = refl
take_all (suc n) (x ∷ xs) h = ap (◌∷◌ x) (take_all n xs (omega arith))

-- The same fragment numbers and data, segment by segment: all that `recv` looks at.
abbrev pub Carries : List KcpSegment → List KcpSegment → Type 0
Carries [] [] = Unit {0}
Carries [] (y ∷ ys) = ⊥
Carries (x ∷ xs) [] = ⊥
Carries (x ∷ xs) (y ∷ ys) = (x.frg ≡ y.frg) × (x.bytes ≡ y.bytes) × Carries xs ys

length-Carries : (xs ys : List KcpSegment) → Carries xs ys → length xs ≡ length ys
length-Carries [] [] c = refl
length-Carries [] (y ∷ ys) c = absurd c
length-Carries (x ∷ xs) [] c = absurd c
length-Carries (x ∷ xs) (y ∷ ys) (f, b, c) = ap suc (length-Carries xs ys c)

-- The fragments of a message, whatever follows them, merge into the message.
merge_fragments-fragments :
    (left mss : ℕ) (buf : List ℕ) (arrived rest : List KcpSegment)
    → left < 256
    → length buf ≤ suc left * mss
    → Carries arrived (fragments (suc left) mss buf)
    → merge_fragments (arrived ++ rest) ≡ (buf, rest)
unfolding fragments merge_fragments new_with_data
merge_fragments-fragments left mss buf [] rest hl h c = absurd c
merge_fragments-fragments zero mss buf (x ∷ y ∷ xs) rest hl h (f, b, c) = absurd c
merge_fragments-fragments zero mss buf (x ∷ []) rest hl h (f, b, c) =
    let last : (x.frg == 0) ≡ true = ground arith in
    let all : x.bytes ≡ buf = b ∙ take_all (min mss (length buf)) buf (omega arith) in
    rw (last, all) refl
merge_fragments-fragments (suc left) mss buf (x ∷ xs) rest hl h (f, b, c) =
    let size = min mss (length buf) in
    let more : (x.frg == 0) ≡ false = ground arith in
    let rec : merge_fragments (xs ++ rest) ≡ (drop size buf, rest) =
      merge_fragments-fragments left mss (drop size buf) xs rest (omega arith)
        (omega (arith, length-drop size buf)) c in
    rw (more, rec, b) (ap (λ (bytes : List ℕ). (bytes, rest)) (take-append-drop size buf))

-- A message at the front of a receive queue is announced with its length and merged whole, where it
-- was cut into 1 to 255 fragments that it fits in.
pub peeksize-fragments :
    (left mss : ℕ) (buf : List ℕ) (arrived rest : List KcpSegment)
    → left < 255
    → length buf ≤ suc left * mss
    → Carries arrived (fragments (suc left) mss buf)
    → (peeksize (arrived ++ rest) ≡ ok (length buf))
      × (merge_fragments (arrived ++ rest) ≡ (buf, rest))
unfolding fragments new_with_data
peeksize-fragments left mss buf [] rest hl h c = absurd c
peeksize-fragments left mss buf (x ∷ xs) rest hl h c =
    let merged = merge_fragments-fragments left mss buf (x ∷ xs) rest (omega arith) h c in
    let size : message_size (x ∷ (xs ++ rest)) ≡ length buf =
      sym (merge_fragments_size (x ∷ (xs ++ rest)))
      ∙ ap (λ (p : List ℕ × List KcpSegment). length p.0) merged in
    let announced : x.frg ≡ left = omega (arith, c.0) in
    let count : length (x ∷ xs) ≡ suc left =
      length-Carries (x ∷ xs) (fragments (suc left) mss buf) c
      ∙ length-fragments (suc left) mss buf in
    (
      peeksize_whole x (xs ++ rest) (omega arith) (omega (arith, length-append xs rest))
          ∙ ap ok size,
      merged,
    )

-- As many segments as `div_ceil` says hold the message.
le-div_ceil : (n mss : ℕ) → 0 < mss → n ≤ max (div_ceil n mss) 1 * mss
le-div_ceil n mss h =
    let whole = div-add-mod' (n + mss - 1) mss in
    let below : (n + mss - 1) % mss < mss = grind arith in
    let one : div_ceil n mss * mss ≤ max (div_ceil n mss) 1 * mss = grind arith in omega arith

-- What one side sends as a message the other side receives as that message. Where the segment size
-- is not zero and the segments are at most 255 and fewer than the receive window, `send` succeeds
-- and appends them; and once segments with their fragment numbers and data are at the front of the
-- queue of a receiver, its `recv` with room for the message gives the message and goes on with what
-- follows.
pub recv-send :
    (k r : Kcp) (buf : List ℕ) (size : ℕ) (arrived rest : List KcpSegment)
    → 0 < k.mss
    → max (div_ceil (length buf) k.mss) 1 < min 256 k.rcv_wnd
    → Carries arrived (fragments (max (div_ceil (length buf) k.mss) 1) k.mss buf)
    → r.rcv_queue ≡ arrived ++ rest
    → length buf ≤ size
    → (send k buf
        ≡ returns (
          record k {
            snd_queue = k.snd_queue ++ fragments (max (div_ceil (length buf) k.mss) 1) k.mss buf;
          },
          ok (length buf),
        ))
      × (recv r size ≡ returns (after_merge r rest, ok buf))
unfolding send
recv-send k r buf size arrived rest hm hc c e hs =
    let count = max (div_ceil (length buf) k.mss) 1 in
    let whole : suc (count - 1) ≡ count = omega arith in
    let enough : length buf ≤ suc (count - 1) * k.mss =
      rw whole (le-div_ceil (length buf) k.mss hm) in
    let carried : Carries arrived (fragments (suc (count - 1)) k.mss buf) = rw whole c in
    let (peeked, merged) =
      peeksize-fragments (count - 1) k.mss buf arrived rest (omega arith) enough carried in
    let some_mss : (k.mss == 0) ≡ false = ground arith in
    let small : (leb k.rcv_wnd count || leb 256 count) ≡ false = ground arith in
    let room : ltb size (length buf) ≡ false = ground arith in
    (
      rw (some_mss, small) refl,
      recv_total r size ∙ rw (ap peeksize e ∙ peeked, ap merge_fragments e ∙ merged, room) refl,
    )
