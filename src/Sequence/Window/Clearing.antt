-- ===== src/Sequence/Window/Clearing.antt =====
-- crates/raynet-core/src/sequence.rs: the three loops of `SequenceWindow::clear_after` clear the
-- bits of the sequence numbers that the window moves over, and no other.
use raynet.Prelude.{
  ℕ, zero, suc, ◌+◌, ◌-◌, ◌/◌, ◌%◌, ◌^◌, ◌≤◌, ◌<◌, ◌≡◌, not, ◌&&◌, List, ltb, leb, ◌==◌,
  if◌then◌else◌, arith, length, length-set, ◌⊎◌, inl, inr, Bool-cases,
}
use raynet.Sequence.Window.Bitmap.{
  window_bits, window_words, clear_bit, Cursor, clear_one, clear_word, clear_front, clear_words,
  clear_back, clear_after,
}
use raynet.Sequence.Window.Cells.{cell, cell-clear_bit, cell-clear_word}

length-clear_bit : (bitmap : List ℕ) (k : ℕ) → length (clear_bit bitmap k) ≡ length bitmap
unfolding clear_bit
length-clear_bit bitmap k = length-set bitmap (k / 64) _

-- How far bit `i` lies behind `start`, around the ring.
abbrev pub ring_distance : ℕ → ℕ → ℕ
ring_distance i start = (i + window_bits - start) % window_bits

-- From `start` on, `n` bits around the ring are zero, and the others are those of `old`.
abbrev pub IsCleared : List ℕ → ℕ → ℕ → List ℕ → Type 0
IsCleared old start n bitmap =
    (i : ℕ)
    → i < window_bits
    → cell bitmap i ≡ (if ltb (ring_distance i start) n then 0 else cell old i)

module _ (old : List ℕ) (start total : ℕ) (start_in : start < window_bits)
    (total_in : total ≤ window_bits) where
  -- Of `total` bits, all but the last `remaining` are done.
  pub record Progress (c : Cursor) : Type 0 where
    pub full : length c.bitmap ≡ window_words
    pub left : c.remaining ≤ total
    pub place : c.bit ≡ (start + (total - c.remaining)) % window_bits
    pub cells : IsCleared old start (total - c.remaining) c.bitmap

  clear_one-Progress : (c : Cursor) → 0 < c.remaining → Progress c → Progress (clear_one c)
  unfolding clear_one
  clear_one-Progress c more p = record {
    full = omega (arith, length-clear_bit c.bitmap c.bit, p.full);
    left = omega (arith, p.left);
    place = omega (arith, p.left, p.place);
    cells = λ i h. ground (
      arith,
      cell-clear_bit c.bitmap p.full i c.bit (omega (arith, p.place)),
      p.cells i h,
      p.place,
      p.left,
    );
  }

  clear_word-Progress :
      (c : Cursor)
      → 64 ≤ c.remaining
      → c.bit % 64 ≡ 0
      → Progress c
      → Progress (clear_word c) × ((clear_word c).bit % 64 ≡ 0)
  unfolding clear_word
  clear_word-Progress c more aligned p = (
    record {
      full = omega (arith, length-set c.bitmap (c.bit / 64) 0, p.full);
      left = omega (arith, p.left);
      place = omega (arith, p.left, p.place);
      cells = λ i h. ground (
        arith,
        cell-clear_word c.bitmap p.full i c.bit (omega (arith, p.place)),
        p.cells i h,
        p.place,
        p.left,
      );
    },
    omega arith,
  )

  abbrev IsAligned : Cursor → Type 0
  IsAligned c = (c.remaining ≡ 0) ⊎ (c.bit % 64 ≡ 0)

  clear_front-Progress :
      (fuel : ℕ) (c : Cursor)
      → c.remaining ≤ fuel
      → Progress c
      → Progress (clear_front fuel c) × IsAligned (clear_front fuel c)
  unfolding clear_front
  clear_front-Progress zero c h p = (p, inl (omega arith))
  clear_front-Progress (suc fuel) c h p =
      elim (Bool-cases (not (c.remaining == 0) && not (c.bit % 64 == 0))) [
        | inl go ↦
            rw (go, clear_front)
              (clear_front-Progress fuel (clear_one c) (unfold clear_one in omega arith)
                (clear_one-Progress c (ground arith) p))
        | inr stop ↦ rw (stop, clear_front) (p, ground arith)
      ]

  clear_words-Progress :
      (fuel : ℕ) (c : Cursor) → IsAligned c → Progress c → Progress (clear_words fuel c)
  unfolding clear_words
  clear_words-Progress zero c a p = p
  clear_words-Progress (suc fuel) c a p = elim (Bool-cases (leb 64 c.remaining)) [
    | inl go ↦
        let (p', a') = clear_word-Progress c (ground arith) (ground arith) p in
        rw (go, clear_words) (clear_words-Progress fuel (clear_word c) (inr a') p')
    | inr stop ↦ rw (stop, clear_words) p
  ]

  clear_back-Progress :
      (fuel : ℕ) (c : Cursor)
      → c.remaining ≤ fuel
      → Progress c
      → Progress (clear_back fuel c) × ((clear_back fuel c).remaining ≡ 0)
  unfolding clear_back
  clear_back-Progress zero c h p = (p, omega arith)
  clear_back-Progress (suc fuel) c h p = elim (Bool-cases (c.remaining == 0)) [
    | inl stop ↦ rw (stop, clear_back) (p, ground arith)
    | inr go ↦
        rw (go, clear_back)
          (clear_back-Progress fuel (clear_one c) (unfold clear_one in omega arith)
            (clear_one-Progress c (ground arith) p))
  ]

-- On a bitmap of full size and for less than 2^20 bits, `clear_after` zeroes the `count` bits
-- behind that of `old_max`, around the ring, and keeps the others and the number of words.
pub clear_after-IsCleared :
    (bitmap : List ℕ) (old_max count : ℕ)
    → length bitmap ≡ window_words
    → old_max + 1 < 2 ^ 64
    → count < window_bits
    → (length (clear_after bitmap old_max count) ≡ window_words)
      × IsCleared bitmap ((old_max + 1) % window_bits) count (clear_after bitmap old_max count)
unfolding clear_after
clear_after-IsCleared bitmap old_max count full max_in count_in =
    let start = (old_max + 1) % window_bits in
    let first : Cursor = record {
      bitmap = bitmap;
      bit = (old_max + 1) % 2 ^ 64 % 2 ^ 32 % window_bits;
      remaining = count;
    } in
    let p0 : Progress bitmap start count (omega arith) (omega arith) first = record {
      full = full;
      left = omega arith;
      place = omega arith;
      cells = λ i h. ground arith;
    } in
    let (p1, aligned) = clear_front-Progress bitmap start count _ _ count first (omega arith) p0 in
    let p2 =
      clear_words-Progress bitmap start count _ _ count (clear_front count first) aligned p1 in
    let (p3, finished) = clear_back-Progress bitmap start count _ _ count _ p2.left p2 in
    (p3.full, λ i h. ground (arith, p3.cells i h, finished))
