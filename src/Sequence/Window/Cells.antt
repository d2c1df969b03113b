-- ===== src/Sequence/Window/Cells.antt =====
-- The bitmap of crates/raynet-core/src/sequence.rs as an array of 2^20 bits: what each write does
-- to each bit.
use raynet.Prelude.{
  ℕ, ◌-◌, ◌*◌, ◌/◌, ◌%◌, ◌^◌, ◌<◌, ◌≡◌, ap, ◌∙◌, sym, List, bit_and, bit_or, ◌==◌, if◌then◌else◌,
  get_or, set, arith, min, length, get_or-set_self, get_or-set_ne, get_or-replicate,
  length-replicate, inl, inr, eq→==, ◌⊎◌,
}
use raynet.Prelude.Bits.{
  bit, complement, bit-lt, bit-bit_or, bit-bit_and, bit-pow_self, bit-pow_ne, bit-complement,
  bit_and-pow, bit-zero,
}
use native.Mathlib.Nat.{one-le-pow, pow-le-pow_right}
use native.Mathlib.Decide.{ℕ_discrete}
use raynet.Sequence.Window.Bitmap.{
  window_bits, window_words, empty_bitmap, bit_index, clear_bit, is_set, set_bit,
}

-- Bit `i` of the array.
unfoldable pub cell : List ℕ → ℕ → ℕ
cell bitmap i = bit (get_or bitmap (i / 64) 0) (i % 64)

pub cell-lt : (bitmap : List ℕ) (i : ℕ) → cell bitmap i < 2
unfolding cell
cell-lt bitmap i = bit-lt (get_or bitmap (i / 64) 0) (i % 64)

pub bit_index-lt : (seq_no : ℕ) → bit_index seq_no < window_bits
unfolding bit_index
bit_index-lt seq_no = omega arith

pub cell-empty_bitmap : (i : ℕ) → cell empty_bitmap i ≡ 0
unfolding cell empty_bitmap
cell-empty_bitmap i =
    ap (λ w. bit w (i % 64)) (get_or-replicate window_words (i / 64) 0) ∙ bit-zero (i % 64)

pub length-empty_bitmap : length empty_bitmap ≡ window_words
unfolding empty_bitmap
length-empty_bitmap = length-replicate {A = ℕ} window_words 0

-- One bit of one word.
bit-cleared :
    (w j k : ℕ)
    → j < 64
    → k < 64
    → bit (bit_and w (complement 64 (2 ^ k))) j ≡ (if j == k then 0 else bit w j)
bit-cleared w j k hj hk = elim (ℕ_discrete j k) [
  | yes e ↦ ground (arith, masked, ap (bit (2 ^ k)) e, bit-pow_self k)
  | no e ↦ ground (arith, masked, bit-pow_ne k j (λ p. e (sym p)), bit-lt w j)
]
  where
    fits : 2 ^ k < 2 ^ 64
    fits = omega (arith, pow-le-pow_right {n = 2} (omega arith) {i = k} {j = 63} (omega arith))

    masked : bit (bit_and w (complement 64 (2 ^ k))) j ≡ min (bit w j) (1 - bit (2 ^ k) j)
    masked =
        bit-bit_and j w (complement 64 (2 ^ k))
        ∙ ap (min (bit w j)) (bit-complement 64 j (2 ^ k) hj fits)

bit-raised : (w j k : ℕ) → bit (bit_or w (2 ^ k)) j ≡ (if j == k then 1 else bit w j)
bit-raised w j k = elim (ℕ_discrete j k) [
  | yes e ↦ ground (arith, bit-bit_or j w (2 ^ k), ap (bit (2 ^ k)) e, bit-pow_self k, bit-lt w j)
  | no e ↦ ground (arith, bit-bit_or j w (2 ^ k), bit-pow_ne k j (λ p. e (sym p)), bit-lt w j)
]

module _ (bitmap : List ℕ) (full : length bitmap ≡ window_words) where
  -- A write of one word, seen through every bit.
  cell-set :
      (i k w : ℕ)
      → k < window_bits
      → cell (set bitmap (k / 64) w) i
        ≡ (if i / 64 == k / 64 then bit w (i % 64) else cell bitmap i)
  unfolding cell
  cell-set i k w hk = elim (ℕ_discrete (i / 64) (k / 64)) [
    | yes e ↦ rw (eq→== _ _ e) (
        ap (λ x. bit x (i % 64))
          (ap (λ j. get_or (set bitmap (k / 64) w) j 0) e
            ∙ get_or-set_self bitmap (k / 64) w 0 (omega arith)))
    | no e ↦ ground (
      arith,
      ap (λ x. bit x (i % 64)) (get_or-set_ne bitmap (k / 64) (i / 64) w 0 (λ p. e (sym p))),
    )
  ]

  same_word : (i k : ℕ) → i / 64 ≡ k / 64 → bit (get_or bitmap (k / 64) 0) (i % 64) ≡ cell bitmap i
  unfolding cell
  same_word i k e = ap (λ j. bit (get_or bitmap j 0) (i % 64)) (sym e)

  pub cell-clear_bit :
      (i k : ℕ)
      → k < window_bits
      → cell (clear_bit bitmap k) i ≡ (if i == k then 0 else cell bitmap i)
  unfolding clear_bit
  cell-clear_bit i k hk = ground (
    arith,
    cell-set i k (bit_and (get_or bitmap (k / 64) 0) (complement 64 (2 ^ (k % 64)))) hk,
    bit-cleared (get_or bitmap (k / 64) 0) (i % 64) (k % 64) (omega arith) (omega arith),
    same_word i k,
  )

  pub cell-set_bit :
      (i seq_no : ℕ)
      → cell (set_bit bitmap seq_no) i ≡ (if i == bit_index seq_no then 1 else cell bitmap i)
  unfolding set_bit
  cell-set_bit i seq_no =
      let k = bit_index seq_no in
      ground (
        arith,
        cell-set i k (bit_or (get_or bitmap (k / 64) 0) (2 ^ (k % 64))) (bit_index-lt seq_no),
        bit-raised (get_or bitmap (k / 64) 0) (i % 64) (k % 64),
        same_word i k,
      )

  pub cell-clear_word :
      (i k : ℕ)
      → k < window_bits
      → cell (set bitmap (k / 64) 0) i ≡ (if i / 64 == k / 64 then 0 else cell bitmap i)
  cell-clear_word i k hk = ground (arith, cell-set i k 0 hk, bit-zero (i % 64))

-- `is_set` reads the bit of the sequence number.
pub is_set-cell :
    (bitmap : List ℕ) (seq_no : ℕ) → is_set bitmap seq_no ≡ (cell bitmap (bit_index seq_no) == 1)
unfolding is_set cell
is_set-cell bitmap seq_no =
    let k = bit_index seq_no in
    let word = get_or bitmap (k / 64) 0 in
    let found : (bit word (k % 64) ≡ 0) ⊎ (bit word (k % 64) ≡ 1) =
      omega (arith, bit-lt word (k % 64)) in
    elim found [
      | inl e ↦ ground (arith, bit_and-pow word (k % 64), ap (λ b. b * 2 ^ (k % 64)) e)
      | inr e ↦ ground (
        arith,
        bit_and-pow word (k % 64),
        ap (λ b. b * 2 ^ (k % 64)) e,
        one-le-pow (k % 64) 2 (omega arith),
      )
    ]
