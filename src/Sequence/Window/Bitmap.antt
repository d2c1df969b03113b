-- ===== src/Sequence/Window/Bitmap.antt =====
-- crates/raynet-core/src/sequence.rs: the words of the bitmap, and `SequenceWindow::clear_bit`,
-- `is_set`, `set` and `clear_after` on them.
use raynet.Prelude.{
  ℕ, zero, suc, ◌+◌, ◌-◌, ◌/◌, ◌%◌, ◌^◌, Bool, true, false, not, ◌&&◌, List, bit_and, bit_or, leb,
  ◌==◌, get_or, set, replicate,
}
use raynet.Prelude.Bits.{complement}

-- WINDOW_BITS and WINDOW_WORDS.
abbrev pub window_bits : ℕ
window_bits = 2 ^ 20

abbrev pub window_words : ℕ
window_words = window_bits / 64

unfoldable pub empty_bitmap : List ℕ
empty_bitmap = replicate window_words 0

-- `seq_no as u32 & (WINDOW_BITS - 1)`
unfoldable pub bit_index : ℕ → ℕ
bit_index seq_no = seq_no % 2 ^ 32 % window_bits

unfoldable pub clear_bit : List ℕ → ℕ → List ℕ
clear_bit bitmap bit =
    set bitmap (bit / 64) (bit_and (get_or bitmap (bit / 64) 0) (complement 64 (2 ^ (bit % 64))))

unfoldable pub is_set : List ℕ → ℕ → Bool
is_set bitmap seq_no =
    let bit = bit_index seq_no in not (bit_and (get_or bitmap (bit / 64) 0) (2 ^ (bit % 64)) == 0)

unfoldable pub set_bit : List ℕ → ℕ → List ℕ
set_bit bitmap seq_no =
    let bit = bit_index seq_no in
    set bitmap (bit / 64) (bit_or (get_or bitmap (bit / 64) 0) (2 ^ (bit % 64)))

-- The local variables of `clear_after`.
pub record Cursor : Type 0 where
  pub bitmap : List ℕ
  pub bit : ℕ
  pub remaining : ℕ

unfoldable pub clear_one : Cursor → Cursor
clear_one c = record {
  bitmap = clear_bit c.bitmap c.bit;
  bit = (c.bit + 1) % window_bits;
  remaining = c.remaining - 1;
}

unfoldable pub clear_word : Cursor → Cursor
clear_word c = record {
  bitmap = set c.bitmap (c.bit / 64) 0;
  bit = (c.bit + 64) % window_bits;
  remaining = c.remaining - 64;
}

-- The three loops; each round lowers `remaining`, which is the fuel.
unfoldable pub clear_front : ℕ → Cursor → Cursor
clear_front zero c = c
clear_front (suc fuel) c = elim (not (c.remaining == 0) && not (c.bit % 64 == 0)) [
  | true ↦ clear_front fuel (clear_one c)
  | false ↦ c
]

unfoldable pub clear_words : ℕ → Cursor → Cursor
clear_words zero c = c
clear_words (suc fuel) c = elim (leb 64 c.remaining) [
  | true ↦ clear_words fuel (clear_word c)
  | false ↦ c
]

unfoldable pub clear_back : ℕ → Cursor → Cursor
clear_back zero c = c
clear_back (suc fuel) c = elim (c.remaining == 0) [
  | true ↦ c
  | false ↦ clear_back fuel (clear_one c)
]

unfoldable pub clear_after : List ℕ → ℕ → ℕ → List ℕ
clear_after bitmap old_max count =
    let start : Cursor = record {
      bitmap = bitmap;
      bit = (old_max + 1) % 2 ^ 64 % 2 ^ 32 % window_bits;
      remaining = count;
    } in
    (clear_back count (clear_words count (clear_front count start))).bitmap
