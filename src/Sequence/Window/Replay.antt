-- ===== src/Sequence/Window/Replay.antt =====
-- crates/raynet-core/src/sequence.rs: `SequenceWindow::insert` against the set of the sequence
-- numbers that it has accepted.
use raynet.Prelude.{
  ℕ, zero, suc, ◌+◌, ◌-◌, ◌/◌, ◌%◌, ◌^◌, ◌≤◌, ◌<◌, ◌≡◌, refl, ap, ◌∙◌, Bool, true, false, List, [],
  ◌∷◌, map, ltb, leb, ◌==◌, if◌then◌else◌, arith, length, length-set, length-map, subst, fun_ext,
  Bool-cases, inl, inr, get_or,
}
use raynet.Prelude.Bits.{bit, bit-zero}
use raynet.Prelude.Int.{pos, ltb_ℤ}
use raynet.Sequence.Time.{time_diff}
use raynet.Sequence.Window.Bitmap.{window_bits, window_words, bit_index, set_bit, empty_bitmap}
use raynet.Sequence.Window.Cells.{
  cell, bit_index-lt, cell-set_bit, cell-empty_bitmap, length-empty_bitmap,
}
use raynet.Sequence.Window.Clearing.{clear_after-IsCleared, ring_distance}
use raynet.Sequence.Window.{SequenceWindow, new_window, move_bitmap, note_time}

-- A set of sequence numbers, and the set with one more.
abbrev pub mark : (ℕ → Bool) → ℕ → ℕ → Bool
mark seen n s = if s == n then true else seen s

-- The window stands for the set `seen`: the bits of the last 2^20 numbers tell which of them are
-- in it, and nothing above `max_seq_no` is.
pub record Tracks (w : SequenceWindow) (seen : ℕ → Bool) : Type 0 where
  pub full : length w.bitmap ≡ window_words
  pub max_in : w.max_seq_no + 1 < 2 ^ 64
  pub recent :
      (s : ℕ)
      → s ≤ w.max_seq_no
      → w.max_seq_no < s + window_bits
      → cell w.bitmap (bit_index s) ≡ (if seen s then 1 else 0)
  pub future : (s : ℕ) → w.max_seq_no < s → seen s ≡ false

pub bit_index-mod : (s : ℕ) → bit_index s ≡ s % window_bits
unfolding bit_index
bit_index-mod s = omega arith

length-set_bit : (bitmap : List ℕ) (s : ℕ) → length (set_bit bitmap s) ≡ length bitmap
unfolding set_bit
length-set_bit bitmap s = length-set bitmap _ _

cell-zeros : (bitmap : List ℕ) (i : ℕ) → cell (map (λ w. 0) bitmap) i ≡ 0
unfolding cell
cell-zeros bitmap i = ap (λ w. bit w (i % 64)) (zeros bitmap (i / 64)) ∙ bit-zero (i % 64)
  where
    zeros : (ws : List ℕ) (j : ℕ) → get_or {A = ℕ} (map (λ w. 0) ws) j 0 ≡ 0
    zeros [] j = refl
    zeros (w ∷ ws) zero = refl
    zeros (w ∷ ws) (suc j) = zeros ws j

-- The numbers that the window moves over are those ahead of the old maximum, around the ring.
moved_over :
    (old_max delta s : ℕ)
    → delta < window_bits
    → s ≤ old_max + delta
    → old_max + delta < s + window_bits
    → ltb (ring_distance (s % window_bits) ((old_max + 1) % window_bits)) delta ≡ ltb old_max s
moved_over old_max delta s h below above = ground arith

-- After the move, the bits of the numbers between the two maxima are zero, and those of the older
-- numbers that are still in the window are kept.
move_bitmap_cells :
    (bitmap : List ℕ) (old_max delta s : ℕ)
    → length bitmap ≡ window_words
    → old_max + 1 < 2 ^ 64
    → s ≤ old_max + delta
    → old_max + delta < s + window_bits
    → (length (move_bitmap bitmap old_max delta) ≡ window_words)
      × (cell (move_bitmap bitmap old_max delta) (bit_index s)
          ≡ (if ltb old_max s then 0 else cell bitmap (bit_index s)))
unfolding move_bitmap
move_bitmap_cells bitmap old_max delta s full max_in below above =
    elim (Bool-cases (leb window_bits delta)) [
      | inl far ↦
          rw far
            (length-map (λ w. 0) bitmap ∙ full, ground (arith, cell-zeros bitmap (bit_index s)))
      | inr near ↦
          let small : delta < window_bits = ground arith in
          let same : delta % 2 ^ 32 ≡ delta = omega arith in
          let (words, cells) = clear_after-IsCleared bitmap old_max delta full max_in small in
          rw (near, same)
            (
              words,
              cells (bit_index s) (bit_index-lt s)
                  ∙ rw
                      (ap (λ i. ltb (ring_distance i ((old_max + 1) % window_bits)) delta)
                        (bit_index-mod s))
                      (rw (moved_over old_max delta s small below above)),
            )
    ]

pub note_time-Tracks :
    (w : SequenceWindow) (time : ℕ) (seen : ℕ → Bool)
    → Tracks w seen
    → Tracks (note_time w time) seen
unfolding note_time
note_time-Tracks w time seen t = elim (Bool-cases (ltb_ℤ (pos 0) (time_diff time w.newest_time))) [
  | inl newer ↦
      rw newer (record { full = t.full; max_in = t.max_in; recent = t.recent; future = t.future })
  | inr older ↦ rw older t
]

pub new_window-Tracks :
    (seq_no time : ℕ)
    → seq_no + 1 < 2 ^ 64
    → Tracks (new_window seq_no time) (mark (λ s. false) seq_no)
unfolding new_window
new_window-Tracks seq_no time h = record {
  full = length-set_bit empty_bitmap seq_no ∙ length-empty_bitmap;
  max_in = h;
  recent = λ s below above. ground (
    arith,
    cell-set_bit empty_bitmap length-empty_bitmap (bit_index s) seq_no,
    cell-empty_bitmap (bit_index s),
    bit_index-mod s,
    bit_index-mod seq_no,
  );
  future = λ s above. ground arith;
}

-- `set` on a window that covers the number.
pub set_bit-Tracks :
    (w : SequenceWindow) (seq_no : ℕ) (seen : ℕ → Bool)
    → seq_no ≤ w.max_seq_no
    → w.max_seq_no < seq_no + window_bits
    → Tracks w seen
    → Tracks (record w { bitmap = set_bit w.bitmap seq_no }) (mark seen seq_no)
set_bit-Tracks w seq_no seen below above t = record {
  full = length-set_bit w.bitmap seq_no ∙ t.full;
  max_in = t.max_in;
  recent = λ s low high. ground (
    arith,
    cell-set_bit w.bitmap t.full (bit_index s) seq_no,
    t.recent s low high,
    bit_index-mod s,
    bit_index-mod seq_no,
  );
  future = λ s high. ground (arith, t.future s high);
}

-- The window moved up to `seq_no`, before its bit is set.
pub moved-Tracks :
    (w : SequenceWindow) (seq_no : ℕ) (seen : ℕ → Bool)
    → w.max_seq_no < seq_no
    → seq_no + 1 < 2 ^ 64
    → Tracks w seen
    → Tracks
        (record w {
          max_seq_no = seq_no;
          bitmap = move_bitmap w.bitmap w.max_seq_no (seq_no - w.max_seq_no);
        })
        seen
moved-Tracks w seq_no seen ahead bound t = record {
  full =
      (move_bitmap_cells w.bitmap w.max_seq_no delta seq_no t.full t.max_in (omega arith)
        (omega arith)).0;
  max_in = bound;
  recent = λ s low high. ground (
    arith,
    (move_bitmap_cells w.bitmap w.max_seq_no delta s t.full t.max_in (omega arith) (omega arith)).1,
    t.recent s,
    t.future s,
  );
  future = λ s high. t.future s (omega arith);
}
  where
    delta : ℕ
    delta = seq_no - w.max_seq_no

-- The same set, given by another function.
pub Tracks-ext :
    (w : SequenceWindow) (seen other : ℕ → Bool)
    → ((s : ℕ) → seen s ≡ other s)
    → Tracks w seen
    → Tracks w other
Tracks-ext w seen other same t = subst (Tracks w) (fun_ext same) t
