-- ===== src/Sequence/Window.antt =====
-- crates/raynet-core/src/sequence.rs: `SequenceWindow`, a bitmap of the last 2^20 sequence numbers
-- of one sender.
pub mod Bitmap
pub mod Cells
pub mod Clearing
pub mod Replay
pub mod History
use raynet.Prelude.{
  ℕ, ◌+◌, ◌-◌, ◌%◌, ◌^◌, Bool, List, map, ltb, leb, ◌==◌, if◌then◌else◌, Result, ok, err,
}
use raynet.Prelude.Int.{pos, ltb_ℤ}
use raynet.Sequence.Time.{time_diff}
use Bitmap.{window_bits, empty_bitmap, is_set, set_bit, clear_after}

pub data SequenceDrop : Type 0 where
  freshness replay : SequenceDrop

pub record SequenceWindow : Type 0 where
  pub max_seq_no : ℕ
  pub newest_time : ℕ
  pub bitmap : List ℕ

-- `SequenceWindow::new`
unfoldable pub new_window : ℕ → ℕ → SequenceWindow
new_window seq_no time = record {
  max_seq_no = seq_no;
  newest_time = time;
  bitmap = set_bit empty_bitmap seq_no;
}

-- `self.bitmap.fill(0)`, or `clear_after` when the step is shorter than the window.
unfoldable pub move_bitmap : List ℕ → ℕ → ℕ → List ℕ
move_bitmap bitmap old_max delta =
    if leb window_bits delta
    then map (λ w. 0) bitmap
    else clear_after bitmap old_max (delta % 2 ^ 32)

unfoldable pub note_time : SequenceWindow → ℕ → SequenceWindow
note_time w time =
    if ltb_ℤ (pos 0) (time_diff time w.newest_time) then record w { newest_time = time } else w

-- `SequenceWindow::insert`. A branch that fails has written nothing, so the window stays as it was.
unfoldable pub insert : SequenceWindow → ℕ → ℕ → Result SequenceDrop SequenceWindow
insert w seq_no time =
    if leb seq_no w.max_seq_no
    then if leb window_bits (w.max_seq_no - seq_no)
      then err replay
      else if is_set w.bitmap seq_no
      then err replay
      else ok (note_time (record w { bitmap = set_bit w.bitmap seq_no }) time)
    else let moved = move_bitmap w.bitmap w.max_seq_no (seq_no - w.max_seq_no) in
      ok (note_time (record w { max_seq_no = seq_no; bitmap = set_bit moved seq_no }) time)
