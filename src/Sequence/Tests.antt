-- ===== src/Sequence/Tests.antt =====
-- crates/raynet-core/src/sequence.rs at concrete packets.
use raynet.Prelude.{
  ◌+◌, ◌-◌, ◌%◌, ◌^◌, ◌≡◌, refl, false, not, ◌&&◌, [], ◌∷◌, length, ltb, ok, arith,
}
use raynet.Prelude.Int.{pos, negsuc, pos_part, neg_part, ◌≤ℤ◌}
use raynet.Prelude.Assoc.{lookup, insert}
use raynet.Sequence.Time.{time_diff, time_diff_modular, time_diff_forward, time_diff_backward}
use raynet.Sequence.Window.{SequenceWindow, new_window}
use raynet.Sequence.Window
use raynet.Sequence.Window.Bitmap.{window_bits, window_words, empty_bitmap, clear_after, set_bit}
use raynet.Sequence.Window.Cells.{length-empty_bitmap}
use raynet.Sequence.Window.Clearing.{IsCleared, clear_after-IsCleared}
use raynet.Sequence.Window.Replay.{Tracks, mark, new_window-Tracks}
use raynet.Sequence.Window.History.{is_ok, insert_decides, accepted, Distinct, accepted-Distinct}
use raynet.Sequence.Filter.{SequenceFilter, insert_packet, is_fresh, check_and_insert}
use raynet.Sequence.Filter.Accepts.{
  TracksAll, mark_packet, in_window, check_and_insert_decides, check_and_insert-TracksAll,
}

time_diff_modular_example :
    (negsuc (2 ^ 25 - 1) ≤ℤ time_diff 3 67108860)
    × (time_diff 3 67108860 ≤ℤ pos (2 ^ 25 - 1))
    × ((67108860 + pos_part (time_diff 3 67108860) + 2 ^ 26 - neg_part (time_diff 3 67108860))
          % 2 ^ 26
        ≡ 3 % 2 ^ 26)
time_diff_modular_example = time_diff_modular 3 67108860 (omega arith) (omega arith)

time_diff_forward_example : time_diff ((67108860 + 7) % 2 ^ 26) 67108860 ≡ pos 7
time_diff_forward_example = time_diff_forward 67108860 7 (omega arith) (omega arith)

time_diff_backward_example : time_diff 67108860 ((67108860 + 7) % 2 ^ 26) ≡ negsuc (7 - 1)
time_diff_backward_example = time_diff_backward 67108860 7 (omega arith) (omega arith) (omega arith)

clear_after_example :
    (length (clear_after empty_bitmap 3 70) ≡ window_words)
    × IsCleared empty_bitmap ((3 + 1) % window_bits) 70 (clear_after empty_bitmap 3 70)
clear_after_example =
    clear_after-IsCleared empty_bitmap 3 70 length-empty_bitmap (omega arith) (omega arith)

-- The window of a sender that started with the number 5.
opened : Tracks (new_window 5 9) (mark (λ s. false) 5)
opened = new_window-Tracks 5 9 (omega arith)

insert_decides_example :
    is_ok (Window.insert (new_window 5 9) 5 10)
    ≡ (ltb (new_window 5 9).max_seq_no (5 + window_bits) && not (mark (λ s. false) 5 5))
insert_decides_example = insert_decides (new_window 5 9) (mark (λ s. false) 5) 5 10 opened

abbrev moved : SequenceWindow
moved = record {
  max_seq_no = 6;
  newest_time = 9;
  bitmap = set_bit (clear_after (set_bit empty_bitmap 5) 5 1) 6;
}

insert-moved : Window.insert (new_window 5 9) 6 9 ≡ ok moved
unfolding Window.insert new_window Window.note_time Window.move_bitmap time_diff
insert-moved = refl

accepted_example : Distinct (5 ∷ accepted (new_window 5 0) ((5, 0) ∷ (7, 1) ∷ (6, 1) ∷ (7, 2) ∷ []))
accepted_example =
    accepted-Distinct 5 0 ((5, 0) ∷ (7, 1) ∷ (6, 1) ∷ (7, 2) ∷ []) (omega arith) (omega arith)

-- A filter that has seen the number 5 of the sender 1.
abbrev one_sender : SequenceFilter
one_sender = (1, new_window 5 9) ∷ []

nothing_seen : TracksAll [] (λ i s. false)
unfolding lookup
nothing_seen i s = refl

first_packet : check_and_insert [] 10 9 1 5 ≡ ok one_sender
unfolding check_and_insert is_fresh time_diff insert_packet lookup insert
first_packet = refl

one_sender-TracksAll : TracksAll one_sender (mark_packet (λ i s. false) 1 5)
one_sender-TracksAll =
    check_and_insert-TracksAll [] one_sender (λ i s. false) 10 9 1 5 (omega arith) nothing_seen
      first_packet

check_and_insert-TracksAll_example : TracksAll one_sender (mark_packet (λ i s. false) 1 5)
check_and_insert-TracksAll_example =
    check_and_insert-TracksAll [] one_sender (λ i s. false) 10 9 1 5 (omega arith) nothing_seen
      first_packet

check_and_insert_decides_example : is_ok (check_and_insert one_sender 10 9 1 5) ≡ (
    is_fresh 10 9
    && (in_window (lookup 1 one_sender) 5 && not (mark_packet (λ i s. false) 1 5 1 5)))
check_and_insert_decides_example =
    check_and_insert_decides one_sender (mark_packet (λ i s. false) 1 5) 10 9 1 5
      one_sender-TracksAll
