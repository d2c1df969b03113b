-- ===== src/Sequence/Window/History.antt =====
-- crates/raynet-core/src/sequence.rs: `SequenceWindow::insert` over a history of packets.
use raynet.Prelude.{
  ℕ, ◌+◌, ◌-◌, ◌^◌, ◌≤◌, ◌<◌, ◌≡◌, ◌≢◌, ap, sym, Bool, true, false, not, ◌&&◌, List, [], ◌∷◌, ltb,
  leb, arith, Result, ok, err, Result-cases, All, All-map, Bool-cases, inl, inr, eq→==, subst,
}
use raynet.Sequence.Window.Bitmap.{window_bits, is_set, set_bit}
use raynet.Sequence.Window.Cells.{is_set-cell}
use raynet.Sequence.Window.Replay.{
  Tracks, mark, note_time-Tracks, new_window-Tracks, set_bit-Tracks, moved-Tracks,
}
use raynet.Sequence.Window.{SequenceWindow, new_window, move_bitmap, note_time, insert}

abbrev pub is_ok {ℓ} : {E : Type 0} {A : Type ℓ} → Result E A → Bool
is_ok (ok a) = true
is_ok (err e) = false

is_set-seen :
    (w : SequenceWindow) (seen : ℕ → Bool) (s : ℕ)
    → Tracks w seen
    → s ≤ w.max_seq_no
    → w.max_seq_no < s + window_bits
    → is_set w.bitmap s ≡ seen s
is_set-seen w seen s t low high = ground (arith, is_set-cell w.bitmap s, t.recent s low high)

-- Where a window stands for a set of numbers, `insert` accepts a number exactly when it is not too
-- old for the window and not in the set.
pub insert_decides :
    (w : SequenceWindow) (seen : ℕ → Bool) (seq_no time : ℕ)
    → Tracks w seen
    → is_ok (insert w seq_no time) ≡ (ltb w.max_seq_no (seq_no + window_bits) && not (seen seq_no))
unfolding insert
insert_decides w seen seq_no time t = ground (arith, is_set-seen w seen seq_no t, t.future seq_no)

-- Where a window stands for a set of numbers and accepts a number below 2^64 - 1, what it becomes
-- stands for the set with that number.
pub insert-Tracks :
    (w w' : SequenceWindow) (seen : ℕ → Bool) (seq_no time : ℕ)
    → seq_no + 1 < 2 ^ 64
    → Tracks w seen
    → insert w seq_no time ≡ ok w'
    → Tracks w' (mark seen seq_no)
unfolding insert
insert-Tracks w w' seen seq_no time bound t e = elim (Bool-cases (leb seq_no w.max_seq_no)) [
  | inl low ↦ elim (Bool-cases (leb window_bits (w.max_seq_no - seq_no))) [
    | inl old ↦ cc (rw (low, old) at e)
    | inr recent ↦ elim (Bool-cases (is_set w.bitmap seq_no)) [
      | inl again ↦ cc (rw (low, recent, again) at e)
      | inr fresh ↦
          let same : note_time (record w { bitmap = set_bit w.bitmap seq_no }) time ≡ w' =
            cc (rw (low, recent, fresh) at e) in
          subst (λ x. Tracks x (mark seen seq_no)) same
            (note_time-Tracks _ time _
              (set_bit-Tracks w seq_no seen (ground arith) (ground arith) t))
    ]
  ]
  | inr ahead ↦
      let moved = move_bitmap w.bitmap w.max_seq_no (seq_no - w.max_seq_no) in
      let same : note_time (record w { max_seq_no = seq_no; bitmap = set_bit moved seq_no }) time
          ≡ w' =
        cc (rw ahead at e) in
      subst (λ x. Tracks x (mark seen seq_no)) same
        (note_time-Tracks _ time _ (
          set_bit-Tracks (record w { max_seq_no = seq_no; bitmap = moved }) seq_no seen
            (omega arith) (omega arith) (moved-Tracks w seq_no seen (ground arith) bound t)))
]

-- The numbers that a window accepts out of a history of packets, each with its tick.
unfoldable pub accepted : SequenceWindow → List (ℕ × ℕ) → List ℕ
accepted w [] = []
accepted w ((seq_no, time) ∷ packets) = elim (insert w seq_no time) [
  | ok w' ↦ seq_no ∷ accepted w' packets
  | err e ↦ accepted w packets
]

abbrev pub Distinct : List ℕ → Type 0
Distinct [] = Unit {0}
Distinct (x ∷ xs) = All (λ y. x ≢ y) xs × Distinct xs

abbrev pub IsSeqNo : ℕ × ℕ → Type 0
IsSeqNo p = p.0 + 1 < 2 ^ 64

mark-ne : (seen : ℕ → Bool) (n s : ℕ) → mark seen n s ≡ false → n ≢ s
mark-ne seen n s p e = cc (rw (eq→== s n (sym e)) at p)

accepted_fresh :
    (w : SequenceWindow) (seen : ℕ → Bool) (packets : List (ℕ × ℕ))
    → All IsSeqNo packets
    → Tracks w seen
    → All (λ s. seen s ≡ false) (accepted w packets) × Distinct (accepted w packets)
unfolding accepted
accepted_fresh w seen [] h t = (tt, tt)
accepted_fresh w seen ((seq_no, time) ∷ packets) (b, h) t =
    elim (Result-cases (insert w seq_no time)) [
      | inl (w', e) ↦
          let (fresh, distinct) =
            accepted_fresh w' (mark seen seq_no) packets h
              (insert-Tracks w w' seen seq_no time b t e) in
          rw (e, accepted)
            (
              (
                ground (arith, insert_decides w seen seq_no time t, ap is_ok e),
                All-map (λ s p. ground arith) (accepted w' packets) fresh,
              ),
              (All-map (λ s p. mark-ne seen seq_no s p) (accepted w' packets) fresh, distinct),
            )
      | inr (d, e) ↦ rw (e, accepted) (accepted_fresh w seen packets h t)
    ]

-- However its packets are ordered and repeated, with numbers below 2^64 - 1, a sender's window
-- accepts no number twice, and none equal to that of the packet that opened the window.
pub accepted-Distinct :
    (seq_no time : ℕ) (packets : List (ℕ × ℕ))
    → seq_no + 1 < 2 ^ 64
    → All IsSeqNo packets
    → Distinct (seq_no ∷ accepted (new_window seq_no time) packets)
accepted-Distinct seq_no time packets b h =
    let (fresh, distinct) =
      accepted_fresh (new_window seq_no time) (mark (λ s. false) seq_no) packets h
        (new_window-Tracks seq_no time b) in
    (
      All-map (λ s p. mark-ne (λ s. false) seq_no s p) (accepted (new_window seq_no time) packets)
          fresh,
      distinct,
    )
