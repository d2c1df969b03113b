-- ===== src/Sequence/Filter/Accepts.antt =====
-- crates/raynet-core/src/sequence.rs: what `SequenceFilter::check_and_insert` accepts.
use raynet.Prelude.{
  Result-cases, ℕ, ◌+◌, ◌^◌, ◌<◌, ◌≡◌, refl, subst, Bool, true, false, not, ◌&&◌, Option, none,
  some, ltb, ◌==◌, if◌then◌else◌, arith, Result, ok, err, Bool-cases, inl, inr, ◌>>=◌, ◌∙◌, ==→eq,
  ok_injective,
}
use raynet.Prelude.Int.{pos, negsuc, ◌≤ℤ◌}
use raynet.Prelude.Assoc.{lookup, insert, lookup-insert}
use raynet.Sequence.Time.{time_diff}
use raynet.Sequence.Window.{SequenceWindow, SequenceDrop, freshness, new_window}
use raynet.Sequence.Window
use raynet.Sequence.Window.Bitmap.{window_bits}
use raynet.Sequence.Window.Replay.{Tracks, mark, new_window-Tracks, Tracks-ext}
use raynet.Sequence.Window.History.{is_ok, insert_decides, insert-Tracks}
use raynet.Sequence.Filter.{SequenceFilter, insert_packet, is_fresh, check_and_insert}

-- A packet is fresh exactly when it is at most 645 ticks old and at most 59 ticks ahead.
pub is_fresh_iff :
    (current_time packet_time : ℕ)
    → ((is_fresh current_time packet_time ≡ true)
        → (time_diff current_time packet_time ≤ℤ pos 645)
          × (negsuc 58 ≤ℤ time_diff current_time packet_time))
      × ((time_diff current_time packet_time ≤ℤ pos 645)
          → (negsuc 58 ≤ℤ time_diff current_time packet_time)
          → is_fresh current_time packet_time ≡ true)
unfolding is_fresh
is_fresh_iff c p = (λ h. ground arith, λ h k. ground arith)

-- The window of a sender stands for the numbers that were accepted from it; a sender with no window
-- has none.
abbrev pub TracksSender : Option SequenceWindow → (ℕ → Bool) → Type 0
TracksSender none seen = (s : ℕ) → seen s ≡ false
TracksSender (some w) seen = Tracks w seen

abbrev pub TracksAll : SequenceFilter → (ℕ → ℕ → Bool) → Type 0
TracksAll f seen = (seq_id : ℕ) → TracksSender (lookup seq_id f) (seen seq_id)

abbrev pub mark_packet : (ℕ → ℕ → Bool) → ℕ → ℕ → ℕ → ℕ → Bool
mark_packet seen seq_id seq_no i = if seq_id == i then mark (seen i) seq_no else seen i

-- Whether a number is too old for the window of its sender, if there is one.
abbrev pub in_window : Option SequenceWindow → ℕ → Bool
in_window none seq_no = true
in_window (some w) seq_no = ltb w.max_seq_no (seq_no + window_bits)

is_ok->>= {ℓ κ} :
    {E : Type 0} {A : Type ℓ} {B : Type κ} (m : Result E A) (g : A → B)
    → is_ok (m >>= λ a. ok (g a)) ≡ is_ok m
is_ok->>= (ok a) g = refl
is_ok->>= (err e) g = refl

-- Where the windows of a filter stand for the numbers of their senders, a packet passes exactly
-- when it is fresh, its number is not among those of its sender, and is not too old for the
-- sender's window.
pub check_and_insert_decides :
    (f : SequenceFilter) (seen : ℕ → ℕ → Bool) (current_time packet_time seq_id seq_no : ℕ)
    → TracksAll f seen
    → is_ok (check_and_insert f current_time packet_time seq_id seq_no) ≡ (
        is_fresh current_time packet_time
        && (in_window (lookup seq_id f) seq_no && not (seen seq_id seq_no)))
unfolding check_and_insert
check_and_insert_decides f seen c p i n t = elim (Bool-cases (is_fresh c p)) [
  | inl fresh ↦ rw fresh (decides (lookup i f) (t i))
  | inr stale ↦ rw stale
]
  where
    decides :
        (o : Option SequenceWindow)
        → TracksSender o (seen i)
        → is_ok (insert_packet f p i n o) ≡ (in_window o n && not (seen i n))
    decides none h = unfold insert_packet in rw (h n)
    decides (some w) h =
        unfold insert_packet in is_ok->>= (Window.insert w n p) _ ∙ insert_decides w (seen i) n p h

insert_window-TracksAll :
    (f : SequenceFilter) (seen : ℕ → ℕ → Bool) (seq_id seq_no : ℕ) (w : SequenceWindow)
    → TracksAll f seen
    → Tracks w (mark (seen seq_id) seq_no)
    → TracksAll (insert seq_id w f) (mark_packet seen seq_id seq_no)
insert_window-TracksAll f seen i n w t h j = elim (Bool-cases (i == j)) [
  | inl same ↦
      rw (lookup-insert i j w f, same) (subst (λ k. Tracks w (mark (seen k) n)) (==→eq i j same) h)
  | inr other ↦ rw (lookup-insert i j w f, other) (t j)
]

insert_packet-TracksAll :
    (f f' : SequenceFilter) (seen : ℕ → ℕ → Bool) (packet_time seq_id seq_no : ℕ)
    (o : Option SequenceWindow)
    → seq_no + 1 < 2 ^ 64
    → TracksAll f seen
    → TracksSender o (seen seq_id)
    → insert_packet f packet_time seq_id seq_no o ≡ ok f'
    → TracksAll f' (mark_packet seen seq_id seq_no)
unfolding insert_packet
insert_packet-TracksAll f f' seen p i n none b t h e =
    subst (λ x. TracksAll x (mark_packet seen i n)) (ok_injective _ _ e)
      (insert_window-TracksAll f seen i n (new_window n p) t
        (Tracks-ext _ _ _ (λ s. ground (arith, h s)) (new_window-Tracks n p b)))
insert_packet-TracksAll f f' seen p i n (some w) b t h e =
    elim (Result-cases (Window.insert w n p)) [
      | inl (w', d) ↦
          subst (λ x. TracksAll x (mark_packet seen i n)) (ok_injective _ _ (rw d at e))
            (insert_window-TracksAll f seen i n w' t (insert-Tracks w w' (seen i) n p b h d))
      | inr (d, q) ↦ cc (rw q at e)
    ]

-- Where the windows of a filter stand for the numbers of their senders and a packet with a number
-- below 2^64 - 1 is accepted, its number joins those of its sender, and no other sender's numbers
-- change.
pub check_and_insert-TracksAll :
    (f f' : SequenceFilter) (seen : ℕ → ℕ → Bool) (current_time packet_time seq_id seq_no : ℕ)
    → seq_no + 1 < 2 ^ 64
    → TracksAll f seen
    → check_and_insert f current_time packet_time seq_id seq_no ≡ ok f'
    → TracksAll f' (mark_packet seen seq_id seq_no)
unfolding check_and_insert
check_and_insert-TracksAll f f' seen c p i n b t e = elim (Bool-cases (is_fresh c p)) [
  | inl fresh ↦ insert_packet-TracksAll f f' seen p i n (lookup i f) b t (t i) (rw fresh at e)
  | inr stale ↦ cc (rw stale at e)
]
