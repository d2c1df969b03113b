-- ===== src/Sequence/Filter/Drops.antt =====
-- crates/raynet-core/src/sequence.rs: the errors of `SequenceFilter::check_and_insert`.
use raynet.Prelude.{
  ℕ, ◌-◌, ◌≡◌, refl, sym, ap, ◌∙◌, Bool, true, false, Option, none, some, drop, leb, err,
  Bool-cases, Result-cases, inl, inr, not, ◌&&◌,
}
use raynet.Prelude.Assoc.{lookup}
use raynet.Sequence.Filter.{SequenceFilter, insert_packet, is_fresh, check_and_insert}
use raynet.Sequence.Filter.Accepts.{TracksAll, in_window, check_and_insert_decides}
use raynet.Sequence.Window.{SequenceWindow, SequenceDrop, freshness, replay}
use raynet.Sequence.Window
use raynet.Sequence.Window.Bitmap.{window_bits, is_set}

insert-replay :
    (w : SequenceWindow) (seq_no time : ℕ) (drop : SequenceDrop)
    → Window.insert w seq_no time ≡ err drop
    → drop ≡ replay
unfolding Window.insert
insert-replay w n p d e = elim (Bool-cases (leb n w.max_seq_no)) [
  | inl low ↦ elim (Bool-cases (leb window_bits (w.max_seq_no - n))) [
    | inl old ↦ cc (rw (low, old) at e)
    | inr recent ↦ elim (Bool-cases (is_set w.bitmap n)) [
      | inl again ↦ cc (rw (low, recent, again) at e)
      | inr fresh ↦ absurd (cc (rw (low, recent, fresh) at e))
    ]
  ]
  | inr ahead ↦ absurd (cc (rw ahead at e))
]

insert_packet-replay :
    (f : SequenceFilter) (packet_time seq_id seq_no : ℕ) (o : Option SequenceWindow)
    (drop : SequenceDrop)
    → insert_packet f packet_time seq_id seq_no o ≡ err drop
    → drop ≡ replay
unfolding insert_packet
insert_packet-replay f p i n none d e = cc e
insert_packet-replay f p i n (some w) d e = elim (Result-cases (Window.insert w n p)) [
  | inl (w', accepted) ↦ cc (rw accepted at e)
  | inr (drop, refused) ↦
      let same : drop ≡ d = cc (rw refused at e) in sym same ∙ insert-replay w n p drop refused
]

pub check_and_insert-replay :
    (f : SequenceFilter) (seen : ℕ → ℕ → Bool) (current_time packet_time seq_id seq_no : ℕ)
    → TracksAll f seen
    → is_fresh current_time packet_time ≡ true
    → (in_window (lookup seq_id f) seq_no && not (seen seq_id seq_no)) ≡ false
    → check_and_insert f current_time packet_time seq_id seq_no ≡ err replay
check_and_insert-replay f seen c p i n t fresh bad =
    elim (Result-cases (check_and_insert f c p i n)) [
      | inl (f', accepted) ↦
          absurd (cc (rw (accepted, fresh, bad) at (check_and_insert_decides f seen c p i n t)))
      | inr (drop, refused) ↦
          refused
          ∙ ap err (
              insert_packet-replay f p i n (lookup i f) drop
                (unfold check_and_insert in (rw fresh at refused)))
    ]

pub check_and_insert-freshness :
    (f : SequenceFilter) (current_time packet_time seq_id seq_no : ℕ)
    → is_fresh current_time packet_time ≡ false
    → check_and_insert f current_time packet_time seq_id seq_no ≡ err freshness
unfolding check_and_insert
check_and_insert-freshness f c p i n late = rw late refl
