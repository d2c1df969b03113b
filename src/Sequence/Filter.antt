-- ===== src/Sequence/Filter.antt =====
-- crates/raynet-core/src/sequence.rs: `SequenceFilter`, a window for each sender. The hash map is an
-- association list; where the code iterates over it, the order is that of the list, which the code
-- leaves open.
pub mod Accepts
pub mod Drops
use raynet.Prelude.{
  ℕ, ◌+◌, ◌-◌, ◌*◌, ◌^◌, Bool, true, false, List, [], ◌∷◌, map, reverse, Option, none, some, length,
  take, min, leb, if◌then◌else◌, Result, ok, err, ◌>>=◌,
}
use raynet.Prelude.Int.{ℤ, pos, negsuc, ltb_ℤ, pos_part, neg_part}
use raynet.Prelude.Assoc.{lookup, insert, remove}
use raynet.Sequence.Time.{time_diff, max_past_ticks, max_future_ticks, ts_shift}
use raynet.Sequence.Window.{SequenceWindow, SequenceDrop, freshness, new_window}
use raynet.Sequence.Window

abbrev pub SequenceFilter : Type 0
SequenceFilter = List (ℕ × SequenceWindow)

-- The part of `check_and_insert` behind the test of freshness. On an error no map has changed.
unfoldable pub insert_packet :
    SequenceFilter → ℕ → ℕ → ℕ → Option SequenceWindow → Result SequenceDrop SequenceFilter
insert_packet f packet_time seq_id seq_no none =
    ok (insert seq_id (new_window seq_no packet_time) f)
insert_packet f packet_time seq_id seq_no (some w) = do
  w' ← Window.insert w seq_no packet_time
  ok (insert seq_id w' f)

unfoldable pub is_fresh : ℕ → ℕ → Bool
is_fresh current_time packet_time =
    let age = time_diff current_time packet_time in
    if ltb_ℤ (pos max_past_ticks) age
    then false
    else if ltb_ℤ age (negsuc (max_future_ticks - 1))
    then false
    else true

unfoldable pub check_and_insert :
    SequenceFilter → ℕ → ℕ → ℕ → ℕ → Result SequenceDrop SequenceFilter
check_and_insert f current_time packet_time seq_id seq_no =
    if is_fresh current_time packet_time
    then insert_packet f packet_time seq_id seq_no (lookup seq_id f)
    else err freshness

unfoldable pub is_expired : ℕ → SequenceWindow → Bool
is_expired current_time w = ltb_ℤ (pos max_past_ticks) (time_diff current_time w.newest_time)

-- `filter(..).map(..).collect()`
unfoldable pub collect_expired : ℕ → SequenceFilter → List (ℕ × ℕ)
collect_expired current_time [] = []
collect_expired current_time ((seq_id, w) ∷ f) =
    let rest = collect_expired current_time f in
    if is_expired current_time w then (seq_id, w.newest_time) ∷ rest else rest

-- `sort_by_key` with the age for key: a stable sort, here by insertion.
unfoldable pub insert_by_age : ℕ → ℕ × ℕ → List (ℕ × ℕ) → List (ℕ × ℕ)
insert_by_age current_time x [] = x ∷ []
insert_by_age current_time x (y ∷ ys) =
    if ltb_ℤ (time_diff current_time y.1) (time_diff current_time x.1)
    then y ∷ insert_by_age current_time x ys
    else x ∷ y ∷ ys

unfoldable pub sort_by_age : ℕ → List (ℕ × ℕ) → List (ℕ × ℕ)
sort_by_age current_time [] = []
sort_by_age current_time (x ∷ xs) = insert_by_age current_time x (sort_by_age current_time xs)

unfoldable pub remove_all : List (ℕ × ℕ) → SequenceFilter → SequenceFilter
remove_all [] f = f
remove_all ((seq_id, time) ∷ xs) f = remove_all xs (remove seq_id f)

-- The expired windows to remove, oldest first.
unfoldable pub select_expired : SequenceFilter → ℕ → ℕ → List (ℕ × ℕ)
select_expired f current_time cap =
    let expired = reverse (sort_by_age current_time (collect_expired current_time f)) in
    take (min (length expired) (length f - cap)) expired

-- The filter that is left, and the removed identifiers.
unfoldable pub remove_expired : SequenceFilter → ℕ → ℕ → SequenceFilter × List ℕ
remove_expired f current_time cap =
    if leb (length f) cap
    then (f, [])
    else let expired = select_expired f current_time cap in
      (remove_all expired f, map (λ p. p.0) expired)

-- `((MAX_PAST_TICKS + 1 - age).max(0) as u64) << TS_SHIFT`, with the age an integer.
unfoldable pub expiry_delay : ℕ → SequenceWindow → ℕ
expiry_delay current_time w =
    let age = time_diff current_time w.newest_time in
    (max_past_ticks + 1 + neg_part age - pos_part age) * 2 ^ ts_shift

unfoldable pub least_delay : ℕ → SequenceFilter → Option ℕ
least_delay current_time [] = none
least_delay current_time ((seq_id, w) ∷ f) = elim (least_delay current_time f) [
  | none ↦ some (expiry_delay current_time w)
  | some d ↦ some (min (expiry_delay current_time w) d)
]

unfoldable pub next_expiry_delay_ms : SequenceFilter → ℕ → ℕ → Option ℕ
next_expiry_delay_ms f current_time cap =
    if leb (length f) cap then none else least_delay current_time f
