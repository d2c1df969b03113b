-- ===== src/Endpoint/Draining.antt =====
-- crates/raynet-core/src/endpoint.rs: the loop of `recv_messages` ends by itself.
use raynet.Prelude.{
  ℕ, zero, suc, ◌+◌, ◌≤◌, ◌<◌, ◌≡◌, refl, ap, ◌∙◌, false, ◌&&◌, List, [], ◌∷◌, ◌++◌, length, ltb,
  ◌==◌, if◌then◌else◌, Bool-cases, Result-cases, inl, inr, Result, ok, err, Outcome, returns,
  panics, arith, length-append, add32, Outcome-cases,
}
use raynet.Prelude.Outcomes.{◌>>=◌, >>=-returns}
use raynet.Endpoint.Session.{
  must, no_message, message, take_sized, take_message, recv_loop, recv_fuel, recv_messages,
}
use raynet.Kcp.Receive.{move_segments, move_buf, peeksize, merge_fragments, after_merge, recv}
use raynet.Kcp.Receive.Messages.{recv_total}
use raynet.Kcp.Types.{
  Kcp, KcpSegment, KcpError, recv_queue_empty, expecting_fragment, user_buf_too_small,
}
use raynet.Wire.Layout.{SessionMessage}
use raynet.Wire.SessionMessages.{decode}

-- The segments that have arrived and are not taken yet.
abbrev pub held : Kcp → ℕ
held k = length k.rcv_queue + length k.rcv_buf

move_segments-length :
    (wnd : ℕ) (buf : List KcpSegment) (nxt : ℕ) (queue : List KcpSegment)
    → length (move_segments wnd buf nxt queue).rcv_queue
        + length (move_segments wnd buf nxt queue).rcv_buf
      ≡ length queue + length buf
unfolding move_segments
move_segments-length wnd [] nxt queue = refl
move_segments-length wnd (seg ∷ buf) nxt queue =
    elim (Bool-cases (seg.sn == nxt && ltb (length queue) wnd)) [
      | inl moves ↦ rw moves (
          omega (
            arith,
            move_segments-length wnd buf (add32 nxt 1) (queue ++ (seg ∷ [])),
            length-append queue (seg ∷ []),
          ))
      | inr stays ↦ rw stays
    ]

merge_fragments-shorter :
    (seg : KcpSegment) (queue : List KcpSegment)
    → length (merge_fragments (seg ∷ queue)).1 ≤ length queue
unfolding merge_fragments
merge_fragments-shorter seg [] = ground arith
merge_fragments-shorter seg (next ∷ queue) = elim (Bool-cases (seg.frg == 0)) [
  | inl last ↦ rw last (omega arith)
  | inr more ↦ rw more (omega (arith, merge_fragments-shorter next queue))
]

after_merge-held :
    (k : Kcp) (left : List KcpSegment) → held (after_merge k left) ≡ length left + length k.rcv_buf
unfolding after_merge move_buf
after_merge-held k left = ground (arith, move_segments-length k.rcv_wnd k.rcv_buf k.rcv_nxt left)

queue_shrinks :
    (queue : List KcpSegment) (n : ℕ)
    → peeksize queue ≡ ok n
    → length (merge_fragments queue).1 < length queue
unfolding peeksize
queue_shrinks [] n e = absurd (cc e)
queue_shrinks (seg ∷ queue) n e = omega (arith, merge_fragments-shorter seg queue)

whole_result :
    (k : Kcp) (n : ℕ)
    → peeksize k.rcv_queue ≡ ok n
    → ◌≡◌ {A = Outcome (Kcp × Result KcpError (List ℕ))}
        (returns (elim (peeksize k.rcv_queue) [
          | err e ↦ (k, err e)
          | ok m ↦ if ltb n m then (k, err user_buf_too_small) else (
            after_merge k (merge_fragments k.rcv_queue).1,
            ok (merge_fragments k.rcv_queue).0,
          )
        ]))
        (returns
          (after_merge k (merge_fragments k.rcv_queue).1, ok (merge_fragments k.rcv_queue).0))
whole_result k n e = let fits : ltb n n ≡ false = ground arith in rw (e, fits)

-- A message that is taken leaves fewer segments.
take_message-fewer :
    (k k' : Kcp) (m : SessionMessage) → take_message k ≡ returns (message k' m) → held k' < held k
unfolding take_message take_sized must
take_message-fewer k k' m e = elim (Result-cases (peeksize k.rcv_queue)) [
  | inr (recv_queue_empty, empty) ↦ absurd (cc (rw (empty, take_message) at e))
  | inr (expecting_fragment, more) ↦ absurd (cc (rw (more, take_message) at e))
  | inr (other, bad) ↦ absurd (cc (rw (bad, take_message) at e))
  | inl (n, peeked) ↦
      let sized : take_sized k n ≡ returns (message k' m) = rw (peeked, take_message) at e in
      let merged = after_merge k (merge_fragments k.rcv_queue).1 in
      let bytes = (merge_fragments k.rcv_queue).0 in
      let whole : recv k n ≡ returns (merged, ok bytes) =
        recv_total k n ∙ whole_result k n peeked in
      let read : (decode bytes >>= λ decoded. returns (message merged decoded))
          ≡ returns (message k' m) =
        rw whole at sized in
      let (decoded, d, done) = >>=-returns (decode bytes) _ read in
      let after : k' ≡ merged = cc done in
      omega (
        arith,
        ap held after,
        after_merge-held k (merge_fragments k.rcv_queue).1,
        queue_shrinks k.rcv_queue n peeked,
      )
]

-- The loop as the source has it, without fuel: it ends where no message is whole, goes on behind a
-- message that is taken, and fails where taking one does.
pub data Drains : Kcp → List SessionMessage → Outcome (Kcp × List SessionMessage) → Type 0 where
  fails :
      (k : Kcp) (messages : List SessionMessage)
      → take_message k ≡ panics
      → Drains k messages panics
  finishes :
      (k : Kcp) (messages : List SessionMessage)
      → take_message k ≡ returns no_message
      → Drains k messages (returns (k, messages))
  goes_on :
      (k k' : Kcp) (m : SessionMessage) (messages : List SessionMessage)
      (result : Outcome (Kcp × List SessionMessage))
      → take_message k ≡ returns (message k' m)
      → Drains k' (messages ++ (m ∷ [])) result
      → Drains k messages result

recv_loop-Drains :
    (fuel : ℕ) (k : Kcp) (messages : List SessionMessage)
    → held k < fuel
    → Drains k messages (recv_loop fuel k messages)
unfolding recv_loop
recv_loop-Drains zero k messages h = absurd (omega arith)
recv_loop-Drains (suc fuel) k messages h = elim (Outcome-cases (take_message k)) [
  | inl bad ↦ rw bad (fails k messages bad)
  | inr (no_message, none_there) ↦ rw none_there (finishes k messages none_there)
  | inr (message k' m, there) ↦
      let fewer = take_message-fewer k k' m there in
      rw there (
        goes_on k k' m messages _ there
          (recv_loop-Drains fuel k' (messages ++ (m ∷ [])) (omega (arith, fewer))))
]

-- The loop of `recv_messages` comes to its own end, in every state: the result is that of the loop
-- without a bound, so that it is never the fuel that ends it. Each round takes a segment at
-- least out of the queue and the buffer, those that move up between the two included.
pub recv_messages-Drains : (k : Kcp) → Drains k [] (recv_messages k)
unfolding recv_messages
recv_messages-Drains k = recv_loop-Drains (recv_fuel k) k [] (omega arith)
