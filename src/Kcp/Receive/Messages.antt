-- ===== src/Kcp/Receive/Messages.antt =====
-- crates/raynet-core/src/kcp/kcp.rs: `peeksize` and `recv` on whole messages.
use raynet.Prelude.{
  ℕ, ◌+◌, ◌%◌, ◌≤◌, ◌<◌, ◌≡◌, refl, true, false, ◌&&◌, List, [], ◌∷◌, length, ltb, leb, ◌==◌,
  if◌then◌else◌, arith, add32, Bool-cases, inl, inr, ok, err, returns, length-append, ◌⊎◌,
}
use raynet.Kcp.Types.{
  Kcp, KcpSegment, KcpError, recv_queue_empty, expecting_fragment, user_buf_too_small,
}
use raynet.Kcp.Receive.{move_buf, peeksize, message_size, merge_fragments, after_merge, recv}
use raynet.Kcp.Receive.Delivery.{InOrder, Run, move_buf-InOrder}

-- What is merged is as long as what `peeksize` announces.
pub merge_fragments_size :
    (queue : List KcpSegment) → length (merge_fragments queue).0 ≡ message_size queue
unfolding merge_fragments message_size
merge_fragments_size [] = refl
merge_fragments_size (seg ∷ queue) =
    ground (arith, merge_fragments_size queue, length-append seg.bytes (merge_fragments queue).0)

peeksize-cases :
    (queue : List KcpSegment)
    → ((e : KcpError) × (peeksize queue ≡ err e)) ⊎ (peeksize queue ≡ ok (message_size queue))
unfolding peeksize message_size
peeksize-cases [] = inl (recv_queue_empty, refl)
peeksize-cases (seg ∷ queue) = elim (Bool-cases (seg.frg == 0)) [
  | inl last ↦ inr (rw last refl)
  | inr more ↦ elim (Bool-cases (ltb (length (seg ∷ queue)) ((seg.frg + 1) % 256))) [
    | inl few ↦ inl (expecting_fragment, rw (more, few) refl)
    | inr enough ↦ inr (rw (more, enough) refl)
  ]
]

-- A message whose first segment announces fewer than 255 more is complete once they are there.
pub peeksize_whole :
    (seg : KcpSegment) (queue : List KcpSegment)
    → seg.frg < 255
    → seg.frg ≤ length queue
    → peeksize (seg ∷ queue) ≡ ok (message_size (seg ∷ queue))
unfolding peeksize message_size
peeksize_whole seg queue h hl = elim (Bool-cases (seg.frg == 0)) [
  | inl last ↦ rw last refl
  | inr more ↦
      let there : ltb (length (seg ∷ queue)) ((seg.frg + 1) % 256) ≡ false = ground arith in
      rw (more, there) refl
]

-- A first segment that announces 255 more makes the count wrap to zero: the message passes for
-- complete whatever follows, where one that announces 1 to 254 more is refused as long as fewer
-- segments are there.
pub peeksize_wraps :
    (seg : KcpSegment) (queue : List KcpSegment)
    → (seg.frg ≡ 255 → peeksize (seg ∷ queue) ≡ ok (message_size (seg ∷ queue)))
      × (0 < seg.frg
          → seg.frg < 255
          → length queue < seg.frg
          → peeksize (seg ∷ queue) ≡ err expecting_fragment)
unfolding peeksize message_size
peeksize_wraps seg queue = (wraps, refused)
  where
    wraps : seg.frg ≡ 255 → peeksize (seg ∷ queue) ≡ ok (message_size (seg ∷ queue))
    wraps h =
        let more : (seg.frg == 0) ≡ false = ground arith in
        let there : ltb (length (seg ∷ queue)) ((seg.frg + 1) % 256) ≡ false = ground arith in
        rw (more, there) refl

    refused :
        0 < seg.frg
        → seg.frg < 255
        → length queue < seg.frg
        → peeksize (seg ∷ queue) ≡ err expecting_fragment
    refused h0 h hl =
        let more : (seg.frg == 0) ≡ false = ground arith in
        let few : ltb (length (seg ∷ queue)) ((seg.frg + 1) % 256) ≡ true = ground arith in
        rw (more, few) refl

-- `recv` never panics: what it merges is as long as what it announced, so that it fits the buffer.
-- It takes a message off the queue into a buffer that has room for it; else it answers with the
-- error of `peeksize`, or that the buffer is too small, and changes nothing.
pub recv_total :
    (k : Kcp) (size : ℕ)
    → recv k size
      ≡ returns (elim (peeksize k.rcv_queue) [
        | err e ↦ (k, err e)
        | ok n ↦
            if ltb size n
            then (k, err user_buf_too_small)
            else (after_merge k (merge_fragments k.rcv_queue).1, ok (merge_fragments k.rcv_queue).0)
      ])
unfolding recv
recv_total k size = elim (peeksize-cases k.rcv_queue) [
  | inl (e, h) ↦ rw (h, recv) refl
  | inr h ↦ elim (Bool-cases (ltb size (message_size k.rcv_queue))) [
    | inl small ↦ rw (h, small, recv) refl
    | inr fits ↦
        let short : ltb size (length (merge_fragments k.rcv_queue).0) ≡ false =
          rw (merge_fragments_size k.rcv_queue) fits in
        rw (h, fits, short, recv) refl
  ]
]

merge_fragments-Run :
    (first next : ℕ) (queue : List KcpSegment)
    → Run first queue next
    → (first' : ℕ) × Run first' (merge_fragments queue).1 next
unfolding merge_fragments
merge_fragments-Run first next [] r = (first, r)
merge_fragments-Run first next (seg ∷ queue) (e, r) = elim (Bool-cases (seg.frg == 0)) [
  | inl last ↦ rw last (add32 first 1, r)
  | inr more ↦ rw more (merge_fragments-Run (add32 first 1) next queue r)
]

-- A receiver that is in order is so after a message is taken off the queue and the queue is
-- refilled.
pub after_merge-InOrder :
    (first : ℕ) (k : Kcp)
    → InOrder first k
    → (first' : ℕ) × InOrder first' (after_merge k (merge_fragments k.rcv_queue).1)
unfolding after_merge
after_merge-InOrder first k v =
    let (first', r) = merge_fragments-Run first k.rcv_nxt k.rcv_queue v.queued in
    let left = (merge_fragments k.rcv_queue).1 in
    let moved : InOrder first' (move_buf (record k { rcv_queue = left })) =
      move_buf-InOrder first' (record k { rcv_queue = left })
        (record { nxt_in = v.nxt_in; wnd_in = v.wnd_in; queued = r; buffered = v.buffered }) in
    let k' = move_buf (record k { rcv_queue = left }) in
    elim (Bool-cases (ltb (length k'.rcv_queue) k'.rcv_wnd && leb k.rcv_wnd (length k.rcv_queue))) [
      | inl tell ↦ rw tell (
        first',
        record {
          nxt_in = moved.nxt_in;
          wnd_in = moved.wnd_in;
          queued = moved.queued;
          buffered = moved.buffered;
        },
      )
      | inr quiet ↦ rw quiet (first', moved)
    ]
