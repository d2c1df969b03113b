-- ===== src/Kcp/Receive.antt =====
-- crates/raynet-core/src/kcp/kcp.rs: `move_buf`, `peeksize`, `recv` and `parse_data`.
pub mod Order
pub mod Delivery
pub mod Messages
use raynet.Prelude.{
  ℕ, zero, suc, ◌+◌, ◌-◌, ◌%◌, ◌^◌, Bool, true, false, not, ◌&&◌, ◌||◌, List, [], ◌∷◌, ◌++◌,
  reverse, bit_or, length, take, drop, ltb, leb, ◌==◌, if◌then◌else◌, Result, ok, err, Outcome,
  returns, panics, add32,
}
use raynet.Prelude.Int.{ℤ, pos, ltb_ℤ, leb_ℤ}
use raynet.Kcp.Types.{
  Kcp, KcpSegment, KcpError, recv_queue_empty, expecting_fragment, user_buf_too_small, timediff,
  ask_tell,
}

-- The variables of the loop of `move_buf`.
pub record Moved : Type 0 where
  pub rcv_buf : List KcpSegment
  pub rcv_nxt : ℕ
  pub rcv_queue : List KcpSegment

unfoldable pub move_segments : ℕ → List KcpSegment → ℕ → List KcpSegment → Moved
move_segments rcv_wnd [] nxt queue = record { rcv_buf = []; rcv_nxt = nxt; rcv_queue = queue }
move_segments rcv_wnd (seg ∷ rest) nxt queue =
    let next = move_segments rcv_wnd rest (add32 nxt 1) (queue ++ (seg ∷ [])) in
    if seg.sn == nxt && ltb (length queue) rcv_wnd
    then next
    else record { rcv_buf = seg ∷ rest; rcv_nxt = nxt; rcv_queue = queue }

unfoldable pub move_buf : Kcp → Kcp
move_buf k =
    let m = move_segments k.rcv_wnd k.rcv_buf k.rcv_nxt k.rcv_queue in
    record k { rcv_buf = m.rcv_buf; rcv_nxt = m.rcv_nxt; rcv_queue = m.rcv_queue }

-- The sum of the sizes up to the first segment with `frg == 0`, that one included.
unfoldable pub message_size : List KcpSegment → ℕ
message_size [] = 0
message_size (seg ∷ queue) =
    if seg.frg == 0 then length seg.bytes else length seg.bytes + message_size queue

-- `segment.frg + 1` is computed on a byte.
unfoldable pub peeksize : List KcpSegment → Result KcpError ℕ
peeksize [] = err recv_queue_empty
peeksize (seg ∷ queue) =
    if seg.frg == 0
    then ok (length seg.bytes)
    else if ltb (length (seg ∷ queue)) ((seg.frg + 1) % 256)
    then err expecting_fragment
    else ok (message_size (seg ∷ queue))

-- The bytes written to the buffer, and the queue that is left.
unfoldable pub merge_fragments : List KcpSegment → List ℕ × List KcpSegment
merge_fragments [] = ([], [])
merge_fragments (seg ∷ queue) =
    let (rest, left) = merge_fragments queue in
    if seg.frg == 0 then (seg.bytes, queue) else (seg.bytes ++ rest, left)

-- The state after the fragments are merged: `move_buf` and fast recovery.
unfoldable pub after_merge : Kcp → List KcpSegment → Kcp
after_merge k left =
    let recover = leb k.rcv_wnd (length k.rcv_queue) in
    let moved = move_buf (record k { rcv_queue = left }) in
    if ltb (length moved.rcv_queue) moved.rcv_wnd && recover
    then record moved { probe = bit_or moved.probe ask_tell }
    else moved

-- `recv` with a buffer of `size` bytes. The result is what was written to the front of the buffer;
-- a write past the end of the buffer panics.
unfoldable pub recv : Kcp → ℕ → Outcome (Kcp × Result KcpError (List ℕ))
recv k size = elim (peeksize k.rcv_queue) [
  | err e ↦ returns (k, err e)
  | ok peek ↦
      if ltb size peek
      then returns (k, err user_buf_too_small)
      else let (written, left) = merge_fragments k.rcv_queue in
        if ltb size (length written) then panics else returns (after_merge k left, ok written)
]

-- The loop over `rcv_buf.iter().rev()`: whether the number is there, and where it belongs.
unfoldable pub scan_back : ℕ → List KcpSegment → ℕ → Bool × ℕ
scan_back sn [] index = (false, index)
scan_back sn (seg ∷ rest) index =
    let next = scan_back sn rest (index - 1) in
    if seg.sn == sn
    then (true, index)
    else if ltb_ℤ (pos 0) (timediff sn seg.sn)
    then (false, index)
    else next

-- `VecDeque::insert`.
unfoldable pub insert_at : ℕ → KcpSegment → List KcpSegment → List KcpSegment
insert_at index seg segs = take index segs ++ (seg ∷ drop index segs)

unfoldable pub insert_segment : KcpSegment → List KcpSegment → List KcpSegment
insert_segment seg segs =
    let (repeat, index) = scan_back seg.sn (reverse segs) (length segs) in
    if repeat then segs else insert_at index seg segs

-- Whether the number lies in the receive window.
unfoldable pub in_receive_window : Kcp → ℕ → Bool
in_receive_window k sn = not (
    leb_ℤ (pos 0) (timediff sn (add32 k.rcv_nxt k.rcv_wnd))
    || ltb_ℤ (timediff sn k.rcv_nxt) (pos 0))

unfoldable pub parse_data : Kcp → KcpSegment → Kcp
parse_data k seg =
    if in_receive_window k seg.sn
    then move_buf (record k { rcv_buf = insert_segment seg k.rcv_buf })
    else k
