-- ===== src/Kcp/Flush/Window.antt =====
-- crates/raynet-core/src/kcp/kcp.rs: the move of `flush` from `snd_queue` to `snd_buf`.
use raynet.Prelude.{
  ℕ, ◌+◌, ◌^◌, ◌≤◌, ◌<◌, ◌≡◌, refl, ap, ◌∙◌, List, [], ◌∷◌, ◌++◌, append_assoc, ltb, max, arith,
  add32, IsU16, IsU32, Bool-cases, inl, inr, ◌⊎◌,
}
use raynet.Prelude.Int.{pos, ltb_ℤ}
use raynet.Kcp.Types.{Kcp, KcpSegment, timediff}
use raynet.Kcp.Receive.Order.{ahead, Between, Between-snoc}
use raynet.Kcp.Acks.Outstanding.{Outstanding}
use raynet.Kcp.Flush.{Filled, fill_window, number_segment, queue_to_buf, send_window}

-- The data of some segments, in order.
abbrev pub payloads : List KcpSegment → List (List ℕ)
payloads [] = []
payloads (seg ∷ segs) = seg.bytes ∷ payloads segs

payloads-append : (xs ys : List KcpSegment) → payloads (xs ++ ys) ≡ payloads xs ++ payloads ys
payloads-append [] ys = refl
payloads-append (x ∷ xs) ys = ap (◌∷◌ x.bytes) (payloads-append xs ys)

-- What holds of the three results of the loop: the numbers stay in order, the distance from `una`
-- passes neither the window nor what it was, the queue is emptied unless the window is full, and
-- the data is what it was, in its order.
pub record FillsWindow (una wnd nxt : ℕ) (queue buf : List KcpSegment) (f : Filled) : Type 0 where
  pub nxt_in : IsU32 f.snd_nxt
  pub inside : ahead una f.snd_nxt ≤ max (ahead una nxt) wnd
  pub near : ahead una f.snd_nxt < 2 ^ 31
  pub sent : Between una 0 (ahead una f.snd_nxt) f.snd_buf
  pub full : (f.snd_queue ≡ []) ⊎ (wnd ≤ ahead una f.snd_nxt)
  pub in_order : payloads f.snd_buf ++ payloads f.snd_queue ≡ payloads buf ++ payloads queue

-- Whether the next number is inside the window is a question of its distance.
window_test :
    (una wnd nxt : ℕ)
    → IsU32 una
    → IsU16 wnd
    → IsU32 nxt
    → ahead una nxt < 2 ^ 31
    → ltb_ℤ (timediff nxt (add32 una wnd)) (pos 0) ≡ ltb (ahead una nxt) wnd
unfolding timediff
window_test una wnd nxt hu hw hn h = ground arith

fill_window-FillsWindow :
    (k : Kcp) (w una wnd : ℕ) (queue buf : List KcpSegment) (nxt : ℕ)
    → IsU32 una
    → IsU16 wnd
    → IsU32 nxt
    → ahead una nxt < 2 ^ 31
    → Between una 0 (ahead una nxt) buf
    → FillsWindow una wnd nxt queue buf (fill_window k w (add32 una wnd) queue buf nxt)
unfolding fill_window number_segment
fill_window-FillsWindow k w una wnd [] buf nxt hu hw hn h b = record {
  nxt_in = hn;
  inside = omega arith;
  near = h;
  sent = b;
  full = inl refl;
  in_order = refl;
}
fill_window-FillsWindow k w una wnd (seg ∷ queue) buf nxt hu hw hn h b =
    let seg' = number_segment k w nxt seg in
    let test = window_test una wnd nxt hu hw hn h in
    elim (Bool-cases (ltb (ahead una nxt) wnd)) [
      | inl go ↦
          let next : ahead una (add32 nxt 1) ≡ ahead una nxt + 1 = ground arith in
          let more : Between una 0 (ahead una (add32 nxt 1)) (buf ++ (seg' ∷ [])) =
            Between-snoc una 0 (ahead una (add32 nxt 1)) buf seg' hn (omega arith) b in
          let rest =
            fill_window-FillsWindow k w una wnd queue (buf ++ (seg' ∷ [])) (add32 nxt 1) hu hw
              (omega arith) (ground arith) more in
          rw (test ∙ go) (record {
            nxt_in = rest.nxt_in;
            inside = ground (arith, rest.inside);
            near = rest.near;
            sent = rest.sent;
            full = rest.full;
            in_order =
                rest.in_order
                ∙ ap (λ (p : List (List ℕ)). p ++ payloads queue) (payloads-append buf (seg' ∷ []))
                ∙ append_assoc (payloads buf) (seg.bytes ∷ []) (payloads queue);
          })
      | inr stop ↦ rw (test ∙ stop) (record {
        nxt_in = hn;
        inside = omega arith;
        near = h;
        sent = b;
        full = inr (ground arith);
        in_order = refl;
      })
    ]

send_window-IsU16 : (k : Kcp) → IsU16 k.snd_wnd → IsU16 (send_window k)
unfolding send_window
send_window-IsU16 k h = ground arith

-- Where the segments in flight are in order, `flush` numbers segments in the order of the queue,
-- keeps the numbers in flight within the send window (or within what was in flight, where the
-- window has shrunk), leaves a segment in the queue only where the window is full, and keeps the
-- data and its order.
pub queue_to_buf-FillsWindow :
    (k : Kcp) (w : ℕ)
    → Outstanding k
    → Outstanding (queue_to_buf k w)
      × (ahead k.snd_una (queue_to_buf k w).snd_nxt
          ≤ max (ahead k.snd_una k.snd_nxt) (send_window k))
      × (((queue_to_buf k w).snd_queue ≡ [])
          ⊎ (send_window k ≤ ahead k.snd_una (queue_to_buf k w).snd_nxt))
      × (payloads (queue_to_buf k w).snd_buf ++ payloads (queue_to_buf k w).snd_queue
          ≡ payloads k.snd_buf ++ payloads k.snd_queue)
unfolding queue_to_buf
queue_to_buf-FillsWindow k w v =
    let hw : IsU16 (send_window k) = send_window-IsU16 k v.wnd_in in
    let f =
      fill_window-FillsWindow k w k.snd_una (send_window k) k.snd_queue k.snd_buf k.snd_nxt v.una_in
        hw v.nxt_in v.near v.sent in
    (
      record {
        wnd_in = v.wnd_in;
        una_in = v.una_in;
        nxt_in = f.nxt_in;
        near = f.near;
        sent = f.sent;
      },
      f.inside,
      f.full,
      f.in_order,
    )
