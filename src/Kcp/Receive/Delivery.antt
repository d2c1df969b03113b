-- ===== src/Kcp/Receive/Delivery.antt =====
-- crates/raynet-core/src/kcp/kcp.rs: the segments reach `rcv_queue` in the order of their numbers,
-- each once, under `move_buf`, `parse_data` and `recv`.
use raynet.Prelude.{
  ℕ, ◌+◌, ◌-◌, ◌^◌, ◌<◌, ◌≡◌, refl, ap, sym, ◌∙◌, ◌&&◌, List, [], ◌∷◌, ◌++◌, length, ltb, ◌==◌,
  arith, add32, IsU16, IsU32, Bool-cases, inl, inr,
}
use raynet.Kcp.Types.{Kcp, KcpSegment, timediff, new_kcp, KcpParams}
use raynet.Kcp.Receive.{move_segments, move_buf, insert_segment, in_receive_window, parse_data}
use raynet.Kcp.Receive.Order.{ahead, Between, Between-mono, insert_segment-Between}

-- The numbers of the segments count up from `first`, and the one after the last is `next`.
abbrev pub Run : ℕ → List KcpSegment → ℕ → Type 0
Run first [] next = first ≡ next
Run first (seg ∷ segs) next = (seg.sn ≡ first) × Run (add32 first 1) segs next

-- `rcv_queue` holds the numbers from `first` up to `rcv_nxt`, without a gap or a repetition, and
-- `rcv_buf` holds numbers inside the window from `rcv_nxt` on, in strictly ascending order.
pub record InOrder (first : ℕ) (k : Kcp) : Type 0 where
  pub nxt_in : IsU32 k.rcv_nxt
  pub wnd_in : IsU16 k.rcv_wnd
  pub queued : Run first k.rcv_queue k.rcv_nxt
  pub buffered : Between k.rcv_nxt 0 k.rcv_wnd k.rcv_buf

Run-snoc :
    (first next : ℕ) (segs : List KcpSegment) (seg : KcpSegment)
    → Run first segs next
    → seg.sn ≡ next
    → Run first (segs ++ (seg ∷ [])) (add32 next 1)
Run-snoc first next [] seg r e = (e ∙ sym r, ap (λ n. add32 n 1) r)
Run-snoc first next (x ∷ segs) seg (e', r) e = (e', Run-snoc (add32 first 1) next segs seg r e)

-- Seen from one number further on, every distance is one less.
Between-next :
    (nxt low high : ℕ) (segs : List KcpSegment)
    → IsU32 nxt
    → high < 2 ^ 31
    → Between nxt (low + 1) high segs
    → Between (add32 nxt 1) low (high - 1) segs
Between-next nxt low high [] un hh b = omega arith
Between-next nxt low high (x ∷ segs) un hh (u, l, h, b) = (
  u,
  omega arith,
  omega arith,
  Between-mono (add32 nxt 1) (ahead nxt x.sn) (ahead (add32 nxt 1) x.sn + 1) (high - 1) (high - 1)
      segs (omega arith) (omega arith) (Between-next nxt (ahead nxt x.sn) high segs un hh b),
)

-- The loop of `move_buf` keeps both orders.
move_segments-InOrder :
    (rcv_wnd first : ℕ) (segs : List KcpSegment) (nxt : ℕ) (queue : List KcpSegment)
    → IsU16 rcv_wnd
    → IsU32 nxt
    → Between nxt 0 rcv_wnd segs
    → Run first queue nxt
    → let m = move_segments rcv_wnd segs nxt queue in
      IsU32 m.rcv_nxt × Run first m.rcv_queue m.rcv_nxt × Between m.rcv_nxt 0 rcv_wnd m.rcv_buf
unfolding move_segments
move_segments-InOrder wnd first [] nxt queue uw un b r = (un, r, omega arith)
move_segments-InOrder wnd first (seg ∷ segs) nxt queue uw un b r =
    elim (Bool-cases (seg.sn == nxt && ltb (length queue) wnd)) [
      | inl go ↦
          let here : seg.sn ≡ nxt = ground arith in
          let (u, l, h, rest) = b in
          let start : Between nxt (0 + 1) wnd segs =
            Between-mono nxt (ahead nxt seg.sn + 1) (0 + 1) wnd wnd segs (omega arith) (omega arith)
              rest in
          let moved : Between (add32 nxt 1) 0 wnd segs =
            Between-mono (add32 nxt 1) 0 0 (wnd - 1) wnd segs (omega arith) (omega arith)
              (Between-next nxt 0 wnd segs un (omega arith) start) in
          rw go (
            move_segments-InOrder wnd first segs (add32 nxt 1) (queue ++ (seg ∷ [])) uw
              (omega arith) moved (Run-snoc first nxt queue seg r here))
      | inr stop ↦ rw stop (un, r, b)
    ]

pub move_buf-InOrder : (first : ℕ) (k : Kcp) → InOrder first k → InOrder first (move_buf k)
unfolding move_buf
move_buf-InOrder first k v =
    let (un, r, b) =
      move_segments-InOrder k.rcv_wnd first k.rcv_buf k.rcv_nxt k.rcv_queue v.wnd_in v.nxt_in
        v.buffered v.queued in
    record { nxt_in = un; wnd_in = v.wnd_in; queued = r; buffered = b }

-- A new control block has received nothing.
pub new_kcp-InOrder :
    (conv : ℕ) (params : KcpParams) → IsU16 params.receive_window → InOrder 0 (new_kcp conv params)
unfolding new_kcp
new_kcp-InOrder conv params h = record {
  nxt_in = omega arith;
  wnd_in = h;
  queued = refl;
  buffered = omega arith;
}

-- The test of `parse_data` admits the distances below the receive window.
pub in_receive_window-ahead :
    (k : Kcp) (sn : ℕ)
    → IsU32 k.rcv_nxt
    → IsU16 k.rcv_wnd
    → IsU32 sn
    → in_receive_window k sn ≡ ltb (ahead k.rcv_nxt sn) k.rcv_wnd
unfolding in_receive_window timediff
in_receive_window-ahead k sn un uw us = ground arith

-- A receiver that is in order is so after any segment with a number of 32 bits.
pub parse_data-InOrder :
    (first : ℕ) (k : Kcp) (seg : KcpSegment)
    → IsU32 seg.sn
    → InOrder first k
    → InOrder first (parse_data k seg)
unfolding parse_data
parse_data-InOrder first k seg us v = elim (Bool-cases (in_receive_window k seg.sn)) [
  | inl inside ↦
      let near : ahead k.rcv_nxt seg.sn < k.rcv_wnd =
        ground (arith, in_receive_window-ahead k seg.sn v.nxt_in v.wnd_in us) in
      rw inside (
        move_buf-InOrder first (record k { rcv_buf = insert_segment seg k.rcv_buf })
          (record {
            nxt_in = v.nxt_in;
            wnd_in = v.wnd_in;
            queued = v.queued;
            buffered =
                insert_segment-Between k.rcv_nxt 0 k.rcv_wnd seg k.rcv_buf v.nxt_in us (omega arith)
                  near (omega (arith, v.wnd_in)) v.buffered;
          }))
  | inr outside ↦ rw outside v
]
