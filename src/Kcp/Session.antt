-- ===== src/Kcp/Session.antt =====
-- crates/raynet-core/src/kcp/kcp.rs: a control block from its construction on, as its operations
-- are called in any order.
use raynet.Prelude.{
  ℕ, ◌≡◌, refl, sym, ◌∙◌, subst, List, [], ◌++◌, length, ltb, leb, ◌==◌, ◌||◌, max, if◌then◌else◌,
  IsByte, IsU16, All, Result, ok, err, returns, returns_injective, Bool-cases, inl, inr, arith,
}
use raynet.Kcp.Types.{Kcp, KcpParams, KcpSegment, KcpError, new_kcp, user_buf_too_small}
use raynet.Kcp.Codec.{ByteOrder}
use raynet.Kcp.Receive.{recv, move_buf, peeksize, after_merge, merge_fragments}
use raynet.Kcp.Receive.Delivery.{new_kcp-InOrder}
use raynet.Kcp.Receive.Messages.{recv_total, after_merge-InOrder}
use raynet.Kcp.Send.{send, div_ceil, fragments}
use raynet.Kcp.Acks.Outstanding.{new_kcp-Outstanding}
use raynet.Kcp.Input.{input}
use raynet.Kcp.Input.Soundness.{Sound, SameSender, Outstanding-same}
use raynet.Kcp.Input.Packets.{input-Sound}
use raynet.Kcp.Flush.{flush}
use raynet.Kcp.Flush.Soundness.{Sound-Same}
use raynet.Kcp.Flush.Updates.{flush-Sound, update-Sound}
use raynet.Kcp.Timer.{update, take_output}

-- One call of a public operation that returns, whatever its result.
pub data Step (order : ByteOrder) (k k' : Kcp) : Type 0 where
  sends : (buf : List ℕ) (r : Result KcpError ℕ) → send k buf ≡ returns (k', r) → Step order k k'
  receives :
      (size : ℕ) (r : Result KcpError (List ℕ)) → recv k size ≡ returns (k', r) → Step order k k'
  inputs :
      (current : ℕ) (buf : List ℕ)
      → All IsByte buf
      → (input order k current buf).0 ≡ k'
      → Step order k k'
  updates : (current : ℕ) → (update order k current).0 ≡ k' → Step order k k'
  flushes : (flush order k).0 ≡ k' → Step order k k'
  takes : (take_output k).0 ≡ k' → Step order k k'

-- The control blocks that the calls reach.
pub data Reachable (order : ByteOrder) (conv : ℕ) (params : KcpParams) : Kcp → Type 0 where
  start : Reachable order conv params (new_kcp conv params)
  step :
      (k k' : Kcp)
      → Reachable order conv params k
      → Step order k k'
      → Reachable order conv params k'

after_merge-SameSender : (k : Kcp) (left : List KcpSegment) → SameSender k (after_merge k left)
unfolding after_merge move_buf
after_merge-SameSender k left = ground arith

send-Sound :
    (first : ℕ) (k k' : Kcp) (buf : List ℕ) (r : Result KcpError ℕ)
    → send k buf ≡ returns (k', r)
    → Sound first k
    → Sound first k'
unfolding send
send-Sound first k k' buf r e v =
    let count = max (div_ceil (length buf) k.mss) 1 in
    let queued = record k { snd_queue = k.snd_queue ++ fragments count k.mss buf } in
    elim (Bool-cases (k.mss == 0)) [
      | inl zero_mss ↦ absurd (cc (rw zero_mss at e))
      | inr some_mss ↦ elim (Bool-cases (leb k.rcv_wnd count || leb 256 count)) [
        | inl big ↦ let same : k ≡ k' = cc (rw (some_mss, big) at e) in subst (Sound first) same v
        | inr small ↦
            let same : queued ≡ k' = cc (rw (some_mss, small) at e) in
            subst (Sound first) same
              (Sound-Same first k queued ((refl, refl, refl, refl), (refl, refl, refl, refl)) v)
      ]
    ]

recv_state-Sound :
    (first : ℕ) (k : Kcp) (size : ℕ) (peeked : Result KcpError ℕ)
    → Sound first k
    → let q : Kcp × Result KcpError (List ℕ) = elim peeked [
      | err e ↦ (k, err e)
      | ok n ↦
          if ltb size n
          then (k, err user_buf_too_small)
          else (after_merge k (merge_fragments k.rcv_queue).1, ok (merge_fragments k.rcv_queue).0)
    ] in
      (first' : ℕ) × Sound first' q.0
recv_state-Sound first k size (err e) v = (first, v)
recv_state-Sound first k size (ok n) v = elim (Bool-cases (ltb size n)) [
  | inl small ↦ rw small (first, v)
  | inr fits ↦
      let (first', r) = after_merge-InOrder first k v.receiving in
      let k' = after_merge k (merge_fragments k.rcv_queue).1 in
      rw fits (
        first',
        record {
          receiving = r;
          sending =
              Outstanding-same k k' (after_merge-SameSender k (merge_fragments k.rcv_queue).1)
                v.sending;
        },
      )
]

recv-Sound :
    (first : ℕ) (k k' : Kcp) (size : ℕ) (r : Result KcpError (List ℕ))
    → recv k size ≡ returns (k', r)
    → Sound first k
    → (first' : ℕ) × Sound first' k'
recv-Sound first k k' size r e v =
    subst (λ (p : Kcp × Result KcpError (List ℕ)). (first' : ℕ) × Sound first' p.0)
      (returns_injective (sym (recv_total k size) ∙ e))
      (recv_state-Sound first k size (peeksize k.rcv_queue) v)

-- No call breaks the order.
Step-Sound :
    (order : ByteOrder) (first : ℕ) (k k' : Kcp)
    → Step order k k'
    → Sound first k
    → (first' : ℕ) × Sound first' k'
unfolding take_output
Step-Sound order first k k' (sends buf r e) v = (first, send-Sound first k k' buf r e v)
Step-Sound order first k k' (receives size r e) v = recv-Sound first k k' size r e v
Step-Sound order first k k' (inputs current buf hb e) v =
    (first, subst (Sound first) e (input-Sound order first k current buf hb v).0)
Step-Sound order first k k' (updates current e) v =
    (first, subst (Sound first) e (update-Sound order first k current v))
Step-Sound order first k k' (flushes e) v =
    (first, subst (Sound first) e (flush-Sound order first k v))
Step-Sound order first k k' (takes e) v = (
  first,
  subst (Sound first) e (
      Sound-Same first k (record k { output = [] })
        ((refl, refl, refl, refl), (refl, refl, refl, refl)) v),
)

-- In every state that the calls of the public operations reach, with windows of 16 bits and
-- whatever bytes arrive: the receive queue holds consecutive numbers up to `rcv_nxt`, the receive
-- buffer holds numbers of the window in ascending order, and so does the send buffer from `snd_una`
-- up to `snd_nxt`.
pub Reachable-Sound :
    (order : ByteOrder) (conv : ℕ) (params : KcpParams) (k : Kcp)
    → IsU16 params.send_window
    → IsU16 params.receive_window
    → Reachable order conv params k
    → (first : ℕ) × Sound first k
Reachable-Sound order conv params k hs hr start = (
  0,
  record {
    receiving = new_kcp-InOrder conv params hr;
    sending = new_kcp-Outstanding conv params hs;
  },
)
Reachable-Sound order conv params k' hs hr (step k _ reached s) =
    let (first, v) = Reachable-Sound order conv params k hs hr reached in
    Step-Sound order first k k' s v
