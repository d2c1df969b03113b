-- ===== src/Endpoint/Session.antt =====
-- crates/raynet-core/src/endpoint.rs: `EndpointSession`, a control block with the phase of its
-- session.
use raynet.Prelude.{
  ℕ, zero, suc, ◌+◌, ◌-◌, ◌%◌, ◌^◌, min, Bool, false, List, [], ◌∷◌, ◌++◌, Option, none, some,
  length, ◌==◌, if◌then◌else◌, Result, ok, err, Outcome, returns, panics, add64,
}
use raynet.Prelude.Outcomes.{◌>>=◌}
use raynet.Machine.Types.{ConvId, CloseReason}
use raynet.Kcp.Types.{Kcp, KcpParams, KcpError, recv_queue_empty, expecting_fragment, new_kcp}
use raynet.Kcp.Codec.{ByteOrder}
use raynet.Kcp.Receive.{recv, peeksize}
use raynet.Kcp.Send.{send}
use raynet.Kcp.Input.{input}
use raynet.Kcp.Flush.{flush}
use raynet.Kcp.Timer.{update, take_output, wait_snd, check}
use raynet.Wire.Layout.{SessionMessage}
use raynet.Wire.SessionMessages.{encode, decode}

pub data SessionPhase : Type 0 where
  pending_remote opened closing_local closing_remote : SessionPhase

pub record EndpointSession : Type 0 where
  pub kcp : Kcp
  pub phase : SessionPhase
  pub peer_seq : Option ℕ
  pub pending_close : Option CloseReason
  pub close_queued : Bool
  pub close_deadline_at : Option ℕ

-- `EndpointSession::new`.
unfoldable pub new_session : ConvId → KcpParams → SessionPhase → EndpointSession
new_session conv_id params phase = record {
  kcp = new_kcp conv_id params;
  phase = phase;
  peer_seq = none;
  pending_close = none;
  close_queued = false;
  close_deadline_at = none;
}

-- `.ok().unwrap()` on the result of an operation of the control block.
unfoldable pub must {ℓ} : {A : Type ℓ} → Kcp × Result KcpError A → Outcome (Kcp × A)
must (k, ok a) = returns (k, a)
must (k, err e) = panics

-- `elapsed_ms as u32`
abbrev pub clock32 : ℕ → ℕ
clock32 elapsed_ms = elapsed_ms % 2 ^ 32

abbrev pub with_kcp : EndpointSession → Kcp → EndpointSession
with_kcp session k = record session { kcp = k }

-- What one round of `recv_messages` finds: no whole message, or one, with the control block behind it.
pub data Taken : Type 0 where
  no_message : Taken
  message : Kcp → SessionMessage → Taken

-- The buffer has the size that `peeksize` gives, and `recv` fills it.
unfoldable pub take_sized : Kcp → ℕ → Outcome Taken
take_sized k size = do
  received ← recv k size
  taken ← must received
  decoded ← decode taken.1
  returns (message taken.0 decoded)

unfoldable pub take_message : Kcp → Outcome Taken
take_message k = elim (peeksize k.rcv_queue) [
  | ok size ↦ take_sized k size
  | err recv_queue_empty ↦ returns no_message
  | err expecting_fragment ↦ returns no_message
  | err other ↦ panics
]

-- The loop of `recv_messages`; without fuel the outcome is `panics`.
unfoldable pub recv_loop : ℕ → Kcp → List SessionMessage → Outcome (Kcp × List SessionMessage)
recv_loop zero k messages = panics
recv_loop (suc fuel) k messages = do
  taken ← take_message k
  elim taken [
    | no_message ↦ returns (k, messages)
    | message k' m ↦ recv_loop fuel k' (messages ++ (m ∷ []))
  ]

-- Each round takes a segment at least out of the queue and the buffer.
abbrev pub recv_fuel : Kcp → ℕ
recv_fuel k = length k.rcv_queue + length k.rcv_buf + 1

unfoldable pub recv_messages : Kcp → Outcome (Kcp × List SessionMessage)
recv_messages k = recv_loop (recv_fuel k) k []

pub record SessionOutput : Type 0 where
  pub session : EndpointSession
  pub messages : List SessionMessage
  pub packets : List (List ℕ)

module _ (order : ByteOrder) where
  unfoldable pub flush_now : EndpointSession → ℕ → Outcome (EndpointSession × List (List ℕ))
  flush_now session elapsed_ms = do
    updated ← must (update order session.kcp (clock32 elapsed_ms))
    flushed ← must (flush order updated.0)
    let (k, packets) = take_output flushed.0
    returns (with_kcp session k, packets)

  unfoldable pub send_message :
      EndpointSession → ℕ → SessionMessage → Outcome (EndpointSession × List (List ℕ))
  send_message session elapsed_ms m = do
    result ← send session.kcp (encode m)
    sent ← must result
    flush_now (with_kcp session sent.0) elapsed_ms

  unfoldable pub input_packet : EndpointSession → ℕ → List ℕ → Outcome SessionOutput
  input_packet session elapsed_ms packet = do
    read ← must (input order session.kcp (clock32 elapsed_ms) packet)
    flushed ← flush_now (with_kcp session read.0) elapsed_ms
    received ← recv_messages flushed.0.kcp
    returns (record {
      session = with_kcp flushed.0 received.0;
      messages = received.1;
      packets = flushed.1;
    })

  unfoldable pub poll_session : EndpointSession → ℕ → Outcome (EndpointSession × List (List ℕ))
  poll_session session elapsed_ms = do
    updated ← must (update order session.kcp (clock32 elapsed_ms))
    let (k, packets) = take_output updated.0
    returns (with_kcp session k, packets)

unfoldable pub session_deadline : EndpointSession → ℕ → ℕ
session_deadline session elapsed_ms =
    let waiting =
      if wait_snd session.kcp == 0
      then 2 ^ 64 - 1
      else min (2 ^ 64 - 1) (add64 elapsed_ms (check session.kcp (clock32 elapsed_ms))) in
    elim session.close_deadline_at [ none ↦ waiting | some deadline ↦ min waiting deadline ]
