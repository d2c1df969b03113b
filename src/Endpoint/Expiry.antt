-- ===== src/Endpoint/Expiry.antt =====
-- crates/raynet-core/src/endpoint.rs: what expires, and `next_deadline`.
use raynet.Prelude.{
  ℕ, ◌-◌, ◌%◌, ◌^◌, min, Bool, true, false, List, [], ◌∷◌, none, some, ltb, ◌==◌, if◌then◌else◌,
  is_some, Outcome, returns, add64,
}
use raynet.Prelude.Outcomes.{◌>>=◌, unwrap}
use raynet.Prelude.Assoc.{lookup, remove}
use raynet.Endpoint.{EndpointCore, FeedbackSample, sequence_soft_cap}
use raynet.Endpoint.Session.{EndpointSession, SessionPhase, pending_remote, session_deadline}
use raynet.Endpoint.Sending.{Running, push, current_time}
use raynet.Endpoint.Closing.{drop_session, entomb}
use raynet.Machine.Types.{ConvId, reset, close_session}
use raynet.Routing.{RoutePlanner}
use raynet.Routing.Feedback.{note_feedback}
use raynet.Sequence.Filter.{remove_expired, next_expiry_delay_ms}
use raynet.Sequence.Time.{ts_shift}

-- The loop of `expire_feedback`: the planner, and the samples that are kept.
unfoldable pub expire_samples :
    ℕ
    → List (ℕ × FeedbackSample)
    → RoutePlanner
    → Outcome (RoutePlanner × List (ℕ × FeedbackSample))
expire_samples elapsed_ms [] planner = returns (planner, [])
expire_samples elapsed_ms ((packet, sample) ∷ samples) planner = do
  let keep = ltb elapsed_ms sample.deadline
  planner' ←
      (if keep
        then returns planner
        else note_feedback planner sample.route_plan sample.sent_at false)
  rest ← expire_samples elapsed_ms samples planner'
  returns (rest.0, if keep then (packet, sample) ∷ rest.1 else rest.1)

-- The tombstones that `retain` keeps.
unfoldable pub retain_tombstones : ℕ → List (ConvId × ℕ) → List (ConvId × ℕ)
retain_tombstones elapsed_ms [] = []
retain_tombstones elapsed_ms ((conv_id, expire_at) ∷ tombstones) =
    let rest = retain_tombstones elapsed_ms tombstones in
    if ltb elapsed_ms expire_at then (conv_id, expire_at) ∷ rest else rest

-- The conversations of the sender `seq_id`.
unfoldable pub convs_of : ℕ → List (ConvId × EndpointSession) → List ConvId
convs_of seq_id [] = []
convs_of seq_id ((conv_id, session) ∷ sessions) =
    let rest = convs_of seq_id sessions in
    elim session.peer_seq [
      | none ↦ rest
      | some peer ↦ if peer == seq_id then conv_id ∷ rest else rest
    ]

-- The loops of `next_deadline`.
unfoldable pub least_session : ℕ → List (ConvId × EndpointSession) → ℕ → ℕ
least_session elapsed_ms [] deadline = deadline
least_session elapsed_ms ((conv_id, session) ∷ sessions) deadline =
    least_session elapsed_ms sessions (min deadline (session_deadline session elapsed_ms))

unfoldable pub least_tombstone : List (ConvId × ℕ) → ℕ → ℕ
least_tombstone [] deadline = deadline
least_tombstone ((conv_id, expire_at) ∷ tombstones) deadline =
    least_tombstone tombstones (min deadline expire_at)

unfoldable pub least_sample : List (ℕ × FeedbackSample) → ℕ → ℕ
least_sample [] deadline = deadline
least_sample ((packet, sample) ∷ samples) deadline =
    least_sample samples (min deadline sample.deadline)

abbrev pub is_pending : SessionPhase → Bool
is_pending pending_remote = true
is_pending other = false

module _ {Stream : Type 0} where
  unfoldable pub expire_feedback : EndpointCore Stream → ℕ → Outcome (EndpointCore Stream)
  expire_feedback core elapsed_ms = do
    expired ← expire_samples elapsed_ms core.outstanding core.route_planner
    returns (record core { route_planner = expired.0; outstanding = expired.1 })

  -- A packet that was not sent is no sample, and the next packet may be one.
  unfoldable pub forget_sample : EndpointCore Stream → ℕ → ℕ → EndpointCore Stream
  forget_sample core elapsed_ms packet = record core {
    outstanding = remove packet core.outstanding;
    next_feedback_at =
        if is_some (lookup packet core.outstanding) then elapsed_ms else core.next_feedback_at;
  }

  -- The inner loop of `expire_sequences`.
  unfoldable pub reset_sessions : Running Stream → ℕ → List ConvId → Outcome (Running Stream)
  reset_sessions r elapsed_ms [] = returns r
  reset_sessions r elapsed_ms (conv_id ∷ conv_ids) = do
    session ← unwrap (lookup conv_id r.core.sessions)
    let dropped = record r { core = drop_session r.core conv_id }
    let told =
        (if is_pending session.phase then dropped else push dropped (close_session conv_id reset))
    reset_sessions (record told { core = entomb told.core elapsed_ms conv_id }) elapsed_ms conv_ids

  unfoldable pub reset_senders : Running Stream → ℕ → List ℕ → Outcome (Running Stream)
  reset_senders r elapsed_ms [] = returns r
  reset_senders r elapsed_ms (seq_id ∷ expired) = do
    r' ← reset_sessions r elapsed_ms (convs_of seq_id r.core.sessions)
    reset_senders r' elapsed_ms expired

  unfoldable pub expire_sequences : Running Stream → ℕ → Outcome (Running Stream)
  expire_sequences r elapsed_ms =
      let (filter, expired) =
        remove_expired r.core.sequence_filter (current_time r.core elapsed_ms) sequence_soft_cap in
      reset_senders (record r { core = record r.core { sequence_filter = filter } }) elapsed_ms
        expired

  -- `deadline.min(elapsed_ms + delay.saturating_sub(tick_offset))`
  unfoldable pub expiry_deadline : EndpointCore Stream → ℕ → ℕ → ℕ
  expiry_deadline core elapsed_ms deadline =
      let tick_offset = add64 core.config.boot_time_ms elapsed_ms % 2 ^ ts_shift in
      elim (next_expiry_delay_ms core.sequence_filter (current_time core elapsed_ms)
        sequence_soft_cap) [
          | none ↦ deadline
          | some delay ↦ min deadline (add64 elapsed_ms (delay - tick_offset))
        ]

  unfoldable pub next_deadline : EndpointCore Stream → ℕ → ℕ
  next_deadline core elapsed_ms =
      let sessions = least_session elapsed_ms core.sessions (2 ^ 64 - 1) in
      let samples = least_sample core.outstanding (least_tombstone core.tombstones sessions) in
      let keepalive =
        if core.config.keepalive_interval_ms == 0
        then samples
        else min samples core.next_keepalive_at in
      expiry_deadline core elapsed_ms keepalive
