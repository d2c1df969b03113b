-- ===== src/Endpoint/Protocol/Polls.antt =====
-- crates/raynet-core/src/endpoint.rs: `poll` follows the protocol of the actions where no sender
-- expires under a session that its peer has closed.
use raynet.Prelude.{
  ℕ, ◌≡◌, ◌≢◌, refl, ap, not, ◌&&◌, List, [], ◌∷◌, map, some, leb, ◌==◌, if◌then◌else◌, Bool-cases,
  Option-cases, inl, inr, Outcome, returns, panics, arith,
}
use raynet.Prelude.Outcomes.{Ensures, Ensures-bind, Ensures-after, Ensures-imp}
use raynet.Prelude.Assoc.{lookup, AllValues, AllValues-remove, AllValues-lookup}
use raynet.Endpoint.{EndpointCore, sequence_soft_cap}
use raynet.Sequence.Filter.{remove_expired}
use raynet.Endpoint.Session.{
  EndpointSession, SessionPhase, pending_remote, opened, closing_local, closing_remote,
  poll_session,
}
use raynet.Endpoint.Sending.{Running, push, current_time, send_kcp_packets}
use raynet.Endpoint.Closing.{
  put_session, drop_session, entomb, queue_local_close, finish_closed_session,
}
use raynet.Endpoint.Expiry.{
  retain_tombstones, is_pending, convs_of, expire_feedback, expire_samples, reset_sessions,
  reset_senders, expire_sequences,
}
use raynet.Endpoint.Events.{poll_sessions, send_keepalive, poll}
use raynet.Endpoint.Consistency.Sessions.{SamePhase, poll_session-SamePhase}
use raynet.Endpoint.Protocol.{
  live, view, view_phase, Obeys, silent, Obeys-trans, Obeys-from, Obeys-bind,
  send_kcp_packets-Obeys, send_endpoint_message-Obeys,
}
use raynet.Endpoint.Protocol.Handling.{
  view_drop, drop_session-Obeys, put_session-Obeys, finish_closed_session-Obeys,
}
use raynet.Endpoint.Protocol.Packets.{queue_local_close-Obeys}
use raynet.Kcp.Codec.{ByteOrder}
use raynet.Machine.Types.{ConvId, reset, close_session}
use raynet.Packet.{Aead, RandomSource}

-- The peer has not closed the session.
abbrev pub IsUnclosed : EndpointSession → Type 0
IsUnclosed session = session.phase ≢ closing_remote

module _ {Stream : Type 0} where
  -- One round of the inner loop of `expire_sequences`.
  abbrev reset_one : Running Stream → ℕ → ConvId → SessionPhase → Running Stream
  reset_one r elapsed_ms c phase =
      let dropped = record r { core = drop_session r.core c } in
      let told = (if is_pending phase then dropped else push dropped (close_session c reset)) in
      record told { core = entomb told.core elapsed_ms c }

  -- The end of a session that the shell sees.
  reset_live :
      (r s : Running Stream) (c : ConvId)
      → s.actions ≡ (push r (close_session c reset)).actions
      → s.core.sessions ≡ (drop_session r.core c).sessions
      → view (lookup c r.core.sessions) ≡ live
      → Obeys r s
  unfolding push
  reset_live r s c same dropped seen = record {
    pushed = close_session c reset ∷ [];
    actions_eq = same;
    follows = λ d.
        rw (dropped, view_drop r.core c d)
          (elim (Bool-cases (c == d)) [
            | inl equal ↦
                let e : c ≡ d = ground (arith, equal) in
                let now : view (lookup d r.core.sessions) ≡ live = rw e at seen in rw (equal, now)
            | inr other ↦ rw other
          ]);
  }

  reset_one-Obeys :
      (r : Running Stream) (elapsed_ms : ℕ) (c : ConvId) (session : EndpointSession)
      (phase : SessionPhase)
      → lookup c r.core.sessions ≡ some session
      → session.phase ≡ phase
      → IsUnclosed session
      → Obeys r (reset_one r elapsed_ms c phase)
  unfolding entomb push
  reset_one-Obeys r at c session pending_remote there e apart =
      drop_session-Obeys r _ c refl refl (rw (there, e))
  reset_one-Obeys r at c session opened there e apart = reset_live r _ c refl refl (rw (there, e))
  reset_one-Obeys r at c session closing_local there e apart =
      reset_live r _ c refl refl (rw (there, e))
  reset_one-Obeys r at c session closing_remote there e apart = absurd (apart e)

  -- What a step promises that leaves only sessions that are not closed.
  record Resets (r r' : Running Stream) : Type 0 where
    pub obeys : Obeys r r'
    pub unclosed : AllValues IsUnclosed r'.core.sessions

  Resets-from :
      (r s : Running Stream)
      → Obeys r s
      → (m : Outcome (Running Stream)) → Ensures (Resets s) m
      → Ensures (Resets r) m
  Resets-from r s o (returns t) h = record {
    obeys = Obeys-trans r s t o h.obeys;
    unclosed = h.unclosed;
  }
  Resets-from r s o panics h = tt

  reset_sessions-Resets :
      (conv_ids : List ConvId) (r : Running Stream) (elapsed_ms : ℕ)
      → AllValues IsUnclosed r.core.sessions
      → Ensures (Resets r) (reset_sessions r elapsed_ms conv_ids)
  unfolding reset_sessions entomb push
  reset_sessions-Resets [] r at v = record { obeys = silent r r refl (λ d. refl); unclosed = v }
  reset_sessions-Resets (c ∷ conv_ids) r at v = elim (Option-cases (lookup c r.core.sessions)) [
    | inl gone ↦ rw gone tt
    | inr (session, there) ↦
        let apart = AllValues-lookup IsUnclosed c session r.core.sessions there v in
        let s = reset_one r at c session.phase in
        let kept : AllValues IsUnclosed s.core.sessions =
          elim (Bool-cases (is_pending session.phase)) [
            | inl pending ↦ rw pending (AllValues-remove IsUnclosed c r.core.sessions v)
            | inr other ↦ rw other (AllValues-remove IsUnclosed c r.core.sessions v)
          ] in
        rw there (
          Resets-from r s (reset_one-Obeys r at c session session.phase there refl apart) _
            (reset_sessions-Resets conv_ids s at kept))
  ]

  reset_senders-Resets :
      (expired : List ℕ) (r : Running Stream) (elapsed_ms : ℕ)
      → AllValues IsUnclosed r.core.sessions
      → Ensures (Resets r) (reset_senders r elapsed_ms expired)
  unfolding reset_senders
  reset_senders-Resets [] r at v = record { obeys = silent r r refl (λ d. refl); unclosed = v }
  reset_senders-Resets (seq_id ∷ expired) r at v =
      Ensures-bind (Resets r) (Resets r) (reset_sessions r at (convs_of seq_id r.core.sessions)) _
        (reset_sessions-Resets (convs_of seq_id r.core.sessions) r at v)
        (λ s x.
          Resets-from r s x.obeys (reset_senders s at expired)
            (reset_senders-Resets expired s at x.unclosed))

  expire_sequences-Obeys :
      (r : Running Stream) (elapsed_ms : ℕ)
      → AllValues IsUnclosed r.core.sessions
      → Ensures (Obeys r) (expire_sequences r elapsed_ms)
  unfolding expire_sequences
  expire_sequences-Obeys r at v =
      let (filter, expired) =
        remove_expired r.core.sequence_filter (current_time r.core at) sequence_soft_cap in
      let s = record r { core = record r.core { sequence_filter = filter } } in
      Obeys-from r s (silent r s refl (λ d. refl)) (reset_senders s at expired) (
        Ensures-imp (Resets s) (Obeys s) (reset_senders s at expired) (λ t x. x.obeys)
          (reset_senders-Resets expired s at v))

  expire_feedback-sessions :
      (core : EndpointCore Stream) (elapsed_ms : ℕ)
      → Ensures
          (λ (core' : EndpointCore Stream). core'.sessions ≡ core.sessions)
          (expire_feedback core elapsed_ms)
  unfolding expire_feedback
  expire_feedback-sessions core at =
      Ensures-after (λ (core' : EndpointCore Stream). core'.sessions ≡ core.sessions)
        (expire_samples at core.outstanding core.route_planner) _ (λ expired _. refl)

module _ {Stream : Type 0} (order : ByteOrder) (aead : Aead) (source : RandomSource Stream) where
  poll_sessions-Obeys :
      (conv_ids : List ConvId) (r : Running Stream) (elapsed_ms : ℕ)
      → Ensures (Obeys r) (poll_sessions order aead source r elapsed_ms conv_ids)
  unfolding poll_sessions
  poll_sessions-Obeys [] r at = silent r r refl (λ d. refl)
  poll_sessions-Obeys (c ∷ conv_ids) r at =
      Obeys-bind r (queue_local_close order aead source r at c) _
        (queue_local_close-Obeys order aead source r at c)
        (λ queued. elim (Option-cases (lookup c queued.core.sessions)) [
          | inl gone ↦ rw gone tt
          | inr (session, there) ↦ rw there (
              Ensures-bind (λ (p : EndpointSession × List (List ℕ)). SamePhase session p.0)
                (Obeys queued) (poll_session order session at) _
                (poll_session-SamePhase order session at)
                (λ polled same.
                  let stored = record queued { core = put_session queued.core c polled.0 } in
                  Obeys-from queued stored
                    (put_session-Obeys queued queued.core c polled.0 refl
                      (rw there (ap view_phase same.0)))
                    _
                    (Obeys-bind stored (send_kcp_packets source aead stored at polled.1) _
                      (send_kcp_packets-Obeys source aead stored at polled.1)
                      (λ sent.
                        Obeys-bind sent (finish_closed_session sent at c) _
                          (finish_closed_session-Obeys sent at c)
                          (λ finished. poll_sessions-Obeys conv_ids finished at)))))
        ])

  send_keepalive-Obeys :
      (r : Running Stream) (elapsed_ms : ℕ)
      → Ensures (Obeys r) (send_keepalive order aead source r elapsed_ms)
  unfolding send_keepalive
  send_keepalive-Obeys r at =
      Obeys-bind r _ _ (send_endpoint_message-Obeys source aead r at _ _)
        (λ sent. silent sent _ refl (λ d. refl))

  -- A poll without a panic, at whatever time, where the peers have closed none of the sessions: what the
  -- endpoint then tells the shell follows the protocol of every conversation, the end of those whose
  -- sender expires or whose deadline passes included; and what the shell then sees is what the
  -- sessions show.
  pub poll-Obeys :
      (r : Running Stream) (elapsed_ms : ℕ)
      → AllValues IsUnclosed r.core.sessions
      → Ensures (Obeys r) (poll order aead source r elapsed_ms)
  unfolding poll
  poll-Obeys r at v =
      Ensures-bind (λ (core : EndpointCore Stream). core.sessions ≡ r.core.sessions) (Obeys r)
        (expire_feedback r.core at) _ (expire_feedback-sessions r.core at)
        (λ core same.
          let s = record r { core = core } in
          Obeys-from r s (silent r s refl (λ d. rw same)) _ (
            Obeys-bind s (expire_sequences s at) _ (expire_sequences-Obeys s at (rw same v))
              (λ expired.
                let retained = record expired.core {
                  tombstones = retain_tombstones at expired.core.tombstones;
                } in
                let t = record expired { core = retained } in
                Obeys-from expired t (silent expired t refl (λ d. refl)) _ (
                  Obeys-bind t
                    (poll_sessions order aead source t at
                      (map (λ entry. entry.0) retained.sessions))
                    _ (poll_sessions-Obeys (map (λ entry. entry.0) retained.sessions) t at)
                    (λ polled.
                      elim (Bool-cases (
                        not (polled.core.config.keepalive_interval_ms == 0)
                        && leb polled.core.next_keepalive_at at)) [
                          | inr quiet ↦ rw quiet (silent polled polled refl (λ d. refl))
                          | inl due ↦ rw due (send_keepalive-Obeys polled at)
                        ])))))
