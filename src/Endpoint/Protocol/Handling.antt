-- ===== src/Endpoint/Protocol/Handling.antt =====
-- crates/raynet-core/src/endpoint.rs: whatever arrives, the endpoint follows the protocol of the
-- actions.
use raynet.Prelude.{
  ℕ, ◌≡◌, refl, ◌∙◌, ap, true, List, [], ◌∷◌, some, ◌==◌, if◌then◌else◌, Bool-cases, Option-cases,
  inl, inr, arith,
}
use raynet.Prelude.Outcomes.{Ensures, Ensures-after, unwrap}
use raynet.Prelude.Assoc.{lookup, remove, lookup-insert_sorted, lookup-remove}
use raynet.Endpoint.{EndpointCore}
use raynet.Endpoint.Session.{
  EndpointSession, SessionPhase, pending_remote, opened, closing_local, closing_remote,
}
use raynet.Endpoint.Sending.{Running, push}
use raynet.Endpoint.Closing.{
  put_session, drop_session, count_dropped, entomb, is_done, bury, finish_closed_session,
}
use raynet.Endpoint.Receiving.{
  handle_open, handle_data, handle_close, handle_message, handle_session_message,
  handle_session_messages,
}
use raynet.Endpoint.Protocol.{View, idle, live, view, view_phase, Obeys, silent, Obeys-trans}
use raynet.Machine.Types.{ConvId, open_session, write_session, close_session}
use raynet.Wire.Layout.{SessionMessage, open_message, data_message, close_message}

module _ {Stream : Type 0} where
  -- Where the changed conversation is the one in question, and where it is another.
  pub view_put :
      (core : EndpointCore Stream) (c d : ConvId) (session : EndpointSession)
      → view (lookup d (put_session core c session).sessions)
        ≡ (if c == d then view_phase session.phase else view (lookup d core.sessions))
  view_put core c d session = elim (Bool-cases (c == d)) [
    | inl same ↦ rw (lookup-insert_sorted c d session core.sessions, same)
    | inr other ↦ rw (lookup-insert_sorted c d session core.sessions, other)
  ]

  pub view_drop :
      (core : EndpointCore Stream) (c d : ConvId)
      → view (lookup d (drop_session core c).sessions)
        ≡ (if c == d then idle else view (lookup d core.sessions))
  view_drop core c d = elim (Bool-cases (c == d)) [
    | inl same ↦ rw (lookup-remove c d core.sessions, same)
    | inr other ↦ rw (lookup-remove c d core.sessions, other)
  ]

  same_view :
      (core : EndpointCore Stream) (c d : ConvId) (v : View)
      → v ≡ view (lookup c core.sessions)
      → (if c == d then v else view (lookup d core.sessions)) ≡ view (lookup d core.sessions)
  same_view core c d v e = elim (Bool-cases (c == d)) [
    | inl same ↦
        let equal : c ≡ d = ground (arith, same) in
        rw same (e ∙ ap (λ (k : ℕ). view (lookup k core.sessions)) equal)
    | inr other ↦ rw other
  ]

  -- A session that is written back shows the same.
  pub put_session-Obeys :
      (r : Running Stream) (core : EndpointCore Stream) (c : ConvId) (session : EndpointSession)
      → core.sessions ≡ r.core.sessions
      → view_phase session.phase ≡ view (lookup c r.core.sessions)
      → Obeys r (record r { core = put_session core c session })
  put_session-Obeys r core c session e same =
      silent r (record r { core = put_session core c session }) refl
        (λ d.
          view_put core c d session
          ∙ ap
              (λ (m : List (ℕ × EndpointSession)).
                if c == d then view_phase session.phase else view (lookup d m))
              e
          ∙ same_view r.core c d (view_phase session.phase) same)

  pub drop_session-Obeys :
      (r s : Running Stream) (c : ConvId)
      → s.actions ≡ r.actions
      → s.core.sessions ≡ remove c r.core.sessions
      → idle ≡ view (lookup c r.core.sessions)
      → Obeys r s
  drop_session-Obeys r s c a e same = silent r s a (λ d.
      ap (λ (m : List (ℕ × EndpointSession)). view (lookup d m)) e
      ∙ view_drop r.core c d
      ∙ same_view r.core c d idle same)

  bury-Obeys :
      (r : Running Stream) (elapsed_ms : ℕ) (c : ConvId) (session : EndpointSession)
      (phase : SessionPhase)
      → lookup c r.core.sessions ≡ some session
      → session.phase ≡ phase
      → is_done session elapsed_ms phase ≡ true
      → Ensures
          (Obeys r)
          (bury (record r { core = drop_session r.core c }) elapsed_ms c session phase)
  unfolding bury is_done count_dropped entomb push
  bury-Obeys r at c session pending_remote there e done =
      drop_session-Obeys r _ c refl refl (rw (there, e))
  bury-Obeys r at c session opened there e done = absurd (cc done)
  bury-Obeys r at c session closing_remote there e done =
      drop_session-Obeys r _ c refl refl (rw (there, e))
  bury-Obeys r at c session closing_local there e done =
      Ensures-after (Obeys r) (unwrap session.pending_close) _ (λ reason _. record {
        pushed = close_session c reason ∷ [];
        actions_eq = refl;
        follows = λ d. rw (view_drop r.core c d) (elim (Bool-cases (c == d)) [
          | inl same ↦
              let equal : d ≡ c = ground (arith, same) in
              let now : view (lookup d r.core.sessions) ≡ live = rw (equal, there, e) in
              rw (same, now)
          | inr other ↦ rw other
        ]);
      })

  pub finish_closed_session-Obeys :
      (r : Running Stream) (elapsed_ms : ℕ) (c : ConvId)
      → Ensures (Obeys r) (finish_closed_session r elapsed_ms c)
  unfolding finish_closed_session
  finish_closed_session-Obeys r at c = elim (Option-cases (lookup c r.core.sessions)) [
    | inl gone ↦ rw (gone, finish_closed_session) (silent r r refl (λ d. refl))
    | inr (session, there) ↦ elim (Bool-cases (is_done session at session.phase)) [
      | inr stays ↦ rw (there, finish_closed_session, stays) (silent r r refl (λ d. refl))
      | inl over ↦
          rw (there, finish_closed_session, over)
            (bury-Obeys r at c session session.phase there refl over)
    ]
  ]

  handle_message-Obeys :
      (r : Running Stream) (elapsed_ms : ℕ) (c : ConvId) (m : SessionMessage)
      (session : EndpointSession) (phase : SessionPhase)
      → lookup c r.core.sessions ≡ some session
      → session.phase ≡ phase
      → Obeys r (handle_message r elapsed_ms c m session)
  unfolding handle_message handle_open handle_data handle_close count_dropped push
  handle_message-Obeys r at c open_message session pending_remote there e =
      rw (e, handle_open)
        (record {
          pushed = open_session c ∷ [];
          actions_eq = refl;
          follows = λ d. rw (view_put r.core c d _) (elim (Bool-cases (c == d)) [
            | inl same ↦
                let equal : d ≡ c = ground (arith, same) in
                let now : view (lookup d r.core.sessions) ≡ idle = rw (equal, there, e) in
                rw (same, now)
            | inr other ↦ rw other
          ]);
        })
  handle_message-Obeys r at c open_message session opened there e =
      rw (e, handle_open) (silent r r refl (λ d. refl))
  handle_message-Obeys r at c open_message session closing_local there e =
      rw (e, handle_open) (silent r _ refl (λ d. refl))
  handle_message-Obeys r at c open_message session closing_remote there e =
      rw (e, handle_open) (silent r _ refl (λ d. refl))
  handle_message-Obeys r at c (data_message bytes) session pending_remote there e =
      rw (e, handle_data) (drop_session-Obeys r _ c refl refl (rw (there, e)))
  handle_message-Obeys r at c (data_message bytes) session opened there e =
      rw (e, handle_data)
        (record {
          pushed = write_session c bytes ∷ [];
          actions_eq = refl;
          follows = λ d. elim (Bool-cases (c == d)) [
            | inl same ↦
                let equal : d ≡ c = ground (arith, same) in
                let now : view (lookup d r.core.sessions) ≡ live = rw (equal, there, e) in
                rw (same, now)
            | inr other ↦ rw other
          ];
        })
  handle_message-Obeys r at c (data_message bytes) session closing_local there e =
      rw (e, handle_data) (silent r _ refl (λ d. refl))
  handle_message-Obeys r at c (data_message bytes) session closing_remote there e =
      rw (e, handle_data) (silent r _ refl (λ d. refl))
  handle_message-Obeys r at c (close_message reason) session pending_remote there e =
      rw (e, handle_close) (drop_session-Obeys r _ c refl refl (rw (there, e)))
  handle_message-Obeys r at c (close_message reason) session opened there e =
      rw (e, handle_close)
        (record {
          pushed = close_session c reason ∷ [];
          actions_eq = refl;
          follows = λ d. rw (view_put r.core c d _) (elim (Bool-cases (c == d)) [
            | inl same ↦
                let equal : d ≡ c = ground (arith, same) in
                let now : view (lookup d r.core.sessions) ≡ live = rw (equal, there, e) in
                rw (same, now)
            | inr other ↦ rw other
          ]);
        })
  handle_message-Obeys r at c (close_message reason) session closing_local there e =
      rw (e, handle_close) (silent r r refl (λ d. refl))
  handle_message-Obeys r at c (close_message reason) session closing_remote there e =
      rw (e, handle_close) (silent r r refl (λ d. refl))

  handle_session_message-Obeys :
      (r : Running Stream) (elapsed_ms : ℕ) (c : ConvId) (m : SessionMessage)
      → Obeys r (handle_session_message r elapsed_ms c m)
  unfolding handle_session_message
  handle_session_message-Obeys r at c m = elim (Option-cases (lookup c r.core.sessions)) [
    | inl gone ↦ rw (gone, handle_session_message) (silent r r refl (λ d. refl))
    | inr (session, there) ↦
        rw (there, handle_session_message)
          (handle_message-Obeys r at c m session session.phase there refl)
  ]

  pub handle_session_messages-Obeys :
      (r : Running Stream) (elapsed_ms : ℕ) (c : ConvId) (messages : List SessionMessage)
      → Obeys r (handle_session_messages r elapsed_ms c messages)
  unfolding handle_session_messages
  handle_session_messages-Obeys r at c [] = silent r r refl (λ d. refl)
  handle_session_messages-Obeys r at c (m ∷ messages) =
      let s = handle_session_message r at c m in
      Obeys-trans r s (handle_session_messages s at c messages)
        (handle_session_message-Obeys r at c m) (handle_session_messages-Obeys s at c messages)
