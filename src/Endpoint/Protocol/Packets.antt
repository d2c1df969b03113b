-- ===== src/Endpoint/Protocol/Packets.antt =====
-- crates/raynet-core/src/endpoint.rs: a packet that arrives, whatever it holds, makes the endpoint
-- push only actions that the protocol of their conversation allows.
use raynet.Prelude.{
  ℕ, ◌≡◌, refl, ◌∙◌, ap, true, not, List, Option, some, length, ltb, ◌==◌, is_some, Bool-cases,
  Option-cases, inl, inr,
}
use raynet.Prelude.Outcomes.{Ensures, Ensures-bind, Ensures-after, check_that, unwrap}
use raynet.Prelude.Assoc.{lookup}
use raynet.Endpoint.{EndpointCore, packet_id}
use raynet.Endpoint.Session.{
  EndpointSession, SessionOutput, send_message, input_packet, new_session,
}
use raynet.Endpoint.Sending.{Running, send_kcp_packets, current_time, open_endpoint_message}
use raynet.Endpoint.Closing.{
  put_session, count_dropped, may_queue, send_session_message, send_close, queue_found,
  queue_local_close,
}
use raynet.Endpoint.Receiving.{
  handle_session_messages, session_for, is_foreign, note_reply, depth_in, input_session,
  handle_kcp_packet, handle_endpoint_message, send_reply, accept_message, accept_opened,
  accept_envelope, handle_transport_packet,
}
use raynet.Endpoint.Consistency.Sessions.{SamePhase, send_message-SamePhase, input_packet-SamePhase}
use raynet.Endpoint.Protocol.{
  view, view_phase, Obeys, silent, Obeys-from, Obeys-bind, send_kcp_packets-Obeys,
  send_endpoint_message-Obeys,
}
use raynet.Kcp.Codec.{ByteOrder, get_conv}
use raynet.Machine.Types.{ConvId, CoreMetrics}
use raynet.Machine.Checks.{receive_transport_packet, check_sequence}
use raynet.Packet.{Aead, RandomSource}
use raynet.Wire.Layout.{
  Envelope, EnvelopeStamp, stamp_of, EndpointMessage, kcp_packet, keep_alive, route_reply,
  SessionMessage, close_message,
}
use raynet.Endpoint.Protocol.Handling.{
  put_session-Obeys, finish_closed_session-Obeys, handle_session_messages-Obeys,
}
use raynet.Routing.Feedback.{note_feedback}

module _ {Stream : Type 0} where
  session_for-view :
      (core : EndpointCore Stream) (elapsed_ms : ℕ) (c : ConvId) (peer_seq : ℕ)
      → view_phase (session_for core elapsed_ms c peer_seq).phase ≡ view (lookup c core.sessions)
  unfolding session_for new_session
  session_for-view core at c peer = elim (Option-cases (lookup c core.sessions)) [
    | inl gone ↦ rw (gone, session_for)
    | inr (session, there) ↦ rw (there, session_for)
  ]

  note_reply-sessions :
      (core : EndpointCore Stream) (packet : ℕ)
      → Ensures
          (λ (core' : EndpointCore Stream). core'.sessions ≡ core.sessions)
          (note_reply core packet)
  unfolding note_reply
  note_reply-sessions core packet = elim (Option-cases (lookup packet core.outstanding)) [
    | inl unknown ↦ rw (unknown, note_reply) refl
    | inr (sample, there) ↦
        rw (there, note_reply)
          (Ensures-after (λ (core' : EndpointCore Stream). core'.sessions ≡ core.sessions)
            (note_feedback core.route_planner sample.route_plan sample.sent_at true) _
            (λ planner _. refl))
  ]

module _ {Stream : Type 0} (order : ByteOrder) (aead : Aead) (source : RandomSource Stream) where
  pub send_session_message-Obeys :
      (r : Running Stream) (elapsed_ms : ℕ) (c : ConvId) (m : SessionMessage)
      → Ensures (Obeys r) (send_session_message order aead source r elapsed_ms c m)
  unfolding send_session_message
  send_session_message-Obeys r at c m = elim (Option-cases (lookup c r.core.sessions)) [
    | inl gone ↦ rw gone tt
    | inr (session, there) ↦ rw there (
        Ensures-bind (λ (p : EndpointSession × List (List ℕ)). SamePhase session p.0) (Obeys r)
          (send_message order session at m) _ (send_message-SamePhase order session at m)
          (λ sent same.
            let stored = record r { core = put_session r.core c sent.0 } in
            Obeys-from r stored
              (put_session-Obeys r r.core c sent.0 refl (rw there (ap view_phase same.0))) _
              (Obeys-bind stored (send_kcp_packets source aead stored at sent.1) _
                (send_kcp_packets-Obeys source aead stored at sent.1)
                (λ s. finish_closed_session-Obeys s at c))))
  ]

  send_close-Obeys :
      (r : Running Stream) (elapsed_ms : ℕ) (c : ConvId) (session : EndpointSession)
      → lookup c r.core.sessions ≡ some session
      → Ensures (Obeys r) (send_close order aead source r elapsed_ms c session)
  unfolding send_close
  send_close-Obeys r at c session there =
      let queued = record session { close_queued = true } in
      let s = record r { core = put_session r.core c queued } in
      Ensures-after (Obeys r) (unwrap session.pending_close) _ (λ reason _.
        Obeys-from r s (put_session-Obeys r r.core c queued refl (rw there)) _
          (send_session_message-Obeys s at c (close_message reason)))

  pub queue_local_close-Obeys :
      (r : Running Stream) (elapsed_ms : ℕ) (c : ConvId)
      → Ensures (Obeys r) (queue_local_close order aead source r elapsed_ms c)
  unfolding queue_local_close queue_found
  queue_local_close-Obeys r at c = elim (Option-cases (lookup c r.core.sessions)) [
    | inl gone ↦ rw (gone, queue_found) (silent r r refl (λ d. refl))
    | inr (session, there) ↦
        rw (there, queue_found)
          (Ensures-after (Obeys r)
            (may_queue session at r.core.config.kcp.send_window session.phase) _
            (λ may _. elim (Bool-cases may) [
              | inr stays ↦ rw stays (silent r r refl (λ d. refl))
              | inl goes ↦ rw goes (send_close-Obeys r at c session there)
            ]))
  ]

  input_session-Obeys :
      (r : Running Stream) (elapsed_ms : ℕ) (c : ConvId) (session : EndpointSession)
      (packet : List ℕ)
      → view_phase session.phase ≡ view (lookup c r.core.sessions)
      → Ensures (Obeys r) (input_session order aead source r elapsed_ms c session packet)
  unfolding input_session
  input_session-Obeys r at c session packet seen =
      Ensures-bind (λ (o : SessionOutput). SamePhase session o.session) (Obeys r)
        (input_packet order session at packet) _ (input_packet-SamePhase order session at packet)
        (λ output same.
          let stored = record r { core = put_session r.core c output.session } in
          Obeys-from r stored
            (put_session-Obeys r r.core c output.session refl (ap view_phase same.0 ∙ seen)) _
            (Obeys-bind stored (send_kcp_packets source aead stored at output.packets) _
              (send_kcp_packets-Obeys source aead stored at output.packets)
              (λ sent.
                let told = handle_session_messages sent at c output.messages in
                Obeys-from sent told (handle_session_messages-Obeys sent at c output.messages) _ (
                  Obeys-bind told (queue_local_close order aead source told at c) _
                    (queue_local_close-Obeys told at c)
                    (λ queued. finish_closed_session-Obeys queued at c)))))

  handle_kcp_packet-Obeys :
      (r : Running Stream) (elapsed_ms peer_seq : ℕ) (packet : List ℕ)
      → Ensures (Obeys r) (handle_kcp_packet order aead source r elapsed_ms peer_seq packet)
  unfolding handle_kcp_packet count_dropped
  handle_kcp_packet-Obeys r at peer packet =
      let c = get_conv order packet in
      let session = session_for r.core at c peer in
      Ensures-after (Obeys r) (check_that (not (ltb (length packet) 8))) _ (λ _ _.
        elim (Bool-cases (is_some (lookup c r.core.tombstones))) [
          | inl entombed ↦ rw entombed (silent r _ refl (λ d. refl))
          | inr free ↦ elim (Bool-cases (is_foreign session.peer_seq peer)) [
            | inl foreign ↦ rw (free, foreign) (silent r _ refl (λ d. refl))
            | inr own ↦
                rw (free, own)
                  (input_session-Obeys r at c (record session { peer_seq = some peer }) packet
                    (session_for-view r.core at c peer))
          ]
        ])

  handle_endpoint_message-Obeys :
      (r : Running Stream) (elapsed_ms peer_seq : ℕ) (m : EndpointMessage)
      → Ensures (Obeys r) (handle_endpoint_message order aead source r elapsed_ms peer_seq m)
  unfolding handle_endpoint_message
  handle_endpoint_message-Obeys r at peer (kcp_packet depth packet) =
      handle_kcp_packet-Obeys r at peer packet
  handle_endpoint_message-Obeys r at peer (keep_alive depth) = silent r r refl (λ d. refl)
  handle_endpoint_message-Obeys r at peer (route_reply depth a b) =
      Ensures-bind (λ (core' : EndpointCore Stream). core'.sessions ≡ r.core.sessions) (Obeys r)
        (note_reply r.core (packet_id a b)) _ (note_reply-sessions r.core (packet_id a b))
        (λ core e. silent r (record r { core = core }) refl (λ d. rw e))

  send_reply-Obeys :
      (r : Running Stream) (elapsed_ms : ℕ) (stamp : EnvelopeStamp) (reply_depth : ℕ)
      → Ensures (Obeys r) (send_reply order aead source r elapsed_ms stamp reply_depth)
  unfolding send_reply
  send_reply-Obeys r at stamp depth = elim (Bool-cases (depth == 0)) [
    | inl quiet ↦ rw quiet (silent r r refl (λ d. refl))
    | inr asked ↦ rw asked (send_endpoint_message-Obeys source aead r at _ _)
  ]

  accept_message-Obeys :
      (r : Running Stream) (elapsed_ms : ℕ) (stamp : EnvelopeStamp) (m : EndpointMessage)
      → Ensures (Obeys r) (accept_message order aead source r elapsed_ms stamp m)
  unfolding accept_message
  accept_message-Obeys r at stamp m =
      let checked =
        check_sequence r.core.sequence_filter r.core.metrics (current_time r.core at) stamp in
      elim (Bool-cases checked.passes) [
        | inr refused ↦ rw refused (silent r _ refl (λ d. refl))
        | inl passes ↦ rw passes (
            Obeys-from r _ (silent r _ refl (λ d. refl)) _ (
              Obeys-bind _ _ _ (handle_endpoint_message-Obeys _ at stamp.seq_id m)
                (λ s. send_reply-Obeys s at stamp (depth_in m))))
      ]

  accept_envelope-Obeys :
      (r : Running Stream) (elapsed_ms : ℕ) (envelope : Envelope)
      → Ensures (Obeys r) (accept_envelope order aead source r elapsed_ms envelope)
  unfolding accept_envelope accept_opened count_dropped
  accept_envelope-Obeys r at envelope =
      let stamp = stamp_of envelope in
      elim (Bool-cases (length envelope.route_plan == 0)) [
        | inr routed ↦ rw routed (silent r _ refl (λ d. refl))
        | inl arrived ↦ rw arrived (
            Ensures-after (Obeys r) (open_endpoint_message aead r.core stamp envelope.payload) _
              (λ message _. elim (Option-cases message) [
                | inl sealed ↦ rw (sealed, accept_opened) (silent r _ refl (λ d. refl))
                | inr (m, e) ↦ rw (e, accept_opened) (accept_message-Obeys r at stamp m)
              ]))
      ]

  -- Whatever bytes arrive, at whatever time and in whatever state: what the endpoint then tells the
  -- shell follows the protocol of every conversation. A session is opened only where none is seen,
  -- and written to and closed only where one is seen and not yet closed; and what the shell then
  -- sees is what the sessions show.
  pub handle_transport_packet-Obeys :
      (r : Running Stream) (elapsed_ms : ℕ) (bytes : List ℕ)
      → Ensures (Obeys r) (handle_transport_packet order aead source r elapsed_ms bytes)
  unfolding handle_transport_packet
  handle_transport_packet-Obeys r at bytes =
      let received : CoreMetrics × Option Envelope =
        receive_transport_packet aead r.core.config.envelope_key r.core.metrics bytes in
      elim (Option-cases received.1) [
        | inl lost ↦ rw (lost, handle_transport_packet) (silent r _ refl (λ d. refl))
        | inr (envelope, e) ↦
            let s = record r { core = record r.core { metrics = received.0 } } in
            rw (e, handle_transport_packet)
              (Obeys-from r s (silent r s refl (λ d. refl)) _ (accept_envelope-Obeys s at envelope))
      ]
