-- ===== src/Endpoint/Consistency/Messages.antt =====
-- crates/raynet-core/src/endpoint.rs: what the handlers of packets and messages keep.
use raynet.Prelude.{
  ℕ, ◌≡◌, refl, true, not, List, [], ◌∷◌, Option, some, length, is_some, ltb, ◌==◌, Bool-cases,
  Option-cases, inl, inr, returns,
}
use raynet.Prelude.Outcomes.{Ensures-bind, Ensures-after, check_that}
use raynet.Prelude.Assoc.{lookup, remove, AllValues-lookup, AllValues-remove}
use raynet.Endpoint.{EndpointCore, FeedbackSample, packet_id}
use raynet.Endpoint.Session.{
  EndpointSession, SessionPhase, SessionOutput, pending_remote, opened, closing_local,
  closing_remote, input_packet, new_session,
}
use raynet.Endpoint.Sending.{Running, push, send_kcp_packets, open_endpoint_message, current_time}
use raynet.Endpoint.Closing.{put_session, count_dropped, queue_local_close}
use raynet.Endpoint.Receiving.{
  handle_open, handle_data, handle_close, handle_message, handle_session_message,
  handle_session_messages, session_for, is_foreign, note_reply, depth_in, input_session,
  handle_kcp_packet, handle_endpoint_message, send_reply, accept_message, accept_opened,
  accept_envelope, handle_transport_packet,
}
use raynet.Endpoint.Consistency.{
  IsPhased, IsConsistent, Keeps, LeadsHome, planned-IsConsistent, send_kcp_packets-Keeps,
  send_endpoint_message-Keeps,
}
use raynet.Endpoint.Consistency.Sessions.{
  SamePhase, SamePhase-IsPhased, input_packet-SamePhase, put_session-IsConsistent,
  drop_session-IsConsistent, session-IsPhased, finish_closed_session-Keeps, queue_local_close-Keeps,
}
use raynet.Kcp.Codec.{ByteOrder, get_conv}
use raynet.Machine.Types.{ConvId, CoreMetrics}
use raynet.Machine.Checks.{receive_transport_packet, check_sequence}
use raynet.Packet.{Aead, RandomSource}
use raynet.Routing.Plans.Noting.{note_feedback-shape}
use raynet.Routing.Shape.{shape}
use raynet.Wire.Layout.{
  Envelope, EnvelopeStamp, stamp_of, EndpointMessage, kcp_packet, keep_alive, route_reply,
  SessionMessage, open_message, data_message, close_message,
}

module _ {Stream : Type 0} where
  handle_message-IsConsistent :
      (r : Running Stream) (elapsed_ms : ℕ) (conv_id : ConvId) (m : SessionMessage)
      (session : EndpointSession) (phase : SessionPhase)
      → session.phase ≡ phase
      → IsPhased session
      → IsConsistent r.core
      → IsConsistent (handle_message r elapsed_ms conv_id m session).core
  unfolding handle_message handle_open handle_data handle_close count_dropped push
  handle_message-IsConsistent r at c open_message session pending_remote e p v =
      rw (e, handle_open) (put_session-IsConsistent r.core c _ refl v)
  handle_message-IsConsistent r at c open_message session opened e p v = rw (e, handle_open) v
  handle_message-IsConsistent r at c open_message session closing_local e p v =
      rw (e, handle_open) v
  handle_message-IsConsistent r at c open_message session closing_remote e p v =
      rw (e, handle_open) v
  handle_message-IsConsistent r at c (data_message bytes) session pending_remote e p v =
      rw (e, handle_data) (drop_session-IsConsistent r.core c v)
  handle_message-IsConsistent r at c (data_message bytes) session opened e p v =
      rw (e, handle_data) v
  handle_message-IsConsistent r at c (data_message bytes) session closing_local e p v =
      rw (e, handle_data) v
  handle_message-IsConsistent r at c (data_message bytes) session closing_remote e p v =
      rw (e, handle_data) v
  handle_message-IsConsistent r at c (close_message reason) session pending_remote e p v =
      rw (e, handle_close) (drop_session-IsConsistent r.core c v)
  handle_message-IsConsistent r at c (close_message reason) session opened e p v =
      rw (e, handle_close) (put_session-IsConsistent r.core c _ refl v)
  handle_message-IsConsistent r at c (close_message reason) session closing_local e p v =
      rw (e, handle_close) v
  handle_message-IsConsistent r at c (close_message reason) session closing_remote e p v =
      rw (e, handle_close) v

  handle_session_message-IsConsistent :
      (r : Running Stream) (elapsed_ms : ℕ) (conv_id : ConvId) (m : SessionMessage)
      → IsConsistent r.core
      → IsConsistent (handle_session_message r elapsed_ms conv_id m).core
  unfolding handle_session_message
  handle_session_message-IsConsistent r at c m v = elim (Option-cases (lookup c r.core.sessions)) [
    | inl gone ↦ rw (gone, handle_session_message) v
    | inr (session, there) ↦
        rw (there, handle_session_message)
          (handle_message-IsConsistent r at c m session session.phase refl
            (session-IsPhased r.core c session there v) v)
  ]

  handle_session_messages-IsConsistent :
      (r : Running Stream) (elapsed_ms : ℕ) (conv_id : ConvId) (messages : List SessionMessage)
      → IsConsistent r.core
      → IsConsistent (handle_session_messages r elapsed_ms conv_id messages).core
  unfolding handle_session_messages
  handle_session_messages-IsConsistent r at c [] v = v
  handle_session_messages-IsConsistent r at c (m ∷ messages) v =
      handle_session_messages-IsConsistent (handle_session_message r at c m) at c messages
        (handle_session_message-IsConsistent r at c m v)

  session_for-IsPhased :
      (core : EndpointCore Stream) (elapsed_ms : ℕ) (conv_id : ConvId) (peer_seq : ℕ)
      → IsConsistent core
      → IsPhased (session_for core elapsed_ms conv_id peer_seq)
  unfolding session_for new_session
  session_for-IsPhased core at c peer v = elim (Option-cases (lookup c core.sessions)) [
    | inl gone ↦ rw (gone, session_for) refl
    | inr (session, there) ↦ rw (there, session_for) (session-IsPhased core c session there v)
  ]

  -- A reply to an outstanding sample never panics: its plan leads through the graph.
  pub note_reply-IsConsistent :
      (core : EndpointCore Stream) (packet : ℕ)
      → IsConsistent core
      → (core' : EndpointCore Stream) × (note_reply core packet ≡ returns core')
        × IsConsistent core'
  unfolding note_reply
  note_reply-IsConsistent core packet v = elim (Option-cases (lookup packet core.outstanding)) [
    | inl unknown ↦ (core, rw (unknown, note_reply), v)
    | inr (sample, there) ↦
        let leads =
          AllValues-lookup
            (λ (s : FeedbackSample). LeadsHome (shape core.route_planner.nodes) s.route_plan) packet
            sample core.outstanding there v.samples in
        let (planner, noted, kept) =
          note_feedback-shape core.route_planner sample.route_plan _ sample.sent_at true leads in
        let forgotten = record core { outstanding = remove packet core.outstanding } in
        (
          record core { outstanding = forgotten.outstanding; route_planner = planner },
          rw (there, note_reply, noted),
          planned-IsConsistent forgotten planner kept (record {
            graph = v.graph;
            samples =
                AllValues-remove
                  (λ (s : FeedbackSample). LeadsHome (shape core.route_planner.nodes) s.route_plan)
                  packet core.outstanding v.samples;
            phases = v.phases;
            id_lt = v.id_lt;
            next_le = v.next_le;
          }),
        )
  ]

module _ {Stream : Type 0} (order : ByteOrder) (aead : Aead) (source : RandomSource Stream) where
  input_session-Keeps :
      (r : Running Stream) (elapsed_ms : ℕ) (conv_id : ConvId) (session : EndpointSession)
      (packet : List ℕ)
      → IsPhased session
      → IsConsistent r.core
      → Keeps (input_session order aead source r elapsed_ms conv_id session packet)
  unfolding input_session
  input_session-Keeps r at c session packet phased v =
      let P = λ (q : Running Stream). IsConsistent q.core in
      Ensures-bind (λ (o : SessionOutput). SamePhase session o.session) P
        (input_packet order session at packet) _ (input_packet-SamePhase order session at packet)
        (λ output same.
          let stored = put_session r.core c output.session in
          let w =
            put_session-IsConsistent r.core c output.session
              (SamePhase-IsPhased session output.session same phased) v in
          Ensures-bind P P
            (send_kcp_packets source aead (record r { core = stored }) at output.packets) _
            (send_kcp_packets-Keeps source aead (record r { core = stored }) at output.packets w)
            (λ sent x.
              let told = handle_session_messages sent at c output.messages in
              Ensures-bind P P (queue_local_close order aead source told at c) _
                (queue_local_close-Keeps order aead source told at c
                  (handle_session_messages-IsConsistent sent at c output.messages x))
                (λ queued y. finish_closed_session-Keeps queued at c y)))

  handle_kcp_packet-Keeps :
      (r : Running Stream) (elapsed_ms peer_seq : ℕ) (packet : List ℕ)
      → IsConsistent r.core
      → Keeps (handle_kcp_packet order aead source r elapsed_ms peer_seq packet)
  unfolding handle_kcp_packet count_dropped
  handle_kcp_packet-Keeps r at peer packet v =
      let c = get_conv order packet in
      let session = session_for r.core at c peer in
      Ensures-after (λ (q : Running Stream). IsConsistent q.core)
        (check_that (not (ltb (length packet) 8))) _
        (λ _ _. elim (Bool-cases (is_some (lookup c r.core.tombstones))) [
          | inl entombed ↦ rw entombed v
          | inr free ↦ elim (Bool-cases (is_foreign session.peer_seq peer)) [
            | inl foreign ↦ rw (free, foreign) v
            | inr own ↦
                rw (free, own)
                  (input_session-Keeps r at c (record session { peer_seq = some peer }) packet
                    (session_for-IsPhased r.core at c peer v) v)
          ]
        ])

  handle_endpoint_message-Keeps :
      (r : Running Stream) (elapsed_ms peer_seq : ℕ) (m : EndpointMessage)
      → IsConsistent r.core
      → Keeps (handle_endpoint_message order aead source r elapsed_ms peer_seq m)
  unfolding handle_endpoint_message
  handle_endpoint_message-Keeps r at peer (kcp_packet depth packet) v =
      handle_kcp_packet-Keeps r at peer packet v
  handle_endpoint_message-Keeps r at peer (keep_alive depth) v = v
  handle_endpoint_message-Keeps r at peer (route_reply depth a b) v =
      let (core, noted, w) = note_reply-IsConsistent r.core (packet_id a b) v in rw noted w

  send_reply-Keeps :
      (r : Running Stream) (elapsed_ms : ℕ) (stamp : EnvelopeStamp) (reply_depth : ℕ)
      → IsConsistent r.core
      → Keeps (send_reply order aead source r elapsed_ms stamp reply_depth)
  unfolding send_reply
  send_reply-Keeps r at stamp depth v = elim (Bool-cases (depth == 0)) [
    | inl silent ↦ rw silent v
    | inr asked ↦ rw asked (send_endpoint_message-Keeps source aead r at _ _ v)
  ]

  accept_message-Keeps :
      (r : Running Stream) (elapsed_ms : ℕ) (stamp : EnvelopeStamp) (m : EndpointMessage)
      → IsConsistent r.core
      → Keeps (accept_message order aead source r elapsed_ms stamp m)
  unfolding accept_message
  accept_message-Keeps r at stamp m v =
      let P = λ (q : Running Stream). IsConsistent q.core in
      let checked =
        check_sequence r.core.sequence_filter r.core.metrics (current_time r.core at) stamp in
      elim (Bool-cases checked.passes) [
        | inr refused ↦ rw refused v
        | inl passes ↦ rw passes (
            Ensures-bind P P _ _ (handle_endpoint_message-Keeps _ at stamp.seq_id m v)
              (λ r' w. send_reply-Keeps r' at stamp (depth_in m) w))
      ]

  accept_envelope-Keeps :
      (r : Running Stream) (elapsed_ms : ℕ) (envelope : Envelope)
      → IsConsistent r.core
      → Keeps (accept_envelope order aead source r elapsed_ms envelope)
  unfolding accept_envelope accept_opened count_dropped
  accept_envelope-Keeps r at envelope v =
      let stamp = stamp_of envelope in
      elim (Bool-cases (length envelope.route_plan == 0)) [
        | inr routed ↦ rw routed v
        | inl arrived ↦ rw arrived (
            Ensures-after (λ (q : Running Stream). IsConsistent q.core)
              (open_endpoint_message aead r.core stamp envelope.payload) _
              (λ message _. elim (Option-cases message) [
                | inl sealed ↦ rw (sealed, accept_opened) v
                | inr (m, e) ↦ rw (e, accept_opened) (accept_message-Keeps r at stamp m v)
              ]))
      ]

  pub handle_transport_packet-Keeps :
      (r : Running Stream) (elapsed_ms : ℕ) (bytes : List ℕ)
      → IsConsistent r.core
      → Keeps (handle_transport_packet order aead source r elapsed_ms bytes)
  unfolding handle_transport_packet
  handle_transport_packet-Keeps r at bytes v =
      let received : CoreMetrics × Option Envelope =
        receive_transport_packet aead r.core.config.envelope_key r.core.metrics bytes in
      elim (Option-cases received.1) [
        | inl lost ↦ rw (lost, handle_transport_packet) v
        | inr (envelope, e) ↦
            rw (e, handle_transport_packet) (accept_envelope-Keeps _ at envelope v)
      ]
