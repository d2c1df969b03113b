-- ===== src/Endpoint/Consistency/Calls.antt =====
-- crates/raynet-core/src/endpoint.rs: what `handle_event` and `poll` keep.
use raynet.Prelude.{
  ℕ, refl, ◌+◌, Bool, not, ◌&&◌, List, [], ◌∷◌, some, is_some, length, ltb, leb, ◌==◌, Bool-cases,
  Option-cases, Result-cases, inl, inr, add64, sub64,
}
use raynet.Prelude.Outcomes.{◌>>=◌, Ensures, Ensures-bind, Ensures-after, check_that, unwrap}
use raynet.Prelude.Assoc.{lookup, AllValues-remove}
use raynet.Endpoint.{FeedbackSample, packet_id}
use raynet.Endpoint.Session.{EndpointSession, opened, closing_local, new_session, poll_session}
use raynet.Endpoint.Sending.{Running, open_endpoint_message, send_envelope, send_kcp_packets}
use raynet.Endpoint.Closing.{
  put_session, send_session_message, queue_local_close, finish_closed_session,
}
use raynet.Endpoint.Expiry.{expire_sequences, forget_sample}
use raynet.Endpoint.Events.{
  open_event, write_event, close_event, send_again, failed_envelope, failed_event, received_event,
  handle_event, poll_sessions, send_keepalive, poll,
}
use raynet.Endpoint.Consistency.{
  IsConsistent, Keeps, LeadsHome, planned-IsConsistent, send_envelope-Keeps, send_kcp_packets-Keeps,
  send_endpoint_message-Keeps,
}
use raynet.Endpoint.Consistency.Sessions.{
  SamePhase, SamePhase-IsPhased, poll_session-SamePhase, put_session-IsConsistent, session-IsPhased,
  finish_closed_session-Keeps, send_session_message-Keeps, queue_local_close-Keeps,
}
use raynet.Endpoint.Consistency.Messages.{handle_transport_packet-Keeps}
use raynet.Kcp.Codec.{ByteOrder}
use raynet.Kcp.Send.{div_ceil}
use raynet.Kcp.Timer.{wait_snd}
use raynet.Kcp.Types.{kcp_overhead}
use raynet.Machine.Types.{
  ConvId, ChannelId, CloseReason, CoreEvent, transport_packet_received,
  transport_packet_send_failed, session_open, session_write, session_close, CoreEventResult,
}
use raynet.Packet.{Aead, RandomSource, decode_transport_packet}
use raynet.Routing.Feedback.{note_local_send_failure}
use raynet.Routing.Plans.Noting.{note_local_send_failure-shape}
use raynet.Routing.Shape.{shape}
use raynet.Wire.Layout.{
  Envelope, EnvelopeStamp, stamp_of, EndpointMessage, kcp_packet, keep_alive, route_reply,
  open_message, data_message,
}
use raynet.Endpoint.Consistency.Expiry.{expire_feedback-IsConsistent, expire_sequences-Keeps}

-- What an operation promises of the core that it leaves, without and with a result.
module _ {Stream : Type 0} where
  abbrev pub Good : Running Stream → Type 0
  Good r = IsConsistent r.core

  abbrev pub GoodEvent : Running Stream × CoreEventResult → Type 0
  GoodEvent p = IsConsistent p.0.core

module _ {Stream : Type 0} (order : ByteOrder) (aead : Aead) (source : RandomSource Stream) where
  open_event-Keeps :
      (r : Running Stream) (elapsed_ms : ℕ)
      → IsConsistent r.core
      → Ensures GoodEvent (open_event order aead source r elapsed_ms)
  unfolding open_event new_session
  open_event-Keeps r at v =
      let numbered = record r.core { next_conv_id = add64 r.core.next_conv_id 1 } in
      let added =
        put_session numbered r.core.next_conv_id
          (new_session r.core.next_conv_id r.core.kcp_params opened) in
      Ensures-bind Good GoodEvent
        (send_session_message order aead source (record r { core = added }) at r.core.next_conv_id
          open_message)
        _
        (send_session_message-Keeps order aead source (record r { core = added }) at
          r.core.next_conv_id open_message
          (put_session-IsConsistent numbered r.core.next_conv_id
            (new_session r.core.next_conv_id r.core.kcp_params opened) refl v))
        (λ r' w. w)

  write_event-Keeps :
      (r : Running Stream) (elapsed_ms : ℕ) (conv_id : ConvId) (bytes : List ℕ)
      → IsConsistent r.core
      → Ensures GoodEvent (write_event order aead source r elapsed_ms conv_id bytes)
  unfolding write_event
  write_event-Keeps r at c bytes v =
      let size = sub64 r.core.kcp_params.mtu kcp_overhead in
      Ensures-after GoodEvent (unwrap (lookup c r.core.sessions)) _ (λ session _.
        Ensures-after GoodEvent (check_that (ltb 0 size)) _ (λ _ _.
          elim (Bool-cases (
            ltb r.core.config.kcp.send_window
              (wait_snd session.kcp + div_ceil (1 + length bytes) size))) [
                | inl blocked ↦ rw blocked v
                | inr free ↦ rw free (
                    Ensures-bind Good GoodEvent
                      (send_session_message order aead source r at c (data_message bytes)) _
                      (send_session_message-Keeps order aead source r at c (data_message bytes) v)
                      (λ r' w. w))
              ]))

  close_event-Keeps :
      (r : Running Stream) (elapsed_ms : ℕ) (conv_id : ConvId) (reason : CloseReason)
      → IsConsistent r.core
      → Ensures GoodEvent (close_event order aead source r elapsed_ms conv_id reason)
  unfolding close_event
  close_event-Keeps r at c reason v =
      Ensures-after GoodEvent (unwrap (lookup c r.core.sessions)) _ (λ session _.
        let closing = record session {
          phase = closing_local;
          close_deadline_at = some (add64 at r.core.close_deadline_ms);
          pending_close = some reason;
        } in
        let q = record r { core = put_session r.core c closing } in
        Ensures-bind Good GoodEvent (queue_local_close order aead source q at c) _
          (queue_local_close-Keeps order aead source q at c
            (put_session-IsConsistent r.core c closing (refl, refl) v))
          (λ r' w. w))

  send_again-Keeps :
      (r : Running Stream) (elapsed_ms : ℕ) (stamp : EnvelopeStamp) (payload : List ℕ)
      (sample : Bool) (m : EndpointMessage)
      → IsConsistent r.core
      → Ensures GoodEvent (send_again order aead source r elapsed_ms stamp payload sample m)
  unfolding send_again
  send_again-Keeps r at stamp payload sample (kcp_packet depth packet) v =
      Ensures-bind Good GoodEvent (send_envelope source aead r at stamp payload sample) _
        (send_envelope-Keeps source aead r at stamp payload sample v) (λ r' w. w)
  send_again-Keeps r at stamp payload sample (keep_alive depth) v = v
  send_again-Keeps r at stamp payload sample (route_reply depth a b) v = v

  failed_envelope-Keeps :
      (r : Running Stream) (elapsed_ms : ℕ) (envelope : Envelope)
      → IsConsistent r.core
      → Ensures GoodEvent (failed_envelope order aead source r elapsed_ms envelope)
  unfolding failed_envelope forget_sample
  failed_envelope-Keeps r at envelope v =
      let packet = packet_id envelope.seq_id envelope.seq_no in
      let stamp = stamp_of envelope in
      let was_sample = is_some (lookup packet r.core.outstanding) in
      let forgotten = forget_sample r.core at packet in
      let w : IsConsistent forgotten = record {
        graph = v.graph;
        samples =
            AllValues-remove
              (λ (s : FeedbackSample). LeadsHome (shape r.core.route_planner.nodes) s.route_plan)
              packet r.core.outstanding v.samples;
        phases = v.phases;
        id_lt = v.id_lt;
        next_le = v.next_le;
      } in
      let again = λ (m : EndpointMessage).
        send_again order aead source (record r { core = forgotten }) at stamp envelope.payload
          was_sample m in
      Ensures-after GoodEvent (open_endpoint_message aead forgotten stamp envelope.payload)
        (λ message. unwrap message >>= again)
        (λ message _. Ensures-after GoodEvent (unwrap message) again (λ m _.
          send_again-Keeps (record r { core = forgotten }) at stamp envelope.payload was_sample m
            w))

  failed_event-Keeps :
      (r : Running Stream) (elapsed_ms : ℕ) (channel_id : ChannelId) (bytes : List ℕ)
      → IsConsistent r.core
      → Ensures GoodEvent (failed_event order aead source r elapsed_ms channel_id bytes)
  unfolding failed_event
  failed_event-Keeps r at channel bytes v =
      Ensures-after GoodEvent (note_local_send_failure r.core.route_planner channel at) _
        (λ planner e.
          let kept = note_local_send_failure-shape r.core.route_planner planner channel at e in
          let w = planned-IsConsistent r.core planner kept v in
          elim (Result-cases (decode_transport_packet aead r.core.config.envelope_key bytes)) [
            | inr (error, bad) ↦ rw bad tt
            | inl (envelope, good) ↦ rw good (failed_envelope-Keeps _ at envelope w)
          ])

  -- Every event leaves a consistent state consistent.
  pub handle_event-Keeps :
      (r : Running Stream) (elapsed_ms : ℕ) (event : CoreEvent)
      → IsConsistent r.core
      → Ensures GoodEvent (handle_event order aead source r elapsed_ms event)
  unfolding handle_event received_event
  handle_event-Keeps r at session_open v = open_event-Keeps r at v
  handle_event-Keeps r at (session_write c bytes) v = write_event-Keeps r at c bytes v
  handle_event-Keeps r at (session_close c reason) v = close_event-Keeps r at c reason v
  handle_event-Keeps r at (transport_packet_send_failed c bytes) v =
      failed_event-Keeps r at c bytes v
  handle_event-Keeps r at (transport_packet_received c bytes) v =
      Ensures-bind Good GoodEvent _ _ (handle_transport_packet-Keeps order aead source _ at bytes v)
        (λ r' w. w)

  poll_sessions-Keeps :
      (elapsed_ms : ℕ) (conv_ids : List ConvId) (r : Running Stream)
      → IsConsistent r.core
      → Keeps (poll_sessions order aead source r elapsed_ms conv_ids)
  unfolding poll_sessions
  poll_sessions-Keeps at [] r v = v
  poll_sessions-Keeps at (c ∷ conv_ids) r v =
      Ensures-bind Good Good (queue_local_close order aead source r at c) _
        (queue_local_close-Keeps order aead source r at c v)
        (λ queued w. elim (Option-cases (lookup c queued.core.sessions)) [
          | inl gone ↦ rw gone tt
          | inr (session, there) ↦ rw there (
              Ensures-bind (λ (p : EndpointSession × List (List ℕ)). SamePhase session p.0) Good
                (poll_session order session at) _ (poll_session-SamePhase order session at)
                (λ polled same.
                  let stored = put_session queued.core c polled.0 in
                  let phased =
                    SamePhase-IsPhased session polled.0 same
                      (session-IsPhased queued.core c session there w) in
                  Ensures-bind Good Good
                    (send_kcp_packets source aead (record queued { core = stored }) at polled.1) _
                    (send_kcp_packets-Keeps source aead (record queued { core = stored }) at
                      polled.1 (put_session-IsConsistent queued.core c polled.0 phased w))
                    (λ sent x.
                      Ensures-bind Good Good (finish_closed_session sent at c) _
                        (finish_closed_session-Keeps sent at c x)
                        (λ finished y. poll_sessions-Keeps at conv_ids finished y))))
        ])

  pub poll-Keeps :
      (r : Running Stream) (elapsed_ms : ℕ)
      → IsConsistent r.core
      → Keeps (poll order aead source r elapsed_ms)
  unfolding poll send_keepalive
  poll-Keeps r at v =
      let (core, e, w) = expire_feedback-IsConsistent r.core at v in
      rw e (
        Ensures-bind Good Good (expire_sequences (record r { core = core }) at) _
          (expire_sequences-Keeps (record r { core = core }) at w)
          (λ expired x. Ensures-bind Good Good _ _ (poll_sessions-Keeps at _ _ x) (λ polled y.
            elim (Bool-cases (
              not (polled.core.config.keepalive_interval_ms == 0)
              && leb polled.core.next_keepalive_at at)) [
                | inr quiet ↦ rw quiet y
                | inl due ↦ rw due (
                    Ensures-bind Good Good _ _
                      (send_endpoint_message-Keeps source aead polled at _ _ y) (λ sent z. z))
              ])))
