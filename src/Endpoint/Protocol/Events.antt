-- ===== src/Endpoint/Protocol/Events.antt =====
-- crates/raynet-core/src/endpoint.rs: `handle_event` follows the protocol of the actions, as long as
-- the shell does.
use raynet.Prelude.{
  ℕ, ◌+◌, ◌≡◌, refl, ◌∙◌, ap, Bool, List, ◌++◌, Option, some, length, ltb, ◌==◌, if◌then◌else◌,
  is_some, Bool-cases, Result-cases, inl, inr, Outcome, returns, arith, add64, sub64,
}
use raynet.Prelude.Outcomes.{◌>>=◌, Ensures, Ensures-bind, Ensures-after, check_that, unwrap}
use raynet.Prelude.Assoc.{lookup}
use raynet.Endpoint.{packet_id}
use raynet.Endpoint.Session.{new_session, opened, closing_local}
use raynet.Endpoint.Sending.{Running, open_endpoint_message, send_envelope}
use raynet.Endpoint.Closing.{put_session, send_session_message, queue_local_close}
use raynet.Endpoint.Expiry.{forget_sample}
use raynet.Endpoint.Events.{
  open_event, write_event, close_event, send_again, failed_envelope, failed_event, received_event,
  handle_event,
}
use raynet.Endpoint.Protocol.{
  View, idle, live, view, view_in, opens, then_told, Obeys, silent, send_envelope-Obeys,
}
use raynet.Endpoint.Protocol.Handling.{view_put}
use raynet.Endpoint.Protocol.Packets.{
  send_session_message-Obeys, queue_local_close-Obeys, handle_transport_packet-Obeys,
}
use raynet.Kcp.Codec.{ByteOrder}
use raynet.Kcp.Send.{div_ceil}
use raynet.Kcp.Timer.{wait_snd}
use raynet.Kcp.Types.{kcp_overhead}
use raynet.Machine.Types.{
  ConvId, ChannelId, CloseReason, CoreAction, CoreEvent, session_open, session_write, session_close,
  transport_packet_send_failed, transport_packet_received, CoreEventResult, nothing,
  session_created, session_write_blocked,
}
use raynet.Packet.{Aead, RandomSource, decode_transport_packet}
use raynet.Routing.Feedback.{note_local_send_failure}
use raynet.Wire.Layout.{
  Envelope, EnvelopeStamp, stamp_of, EndpointMessage, kcp_packet, keep_alive, route_reply,
  open_message, data_message,
}

-- What the result of an event tells the shell, ahead of the actions.
abbrev pub result_told : ConvId → CoreEventResult → View → Option View
result_told conv_id nothing v = some v
result_told conv_id (session_created c) v = if c == conv_id then opens v else some v
result_told conv_id session_write_blocked v = some v

module _ {Stream : Type 0} where
  -- The shell's part: it closes only a conversation that it sees, and the number of the next
  -- session is not one that it sees already.
  abbrev pub Permitted : Running Stream → CoreEvent → Type 0
  Permitted r session_open = view_in r r.core.next_conv_id ≡ idle
  Permitted r (session_write c bytes) = Unit {0}
  Permitted r (session_close c reason) = view_in r c ≡ live
  Permitted r (transport_packet_send_failed c bytes) = Unit {0}
  Permitted r (transport_packet_received c bytes) = Unit {0}

  -- The result and the actions that are pushed follow the protocol of every conversation, and lead
  -- from what its session showed to what it shows.
  pub record Follows (r : Running Stream) (p : Running Stream × CoreEventResult) : Type 0 where
    pub pushed : List CoreAction
    pub actions_eq : p.0.actions ≡ r.actions ++ pushed
    pub follows :
        (conv_id : ConvId)
        → then_told conv_id pushed (result_told conv_id p.1 (view_in r conv_id))
          ≡ some (view_in p.0 conv_id)

  -- A step that obeys, behind one that changes what its result tells.
  Follows-from :
      (r s : Running Stream) (result : CoreEventResult) (m : Outcome (Running Stream))
      → s.actions ≡ r.actions
      → ((c : ConvId) → result_told c result (view_in r c) ≡ some (view_in s c))
      → Ensures (Obeys s) m
      → Ensures (Follows r) (m >>= λ r'. returns (r', result))
  Follows-from r s result m same told h =
      Ensures-bind (Obeys s) (Follows r) m (λ r'. returns (r', result)) h
        (λ r' o. record {
          pushed = o.pushed;
          actions_eq = o.actions_eq ∙ ap (λ (before : List CoreAction). before ++ o.pushed) same;
          follows = λ c. ap (then_told c o.pushed) (told c) ∙ o.follows c;
        })

  -- Nothing is pushed, told or seen.
  unmoved :
      (r s : Running Stream) (result : CoreEventResult)
      → s.actions ≡ r.actions
      → ((c : ConvId) → result_told c result (view_in r c) ≡ some (view_in s c))
      → Ensures (Follows r) (returns (s, result))
  unmoved r s result same told =
      Follows-from r s result (returns s) same told (silent s s refl (λ c. refl))

module _ {Stream : Type 0} (order : ByteOrder) (aead : Aead) (source : RandomSource Stream) where
  open_event-Follows :
      (r : Running Stream) (elapsed_ms : ℕ)
      → Permitted r session_open
      → Ensures (Follows r) (open_event order aead source r elapsed_ms)
  unfolding open_event new_session
  open_event-Follows r at free =
      let c = r.core.next_conv_id in
      let numbered = record r.core { next_conv_id = add64 c 1 } in
      let session = new_session c r.core.kcp_params opened in
      let s = record r { core = put_session numbered c session } in
      Follows-from r s (session_created c)
        (send_session_message order aead source s at c open_message) refl
        (λ d. rw (view_put numbered c d session) (elim (Bool-cases (c == d)) [
          | inl same ↦
              let equal : c ≡ d = ground (arith, same) in
              let now : view (lookup d r.core.sessions) ≡ idle = rw equal at free in rw (same, now)
          | inr other ↦ rw other
        ]))
        (send_session_message-Obeys order aead source s at c open_message)

  write_event-Follows :
      (r : Running Stream) (elapsed_ms : ℕ) (c : ConvId) (bytes : List ℕ)
      → Ensures (Follows r) (write_event order aead source r elapsed_ms c bytes)
  unfolding write_event
  write_event-Follows r at c bytes =
      let size = sub64 r.core.kcp_params.mtu kcp_overhead in
      Ensures-after (Follows r) (unwrap (lookup c r.core.sessions)) _ (λ session _.
        Ensures-after (Follows r) (check_that (ltb 0 size)) _ (λ _ _.
          elim (Bool-cases (
            ltb r.core.config.kcp.send_window
              (wait_snd session.kcp + div_ceil (1 + length bytes) size))) [
                | inl blocked ↦ rw blocked (unmoved r r session_write_blocked refl (λ d. refl))
                | inr room ↦ rw room (
                    Follows-from r r nothing
                      (send_session_message order aead source r at c (data_message bytes)) refl
                      (λ d. refl)
                      (send_session_message-Obeys order aead source r at c (data_message bytes)))
              ]))

  close_event-Follows :
      (r : Running Stream) (elapsed_ms : ℕ) (c : ConvId) (reason : CloseReason)
      → view_in r c ≡ live
      → Ensures (Follows r) (close_event order aead source r elapsed_ms c reason)
  unfolding close_event
  close_event-Follows r at c reason seen =
      Ensures-after (Follows r) (unwrap (lookup c r.core.sessions)) _ (λ session _.
        let closing = record session {
          phase = closing_local;
          close_deadline_at = some (add64 at r.core.close_deadline_ms);
          pending_close = some reason;
        } in
        let s = record r { core = put_session r.core c closing } in
        Follows-from r s nothing (queue_local_close order aead source s at c) refl
          (λ d. rw (view_put r.core c d closing) (elim (Bool-cases (c == d)) [
            | inl same ↦
                let equal : c ≡ d = ground (arith, same) in
                let now : view (lookup d r.core.sessions) ≡ live = rw equal at seen in
                rw (same, now)
            | inr other ↦ rw other
          ]))
          (queue_local_close-Obeys order aead source s at c))

  send_again-Follows :
      (r s : Running Stream) (elapsed_ms : ℕ) (stamp : EnvelopeStamp) (payload : List ℕ)
      (sample : Bool) (m : EndpointMessage)
      → s.actions ≡ r.actions
      → s.core.sessions ≡ r.core.sessions
      → Ensures (Follows r) (send_again order aead source s elapsed_ms stamp payload sample m)
  unfolding send_again
  send_again-Follows r s at stamp payload sample (kcp_packet depth packet) same kept =
      Follows-from r s nothing (send_envelope source aead s at stamp payload sample) same
        (λ c. rw kept) (send_envelope-Obeys source aead s at stamp payload sample)
  send_again-Follows r s at stamp payload sample (keep_alive depth) same kept =
      unmoved r s nothing same (λ c. rw kept)
  send_again-Follows r s at stamp payload sample (route_reply depth a b) same kept =
      unmoved r s nothing same (λ c. rw kept)

  failed_envelope-Follows :
      (r s : Running Stream) (elapsed_ms : ℕ) (envelope : Envelope)
      → s.actions ≡ r.actions
      → s.core.sessions ≡ r.core.sessions
      → Ensures (Follows r) (failed_envelope order aead source s elapsed_ms envelope)
  unfolding failed_envelope forget_sample
  failed_envelope-Follows r s at envelope same kept =
      let packet = packet_id envelope.seq_id envelope.seq_no in
      let stamp = stamp_of envelope in
      let was_sample = is_some (lookup packet s.core.outstanding) in
      let t = record s { core = forget_sample s.core at packet } in
      let again = λ (m : EndpointMessage).
        send_again order aead source t at stamp envelope.payload was_sample m in
      Ensures-after (Follows r) (open_endpoint_message aead t.core stamp envelope.payload)
        (λ message. unwrap message >>= again)
        (λ message _.
          Ensures-after (Follows r) (unwrap message) again
            (λ m _. send_again-Follows r t at stamp envelope.payload was_sample m same kept))

  failed_event-Follows :
      (r : Running Stream) (elapsed_ms : ℕ) (channel_id : ChannelId) (bytes : List ℕ)
      → Ensures (Follows r) (failed_event order aead source r elapsed_ms channel_id bytes)
  unfolding failed_event
  failed_event-Follows r at channel bytes =
      Ensures-after (Follows r) (note_local_send_failure r.core.route_planner channel at) _
        (λ planner _.
          elim (Result-cases (decode_transport_packet aead r.core.config.envelope_key bytes)) [
            | inr (error, bad) ↦ rw bad tt
            | inl (envelope, good) ↦ rw good (failed_envelope-Follows r _ at envelope refl refl)
          ])

  -- Every event that is handled without a panic, at whatever time and in whatever state: as long as the shell closes only a
  -- conversation that it sees, and the number of the next session is not one that it sees, the result
  -- and the actions tell it of every conversation in the order of the protocol, a session that is
  -- created being opened by the result alone; and what the shell then sees is what the sessions show.
  pub handle_event-Follows :
      (r : Running Stream) (elapsed_ms : ℕ) (event : CoreEvent)
      → Permitted r event
      → Ensures (Follows r) (handle_event order aead source r elapsed_ms event)
  unfolding handle_event received_event
  handle_event-Follows r at session_open free = open_event-Follows r at free
  handle_event-Follows r at (session_write c bytes) p = write_event-Follows r at c bytes
  handle_event-Follows r at (session_close c reason) seen = close_event-Follows r at c reason seen
  handle_event-Follows r at (transport_packet_send_failed c bytes) p =
      failed_event-Follows r at c bytes
  handle_event-Follows r at (transport_packet_received c bytes) p =
      Follows-from r _ nothing _ refl (λ d. refl)
        (handle_transport_packet-Obeys order aead source _ at bytes)
