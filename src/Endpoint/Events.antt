-- ===== src/Endpoint/Events.antt =====
-- crates/raynet-core/src/endpoint.rs: `handle_event` and `poll`.
use raynet.Prelude.{
  ℕ, ◌+◌, Bool, not, ◌&&◌, List, [], ◌∷◌, map, some, length, ltb, leb, ◌==◌, if◌then◌else◌, is_some,
  ok, err, Outcome, returns, panics, add64, sub64,
}
use raynet.Prelude.Outcomes.{◌>>=◌, unwrap, check_that}
use raynet.Prelude.Assoc.{lookup}
use raynet.Endpoint.{packet_id}
use raynet.Endpoint.Session.{opened, closing_local, new_session, poll_session}
use raynet.Endpoint.Sending.{
  Running, byte_of, feedback_due, open_endpoint_message, send_envelope, send_endpoint_message,
  send_kcp_packets,
}
use raynet.Endpoint.Closing.{
  put_session, send_session_message, queue_local_close, finish_closed_session,
}
use raynet.Endpoint.Receiving.{handle_transport_packet}
use raynet.Kcp.Codec.{ByteOrder}
use raynet.Kcp.Send.{div_ceil}
use raynet.Kcp.Timer.{wait_snd}
use raynet.Kcp.Types.{kcp_overhead}
use raynet.Machine.Types.{
  ConvId, ChannelId, CloseReason, CoreEvent, transport_packet_received,
  transport_packet_send_failed, session_open, session_write, session_close, CoreEventResult,
  nothing, session_created, session_write_blocked,
}
use raynet.Packet.{Aead, RandomSource, decode_transport_packet}
use raynet.Routing.Feedback.{note_local_send_failure}
use raynet.Wire.Layout.{
  Envelope, EnvelopeStamp, stamp_of, EndpointMessage, kcp_packet, keep_alive, route_reply,
  open_message, data_message,
}
use raynet.Endpoint.Expiry.{retain_tombstones, expire_feedback, forget_sample, expire_sequences}

module _ {Stream : Type 0} (order : ByteOrder) (aead : Aead) (source : RandomSource Stream) where
  unfoldable pub open_event : Running Stream → ℕ → Outcome (Running Stream × CoreEventResult)
  open_event r elapsed_ms = do
    let conv_id = r.core.next_conv_id
    let numbered = record r.core { next_conv_id = add64 conv_id 1 }
    let added = put_session numbered conv_id (new_session conv_id r.core.kcp_params opened)
    r' ←
        send_session_message order aead source (record r { core = added }) elapsed_ms conv_id
          open_message
    returns (r', session_created conv_id)

  -- A segment size of zero panics in `div_ceil`.
  unfoldable pub write_event :
      Running Stream → ℕ → ConvId → List ℕ → Outcome (Running Stream × CoreEventResult)
  write_event r elapsed_ms conv_id bytes = do
    session ← unwrap (lookup conv_id r.core.sessions)
    let segment_size = sub64 r.core.kcp_params.mtu kcp_overhead
    _ ← check_that (ltb 0 segment_size)
    let fragment_count = div_ceil (1 + length bytes) segment_size
    if ltb r.core.config.kcp.send_window (wait_snd session.kcp + fragment_count)
        then returns (r, session_write_blocked)
        else (send_session_message order aead source r elapsed_ms conv_id (data_message bytes)
            >>= λ r'. returns (r', nothing))

  unfoldable pub close_event :
      Running Stream → ℕ → ConvId → CloseReason → Outcome (Running Stream × CoreEventResult)
  close_event r elapsed_ms conv_id reason = do
    session ← unwrap (lookup conv_id r.core.sessions)
    let closing = record session {
      phase = closing_local;
      close_deadline_at = some (add64 elapsed_ms r.core.close_deadline_ms);
      pending_close = some reason;
    }
    r' ←
        queue_local_close order aead source (record r { core = put_session r.core conv_id closing })
          elapsed_ms conv_id
    returns (r', nothing)

  -- The end of the handler of a packet that could not be sent.
  unfoldable pub send_again :
      Running Stream
      → ℕ
      → EnvelopeStamp
      → List ℕ
      → Bool
      → EndpointMessage
      → Outcome (Running Stream × CoreEventResult)
  send_again r elapsed_ms stamp payload was_sample (kcp_packet reply_depth packet) = do
    r' ← send_envelope source aead r elapsed_ms stamp payload was_sample
    returns (r', nothing)
  send_again r elapsed_ms stamp payload was_sample (keep_alive reply_depth) = returns (r, nothing)
  send_again r elapsed_ms stamp payload was_sample (route_reply reply_depth seq_id seq_no) =
      returns (r, nothing)

  unfoldable pub failed_envelope :
      Running Stream → ℕ → Envelope → Outcome (Running Stream × CoreEventResult)
  failed_envelope r elapsed_ms envelope = do
    let stamp = stamp_of envelope
    let packet = packet_id stamp.seq_id stamp.seq_no
    let was_sample = is_some (lookup packet r.core.outstanding)
    let forgotten = forget_sample r.core elapsed_ms packet
    message ← open_endpoint_message aead forgotten stamp envelope.payload
    m ← unwrap message
    send_again (record r { core = forgotten }) elapsed_ms stamp envelope.payload was_sample m

  unfoldable pub failed_event :
      Running Stream → ℕ → ChannelId → List ℕ → Outcome (Running Stream × CoreEventResult)
  failed_event r elapsed_ms channel_id bytes = do
    planner ← note_local_send_failure r.core.route_planner channel_id elapsed_ms
    let counted = record r.core {
      metrics = record r.core.metrics { send_failures = add64 r.core.metrics.send_failures 1 };
      route_planner = planner;
    }
    elim (decode_transport_packet aead r.core.config.envelope_key bytes) [
      | err e ↦ panics
      | ok envelope ↦ failed_envelope (record r { core = counted }) elapsed_ms envelope
    ]

  unfoldable pub received_event :
      Running Stream → ℕ → List ℕ → Outcome (Running Stream × CoreEventResult)
  received_event r elapsed_ms bytes = do
    let counted = record r.core {
      metrics = record r.core.metrics {
        packets_received = add64 r.core.metrics.packets_received 1;
      };
    }
    r' ← handle_transport_packet order aead source (record r { core = counted }) elapsed_ms bytes
    returns (r', nothing)

  unfoldable pub handle_event :
      Running Stream → ℕ → CoreEvent → Outcome (Running Stream × CoreEventResult)
  handle_event r elapsed_ms session_open = open_event r elapsed_ms
  handle_event r elapsed_ms (session_write conv_id bytes) = write_event r elapsed_ms conv_id bytes
  handle_event r elapsed_ms (session_close conv_id reason) = close_event r elapsed_ms conv_id reason
  handle_event r elapsed_ms (transport_packet_send_failed channel_id bytes) =
      failed_event r elapsed_ms channel_id bytes
  handle_event r elapsed_ms (transport_packet_received channel_id bytes) =
      received_event r elapsed_ms bytes

  -- The loop of `poll` over the conversations that there are at its start.
  unfoldable pub poll_sessions : Running Stream → ℕ → List ConvId → Outcome (Running Stream)
  poll_sessions r elapsed_ms [] = returns r
  poll_sessions r elapsed_ms (conv_id ∷ conv_ids) = do
    queued ← queue_local_close order aead source r elapsed_ms conv_id
    session ← unwrap (lookup conv_id queued.core.sessions)
    polled ← poll_session order session elapsed_ms
    let stored = record queued { core = put_session queued.core conv_id polled.0 }
    sent ← send_kcp_packets source aead stored elapsed_ms polled.1
    finished ← finish_closed_session sent elapsed_ms conv_id
    poll_sessions finished elapsed_ms conv_ids

  unfoldable pub send_keepalive : Running Stream → ℕ → Outcome (Running Stream)
  send_keepalive r elapsed_ms = do
    let sample = feedback_due r.core elapsed_ms
    sent ← send_endpoint_message source aead r elapsed_ms (keep_alive (byte_of sample)) sample
    returns (record sent {
      core = record sent.core {
        next_keepalive_at = add64 elapsed_ms sent.core.config.keepalive_interval_ms;
      };
    })

  unfoldable pub poll : Running Stream → ℕ → Outcome (Running Stream)
  poll r elapsed_ms = do
    core ← expire_feedback r.core elapsed_ms
    expired ← expire_sequences (record r { core = core }) elapsed_ms
    let retained = record expired.core {
      tombstones = retain_tombstones elapsed_ms expired.core.tombstones;
    }
    polled ←
        poll_sessions (record expired { core = retained }) elapsed_ms
          (map (λ entry. entry.0) retained.sessions)
    if not (polled.core.config.keepalive_interval_ms == 0)
          && leb polled.core.next_keepalive_at elapsed_ms
        then send_keepalive polled elapsed_ms
        else returns polled
