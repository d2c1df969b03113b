-- ===== src/Endpoint/Receiving.antt =====
-- crates/raynet-core/src/endpoint.rs: the way in: `handle_transport_packet`, `handle_kcp_packet` and
-- `handle_session_message`.
use raynet.Prelude.{
  ℕ, ◌+◌, Bool, true, false, not, ◌&&◌, List, [], ◌∷◌, Option, none, some, length, ltb, ◌==◌,
  if◌then◌else◌, is_some, Outcome, returns, add64,
}
use raynet.Prelude.Outcomes.{◌>>=◌, check_that}
use raynet.Prelude.Assoc.{lookup, remove}
use raynet.Endpoint.{EndpointCore, packet_id}
use raynet.Endpoint.Session.{
  EndpointSession, SessionPhase, pending_remote, opened, closing_local, closing_remote, new_session,
  input_packet,
}
use raynet.Endpoint.Sending.{
  Running, push, current_time, feedback_due, open_endpoint_message, send_endpoint_message,
  send_kcp_packets,
}
use raynet.Endpoint.Closing.{
  put_session, drop_session, count_dropped, queue_local_close, finish_closed_session,
}
use raynet.Kcp.Codec.{ByteOrder, get_conv}
use raynet.Machine.Types.{ConvId, CloseReason, open_session, write_session, close_session}
use raynet.Machine.Checks.{receive_transport_packet, check_sequence, note_latest_sequence}
use raynet.Packet.{Aead, RandomSource}
use raynet.Routing.Feedback.{note_feedback}
use raynet.Wire.Layout.{
  Envelope, EnvelopeStamp, stamp_of, EndpointMessage, kcp_packet, keep_alive, route_reply,
  SessionMessage, open_message, data_message, close_message,
}

-- Whether the session belongs to another sender.
unfoldable pub is_foreign : Option ℕ → ℕ → Bool
is_foreign none peer_seq = false
is_foreign (some bound) peer_seq = not (bound == peer_seq)

module _ {Stream : Type 0} where
  -- The three arms of `handle_session_message`, for a session that is there.
  unfoldable pub handle_open :
      Running Stream → ConvId → EndpointSession → SessionPhase → Running Stream
  handle_open r conv_id session pending_remote =
      let open_now = record session { phase = opened; close_deadline_at = none } in
      push (record r { core = put_session r.core conv_id open_now }) (open_session conv_id)
  handle_open r conv_id session opened = r
  handle_open r conv_id session closing_local = record r { core = count_dropped r.core }
  handle_open r conv_id session closing_remote = record r { core = count_dropped r.core }

  unfoldable pub handle_data : Running Stream → ConvId → List ℕ → SessionPhase → Running Stream
  handle_data r conv_id bytes opened = push r (write_session conv_id bytes)
  handle_data r conv_id bytes pending_remote = record r {
    core = count_dropped (drop_session r.core conv_id);
  }
  handle_data r conv_id bytes closing_local = record r { core = count_dropped r.core }
  handle_data r conv_id bytes closing_remote = record r { core = count_dropped r.core }

  unfoldable pub handle_close :
      Running Stream → ℕ → ConvId → CloseReason → EndpointSession → SessionPhase → Running Stream
  handle_close r elapsed_ms conv_id reason session pending_remote = record r {
    core = count_dropped (drop_session r.core conv_id);
  }
  handle_close r elapsed_ms conv_id reason session opened =
      let closing = record session {
        phase = closing_remote;
        close_deadline_at = some (add64 elapsed_ms r.core.close_deadline_ms);
      } in
      push (record r { core = put_session r.core conv_id closing }) (close_session conv_id reason)
  handle_close r elapsed_ms conv_id reason session closing_local = r
  handle_close r elapsed_ms conv_id reason session closing_remote = r

  unfoldable pub handle_message :
      Running Stream → ℕ → ConvId → SessionMessage → EndpointSession → Running Stream
  handle_message r elapsed_ms conv_id open_message session =
      handle_open r conv_id session session.phase
  handle_message r elapsed_ms conv_id (data_message bytes) session =
      handle_data r conv_id bytes session.phase
  handle_message r elapsed_ms conv_id (close_message reason) session =
      handle_close r elapsed_ms conv_id reason session session.phase

  unfoldable pub handle_session_message :
      Running Stream → ℕ → ConvId → SessionMessage → Running Stream
  handle_session_message r elapsed_ms conv_id m = elim (lookup conv_id r.core.sessions) [
    | none ↦ r
    | some session ↦ handle_message r elapsed_ms conv_id m session
  ]

  unfoldable pub handle_session_messages :
      Running Stream → ℕ → ConvId → List SessionMessage → Running Stream
  handle_session_messages r elapsed_ms conv_id [] = r
  handle_session_messages r elapsed_ms conv_id (m ∷ messages) =
      handle_session_messages (handle_session_message r elapsed_ms conv_id m) elapsed_ms conv_id
        messages

  -- The session of a packet, which is new where there is none.
  unfoldable pub session_for : EndpointCore Stream → ℕ → ConvId → ℕ → EndpointSession
  session_for core elapsed_ms conv_id peer_seq = elim (lookup conv_id core.sessions) [
    | some session ↦ session
    | none ↦ record (new_session conv_id core.kcp_params pending_remote) {
      peer_seq = some peer_seq;
      close_deadline_at = some (add64 elapsed_ms core.close_deadline_ms);
    }
  ]

  -- The sample that a reply answers, and what the planner learns from it.
  unfoldable pub note_reply : EndpointCore Stream → ℕ → Outcome (EndpointCore Stream)
  note_reply core packet = elim (lookup packet core.outstanding) [
    | none ↦ returns core
    | some sample ↦ do
      planner ← note_feedback core.route_planner sample.route_plan sample.sent_at true
      returns
          (record core { outstanding = remove packet core.outstanding; route_planner = planner })
  ]

abbrev pub depth_in : EndpointMessage → ℕ
depth_in (kcp_packet reply_depth packet) = reply_depth
depth_in (keep_alive reply_depth) = reply_depth
depth_in (route_reply reply_depth seq_id seq_no) = reply_depth

module _ {Stream : Type 0} (order : ByteOrder) (aead : Aead) (source : RandomSource Stream) where
  -- The part of `handle_kcp_packet` behind the guards, for the session and its sender.
  unfoldable pub input_session :
      Running Stream → ℕ → ConvId → EndpointSession → List ℕ → Outcome (Running Stream)
  input_session r elapsed_ms conv_id session packet = do
    output ← input_packet order session elapsed_ms packet
    let stored = record r { core = put_session r.core conv_id output.session }
    sent ← send_kcp_packets source aead stored elapsed_ms output.packets
    let told = handle_session_messages sent elapsed_ms conv_id output.messages
    queued ← queue_local_close order aead source told elapsed_ms conv_id
    finish_closed_session queued elapsed_ms conv_id

  -- A packet of less than eight bytes panics in `get_conv`.
  unfoldable pub handle_kcp_packet : Running Stream → ℕ → ℕ → List ℕ → Outcome (Running Stream)
  handle_kcp_packet r elapsed_ms peer_seq packet = do
    _ ← check_that (not (ltb (length packet) 8))
    let conv_id = get_conv order packet
    let session = session_for r.core elapsed_ms conv_id peer_seq
    if is_some (lookup conv_id r.core.tombstones)
        then returns (record r { core = count_dropped r.core })
        else if is_foreign session.peer_seq peer_seq
        then returns (record r { core = count_dropped r.core })
        else input_session r elapsed_ms conv_id (record session { peer_seq = some peer_seq }) packet

  unfoldable pub handle_endpoint_message :
      Running Stream → ℕ → ℕ → EndpointMessage → Outcome (Running Stream)
  handle_endpoint_message r elapsed_ms peer_seq (kcp_packet reply_depth packet) =
      handle_kcp_packet r elapsed_ms peer_seq packet
  handle_endpoint_message r elapsed_ms peer_seq (keep_alive reply_depth) = returns r
  handle_endpoint_message r elapsed_ms peer_seq (route_reply reply_depth seq_id seq_no) = do
    core ← note_reply r.core (packet_id seq_id seq_no)
    returns (record r { core = core })

  -- The reply that the sender asked for.
  unfoldable pub send_reply : Running Stream → ℕ → EnvelopeStamp → ℕ → Outcome (Running Stream)
  send_reply r elapsed_ms stamp reply_depth =
      let sample = ltb reply_depth 3 && feedback_due r.core elapsed_ms in
      if reply_depth == 0
      then returns r
      else send_endpoint_message source aead r elapsed_ms
          (route_reply (if sample then reply_depth + 1 else 0) stamp.seq_id stamp.seq_no) sample

  -- The part of `handle_transport_packet` behind `open_endpoint_message`.
  unfoldable pub accept_message :
      Running Stream → ℕ → EnvelopeStamp → EndpointMessage → Outcome (Running Stream)
  accept_message r elapsed_ms stamp m =
      let core = r.core in
      let first_sequence = length core.sequence_filter == 0 in
      let checked =
        check_sequence core.sequence_filter core.metrics (current_time core elapsed_ms) stamp in
      let noted =
        note_latest_sequence checked.metrics core.config.boot_time_ms elapsed_ms stamp.time
          first_sequence in
      let accepted = record core { sequence_filter = checked.sequence_filter; metrics = noted } in
      if not checked.passes
      then returns (record r {
        core = record core { sequence_filter = checked.sequence_filter; metrics = checked.metrics };
      })
      else (handle_endpoint_message (record r { core = accepted }) elapsed_ms stamp.seq_id m
          >>= λ r'. send_reply r' elapsed_ms stamp (depth_in m))

  unfoldable pub accept_opened :
      Running Stream → ℕ → EnvelopeStamp → Option EndpointMessage → Outcome (Running Stream)
  accept_opened r elapsed_ms stamp none = returns (record r {
    core = record r.core {
      metrics = record r.core.metrics {
        authentication_failures = add64 r.core.metrics.authentication_failures 1;
      };
    };
  })
  accept_opened r elapsed_ms stamp (some m) = accept_message r elapsed_ms stamp m

  -- The part of `handle_transport_packet` behind the decryption of the envelope.
  unfoldable pub accept_envelope : Running Stream → ℕ → Envelope → Outcome (Running Stream)
  accept_envelope r elapsed_ms envelope =
      let stamp = stamp_of envelope in
      if not (length envelope.route_plan == 0)
      then returns (record r { core = count_dropped r.core })
      else (open_endpoint_message aead r.core stamp envelope.payload
          >>= accept_opened r elapsed_ms stamp)

  unfoldable pub handle_transport_packet : Running Stream → ℕ → List ℕ → Outcome (Running Stream)
  handle_transport_packet r elapsed_ms bytes =
      let (metrics, received) =
        receive_transport_packet aead r.core.config.envelope_key r.core.metrics bytes in
      let counted = record r { core = record r.core { metrics = metrics } } in
      elim received [
        | none ↦ returns counted
        | some envelope ↦ accept_envelope counted elapsed_ms envelope
      ]
