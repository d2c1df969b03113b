-- ===== src/Endpoint/Refusals.antt =====
-- crates/raynet-core/src/endpoint.rs: the packets that `handle_transport_packet` refuses.
use raynet.Prelude.{
  ℕ, ◌≡◌, refl, true, false, List, Option, none, some, length, ◌==◌, ok, err, add64, Outcome,
  returns, ap, ◌∙◌,
}
use raynet.Endpoint.{EndpointCore}
use raynet.Endpoint.Sending.{Running, current_time, open_endpoint_message}
use raynet.Endpoint.Closing.{count_dropped}
use raynet.Endpoint.Receiving.{
  accept_message, accept_opened, accept_envelope, handle_transport_packet,
}
use raynet.Kcp.Codec.{ByteOrder}
use raynet.Machine.Types.{CoreMetrics}
use raynet.Machine.Checks.{receive_transport_packet, check_sequence, count_error, count_drop}
use raynet.Packet.{Aead, RandomSource, TransportPacketError, decode_transport_packet}
use raynet.Sequence.Filter.{check_and_insert}
use raynet.Sequence.Window.{SequenceDrop}
use raynet.Wire.Layout.{Envelope, EndpointMessage, stamp_of}

module _ {Stream : Type 0} (order : ByteOrder) (aead : Aead) (source : RandomSource Stream) where
  -- A packet that does not open, that still has a route, whose message does not open, or that the
  -- filter refuses.
  pub data Refused (core : EndpointCore Stream) (elapsed_ms : ℕ) (bytes : List ℕ) : Type 0 where
    unreadable :
        (e : TransportPacketError)
        → decode_transport_packet aead core.config.envelope_key bytes ≡ err e
        → Refused core elapsed_ms bytes
    routed :
        (envelope : Envelope)
        → decode_transport_packet aead core.config.envelope_key bytes ≡ ok envelope
        → (length envelope.route_plan == 0) ≡ false
        → Refused core elapsed_ms bytes
    forged :
        (envelope : Envelope)
        → decode_transport_packet aead core.config.envelope_key bytes ≡ ok envelope
        → (length envelope.route_plan == 0) ≡ true
        → open_endpoint_message aead core (stamp_of envelope) envelope.payload ≡ returns none
        → Refused core elapsed_ms bytes
    stale :
        (envelope : Envelope) (m : EndpointMessage) (drop : SequenceDrop)
        → decode_transport_packet aead core.config.envelope_key bytes ≡ ok envelope
        → (length envelope.route_plan == 0) ≡ true
        → open_endpoint_message aead core (stamp_of envelope) envelope.payload ≡ returns (some m)
        → check_and_insert core.sequence_filter
            (current_time core elapsed_ms)
            envelope.time
            envelope.seq_id
            envelope.seq_no
          ≡ err drop
        → Refused core elapsed_ms bytes

  -- The one counter that a refusal raises.
  abbrev pub counted :
      (core : EndpointCore Stream) (elapsed_ms : ℕ) (bytes : List ℕ)
      → Refused core elapsed_ms bytes
      → CoreMetrics
  counted core elapsed_ms bytes (unreadable e bad) = count_error e core.metrics
  counted core elapsed_ms bytes (routed envelope opens has) = (count_dropped core).metrics
  counted core elapsed_ms bytes (forged envelope opens home sealed) = record core.metrics {
    authentication_failures = add64 core.metrics.authentication_failures 1;
  }
  counted core elapsed_ms bytes (stale envelope m drop opens home message old) =
      count_drop drop core.metrics

  receive_err :
      (key : List ℕ) (m : CoreMetrics) (bytes : List ℕ) {e : TransportPacketError}
      → decode_transport_packet aead key bytes ≡ err e
      → receive_transport_packet aead key m bytes ≡ (count_error e m, none)
  unfolding receive_transport_packet
  receive_err key m bytes bad = rw (bad, receive_transport_packet) refl

  receive_ok :
      (key : List ℕ) (m : CoreMetrics) (bytes : List ℕ) {envelope : Envelope}
      → decode_transport_packet aead key bytes ≡ ok envelope
      → receive_transport_packet aead key m bytes ≡ (m, some envelope)
  unfolding receive_transport_packet
  receive_ok key m bytes opens = rw (opens, receive_transport_packet) refl

  -- What `handle_transport_packet` does with what `receive_transport_packet` returns.
  abbrev after_reception :
      Running Stream → ℕ → CoreMetrics × Option Envelope → Outcome (Running Stream)
  after_reception r elapsed_ms received =
      let counted = record r { core = record r.core { metrics = received.0 } } in
      elim received.1 [
        | none ↦ returns counted
        | some envelope ↦ accept_envelope order aead source counted elapsed_ms envelope
      ]

  reception :
      (r : Running Stream) (elapsed_ms : ℕ) (bytes : List ℕ)
      {received : CoreMetrics × Option Envelope}
      → receive_transport_packet aead r.core.config.envelope_key r.core.metrics bytes ≡ received
      → handle_transport_packet order aead source r elapsed_ms bytes
        ≡ after_reception r elapsed_ms received
  unfolding handle_transport_packet
  reception r at bytes eq = ap (after_reception r at) eq

  -- A packet whose envelope does not open, that still has a route, whose message does not open under
  -- the message key, or that the filter refuses raises the one counter of its refusal, and changes
  -- nothing else: no window of a sender, no session, no sample and no route; nothing is sent and the
  -- shell is told nothing.
  pub handle_transport_packet-Refused :
      (r : Running Stream) (elapsed_ms : ℕ) (bytes : List ℕ)
      (refused : Refused r.core elapsed_ms bytes)
      → handle_transport_packet order aead source r elapsed_ms bytes
        ≡ returns (record r {
          core = record r.core { metrics = counted r.core elapsed_ms bytes refused };
        })
  unfolding accept_envelope accept_opened accept_message count_dropped check_sequence
  handle_transport_packet-Refused r at bytes (unreadable e bad) =
      reception r at bytes (receive_err _ _ bytes bad)
  handle_transport_packet-Refused r at bytes (routed envelope opens has) =
      reception r at bytes (receive_ok _ _ bytes opens) ∙ (rw (has) refl)
  handle_transport_packet-Refused r at bytes (forged envelope opens home sealed) =
      reception r at bytes (receive_ok _ _ bytes opens) ∙ (rw (home, sealed) refl)
  handle_transport_packet-Refused r at bytes (stale envelope m drop opens home message old) =
      reception r at bytes (receive_ok _ _ bytes opens)
      ∙ (rw (home, message, accept_message, old, check_sequence) refl)
