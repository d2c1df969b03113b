-- ===== src/Endpoint/Sending.antt =====
-- crates/raynet-core/src/endpoint.rs: the way out: sealing, sequence numbers, routes, packets.
use raynet.Prelude.{
  ℕ, ◌+◌, ◌*◌, ◌%◌, ◌^◌, min, Bool, true, false, List, [], ◌∷◌, ◌++◌, Option, none, some, length,
  take, drop, ltb, leb, ◌==◌, if◌then◌else◌, Outcome, returns, panics, add64, sub64,
}
use raynet.Prelude.Outcomes.{◌>>=◌, check_that}
use raynet.Prelude.Assoc.{insert_sorted}
use raynet.Endpoint.{EndpointCore, packet_id, sequence_mask}
use raynet.Limits.{transport_packet_overhead, effective_transport_mtu}
use raynet.Machine.Types.{ChannelId, CoreAction, send_transport_packet}
use raynet.Machine.Checks.{tick_of}
use raynet.Packet.{Aead, RandomSource, random_u64, encode_transport_packet}
use raynet.Routing.Plans.{build_route_plan}
use raynet.Wire.Layout.{
  Envelope, EnvelopeStamp, EndpointMessage, kcp_packet, envelope_fixed_overhead, channel_id_size,
}
use raynet.Wire.Envelope.{endpoint_nonce}
use raynet.Wire.EndpointMessages.{encode_with_prefix, decode}

-- The core with the vector of actions that its methods push to.
pub record Running (Stream : Type 0) : Type 0 where
  pub core : EndpointCore Stream
  pub actions : List CoreAction

-- `u8::from(sample)`
abbrev pub byte_of : Bool → ℕ
byte_of true = 1
byte_of false = 0

-- The length of the packet without its padding, for a plan with a first hop and `hops` more.
unfoldable pub unpadded_len : ℕ → List ℕ → ℕ
unpadded_len hops payload =
    transport_packet_overhead + envelope_fixed_overhead + hops * channel_id_size + length payload

module _ {Stream : Type 0} where
  unfoldable pub current_time : EndpointCore Stream → ℕ → ℕ
  current_time core elapsed_ms = tick_of core.config.boot_time_ms elapsed_ms % 2 ^ 26

  unfoldable pub feedback_due : EndpointCore Stream → ℕ → Bool
  feedback_due core elapsed_ms = leb core.next_feedback_at elapsed_ms

  -- The bytes that are free for padding.
  unfoldable pub available : EndpointCore Stream → ℕ → List ℕ → ℕ
  available core hops payload =
      min (sub64 (effective_transport_mtu core.config.route.min_mtu) (unpadded_len hops payload))
        255

  unfoldable pub push : Running Stream → CoreAction → Running Stream
  push r action = record r { actions = r.actions ++ (action ∷ []) }

-- The decoder panics on a message that is authentic and malformed.
unfoldable pub decode_opened : Option (List ℕ) → Outcome (Option EndpointMessage)
decode_opened none = returns none
decode_opened (some plain) = do m ← decode plain; returns (some m)

module _ {Stream : Type 0} (aead : Aead) where
  unfoldable pub seal_endpoint_message :
      EndpointCore Stream → EnvelopeStamp → EndpointMessage → List ℕ
  seal_endpoint_message core stamp m =
      let out = encode_with_prefix m 16 in
      let (text, tag) =
        aead.encrypt core.config.message_key (endpoint_nonce stamp) (drop 16 out) [] in
      tag ++ text

  unfoldable pub open_endpoint_message :
      EndpointCore Stream → EnvelopeStamp → List ℕ → Outcome (Option EndpointMessage)
  open_endpoint_message core stamp packet =
      if ltb (length packet) 16
      then returns none
      else decode_opened (
          aead.decrypt core.config.message_key (endpoint_nonce stamp) (drop 16 packet)
            (take 16 packet) [])

module _ {Stream : Type 0} (source : RandomSource Stream) where
  -- The numbers of the next packet.
  unfoldable pub next_sequence : EndpointCore Stream → EndpointCore Stream × ℕ × ℕ
  next_sequence core =
      let (number, random) = random_u64 source core.random in
      let renewed =
        if ltb sequence_mask core.next_seq_no
        then record core { seq_id = number % 2 ^ 48; next_seq_no = 0; random = random }
        else core in
      (
        record renewed { next_seq_no = add64 renewed.next_seq_no 1 },
        renewed.seq_id,
        renewed.next_seq_no,
      )

  -- The end of `send_envelope`, for a sample.
  unfoldable pub add_sample :
      EndpointCore Stream → ℕ → EnvelopeStamp → List ChannelId → EndpointCore Stream
  add_sample core elapsed_ms stamp full_plan =
      let interval = core.config.route.feedback_interval_ms in
      let (number, random) = random_u64 source core.random in
      record core {
        outstanding =
            insert_sorted (packet_id stamp.seq_id stamp.seq_no)
              (record {
                route_plan = full_plan;
                sent_at = elapsed_ms;
                deadline = add64 elapsed_ms core.config.route.feedback_timeout_ms;
              })
              core.outstanding;
        next_feedback_at = add64 (add64 elapsed_ms interval) (number % interval);
        random = random;
      }

  -- The remainder panics where the interval is zero.
  unfoldable pub note_sample :
      EndpointCore Stream → ℕ → EnvelopeStamp → List ChannelId → Outcome (EndpointCore Stream)
  unfolding add_sample
  note_sample core elapsed_ms stamp full_plan = do
    _ ← check_that (ltb 0 core.config.route.feedback_interval_ms)
    returns (add_sample core elapsed_ms stamp full_plan)

  module _ (aead : Aead) where
    -- The packet of a plan whose first hop is taken off, and the core once it is sent. The padding is
    -- what `available` leaves, at least one byte.
    unfoldable pub pack_envelope :
        EndpointCore Stream
        → ℕ
        → EnvelopeStamp
        → List ℕ
        → List ChannelId
        → EndpointCore Stream × List ℕ
    pack_envelope core elapsed_ms stamp payload rest =
        let (number, random) = random_u64 source core.random in
        let envelope : Envelope = record {
          time = stamp.time;
          seq_id = stamp.seq_id;
          seq_no = stamp.seq_no;
          route_plan = rest;
          payload = payload;
          padding_len = (1 + number % available core (length rest) payload) % 256;
        } in
        let (bytes, random') =
          encode_transport_packet aead source core.config.envelope_key random envelope in
        (
          record core {
            random = random';
            metrics = record core.metrics { packets_sent = add64 core.metrics.packets_sent 1 };
            next_keepalive_at =
                if core.config.keepalive_interval_ms == 0
                then core.next_keepalive_at
                else add64 elapsed_ms core.config.keepalive_interval_ms;
          },
          bytes,
        )

    -- The part of `send_envelope` behind the choice of the plan, which begins with `channel_id`. A
    -- remainder by zero panics.
    unfoldable pub send_routed :
        Running Stream
        → ℕ
        → EnvelopeStamp
        → List ℕ
        → Bool
        → ChannelId
        → List ChannelId
        → Outcome (Running Stream)
    unfolding pack_envelope
    send_routed r elapsed_ms stamp payload sample channel_id rest = do
      _ ← check_that (ltb 0 (available r.core (length rest) payload))
      let (sent, bytes) = pack_envelope r.core elapsed_ms stamp payload rest
      core ←
          (if sample then note_sample sent elapsed_ms stamp (channel_id ∷ rest) else returns sent)
      returns (push (record r { core = core }) (send_transport_packet channel_id bytes))

    -- `full_plan[0]` panics on an empty plan.
    unfoldable pub send_planned :
        Running Stream
        → ℕ
        → EnvelopeStamp
        → List ℕ
        → Bool
        → Option (List ChannelId)
        → Outcome (Running Stream)
    send_planned r elapsed_ms stamp payload sample none = returns r
    send_planned r elapsed_ms stamp payload sample (some []) = panics
    send_planned r elapsed_ms stamp payload sample (some (channel_id ∷ rest)) =
        send_routed r elapsed_ms stamp payload sample channel_id rest

    unfoldable pub send_envelope :
        Running Stream → ℕ → EnvelopeStamp → List ℕ → Bool → Outcome (Running Stream)
    send_envelope r elapsed_ms stamp payload sample = do
      let scheduled_bytes = add64 (length payload) r.core.scheduled_packet_overhead
      planned ← build_route_plan r.core.route_planner elapsed_ms scheduled_bytes sample
      send_planned (record r { core = record r.core { route_planner = planned.0 } }) elapsed_ms
          stamp payload sample planned.1

    unfoldable pub send_endpoint_message :
        Running Stream → ℕ → EndpointMessage → Bool → Outcome (Running Stream)
    send_endpoint_message r elapsed_ms m sample =
        let (core, seq_id, seq_no) = next_sequence r.core in
        let stamp : EnvelopeStamp = record {
          time = current_time core elapsed_ms;
          seq_id = seq_id;
          seq_no = seq_no;
        } in
        send_envelope (record r { core = core }) elapsed_ms stamp
          (seal_endpoint_message aead core stamp m) sample

    unfoldable pub send_kcp_packets : Running Stream → ℕ → List (List ℕ) → Outcome (Running Stream)
    send_kcp_packets r elapsed_ms [] = returns r
    send_kcp_packets r elapsed_ms (packet ∷ packets) = do
      let sample = feedback_due r.core elapsed_ms
      r' ← send_endpoint_message r elapsed_ms (kcp_packet (byte_of sample) packet) sample
      send_kcp_packets r' elapsed_ms packets
