-- ===== src/Relay.antt =====
-- crates/raynet-core/src/relay.rs: the relay, which passes a packet on to the next channel.
pub mod Forwarding
mod Tests
use raynet.Prelude.{
  ℕ, ◌+◌, ◌-◌, ◌*◌, ◌%◌, ◌^◌, Bool, true, false, not, ◌||◌, List, [], ◌∷◌, ◌++◌, Option, none, some,
  length, min, ltb, ◌==◌, if◌then◌else◌, Outcome, returns, panics, add64,
}
use raynet.Machine.Types.{
  ChannelId, CoreMetrics, no_metrics, CoreEvent, transport_packet_received,
  transport_packet_send_failed, session_open, session_write, session_close, CoreAction,
  send_transport_packet, CoreEventResult, nothing,
}
use raynet.Machine.Checks.{receive_transport_packet, check_sequence, note_latest_sequence, tick_of}
use raynet.Wire.Layout.{Envelope, stamp_of, envelope_fixed_overhead, channel_id_size}
use raynet.Packet.{Aead, RandomSource, random_u64, encode_transport_packet}
use raynet.Limits.{transport_packet_overhead, min_padding, effective_transport_mtu}
use raynet.Sequence.Filter.{SequenceFilter, remove_expired}

pub record RelayConfig : Type 0 where
  pub envelope_key : List ℕ
  pub random_seed : List ℕ
  pub boot_time_ms : ℕ
  pub local_channels : List ChannelId
  pub local_min_mtu : ℕ

pub record RelayCore (Stream : Type 0) : Type 0 where
  pub config : RelayConfig
  pub random : Stream
  pub sequence_filter : SequenceFilter
  pub metrics : CoreMetrics

-- `slice::contains`.
unfoldable pub contains : List ChannelId → ChannelId → Bool
contains [] channel_id = false
contains (c ∷ cs) channel_id = c == channel_id || contains cs channel_id

unfoldable pub unpadded_len : Envelope → ℕ
unpadded_len e =
    transport_packet_overhead
    + envelope_fixed_overhead
    + length e.route_plan * channel_id_size
    + length e.payload

module _ {Stream : Type 0} (aead : Aead) (source : RandomSource Stream) where
  unfoldable pub new_relay : RelayConfig → RelayCore Stream
  new_relay config = record {
    config = config;
    random = source.new_stream config.random_seed;
    sequence_filter = [];
    metrics = no_metrics;
  }

  -- `RelayCore::metrics`.
  unfoldable pub metrics_of : RelayCore Stream → CoreMetrics
  metrics_of core = record core.metrics { active_sequences = length core.sequence_filter }

  unfoldable pub count_dropped : RelayCore Stream → RelayCore Stream
  count_dropped core = record core {
    metrics = record core.metrics { packets_dropped = add64 core.metrics.packets_dropped 1 };
  }

  -- The last part of `forward_packet`, from the computation of the padding on; the first hop is
  -- already taken out of the plan.
  unfoldable pub send_on :
      RelayCore Stream → ChannelId → Envelope → RelayCore Stream × List CoreAction
  send_on core channel_id envelope =
      let local_min_mtu = effective_transport_mtu core.config.local_min_mtu in
      let available = min (local_min_mtu - unpadded_len envelope) 255 in
      let (number, random) = random_u64 source core.random in
      let padded = record envelope { padding_len = (1 + number % available) % 256 } in
      let (bytes, random') =
        encode_transport_packet aead source core.config.envelope_key random padded in
      if ltb local_min_mtu (unpadded_len envelope + min_padding)
      then (count_dropped core, [])
      else (
        record core {
          random = random';
          metrics = record core.metrics { packets_sent = add64 core.metrics.packets_sent 1 };
        },
        send_transport_packet channel_id bytes ∷ [],
      )

  unfoldable pub route_packet :
      RelayCore Stream → Envelope → List ChannelId → RelayCore Stream × List CoreAction
  route_packet core envelope [] = (count_dropped core, [])
  route_packet core envelope (channel_id ∷ plan) =
      if not (contains core.config.local_channels channel_id)
      then (count_dropped core, [])
      else send_on core channel_id (record envelope { route_plan = plan })

  -- The part of `forward_packet` behind the decryption.
  unfoldable pub accept_packet :
      RelayCore Stream → ℕ → Envelope → RelayCore Stream × List CoreAction
  accept_packet core elapsed_ms envelope =
      let current_time = tick_of core.config.boot_time_ms elapsed_ms % 2 ^ 26 in
      let first_sequence = length core.sequence_filter == 0 in
      let checked =
        check_sequence core.sequence_filter core.metrics current_time (stamp_of envelope) in
      let passed = record core {
        sequence_filter = (remove_expired checked.sequence_filter current_time 0).0;
        metrics =
            note_latest_sequence checked.metrics core.config.boot_time_ms elapsed_ms envelope.time
              first_sequence;
      } in
      if not checked.passes
      then (
        record core { sequence_filter = checked.sequence_filter; metrics = checked.metrics },
        [],
      )
      else route_packet passed envelope envelope.route_plan

  -- The actions are those that are pushed.
  unfoldable pub forward_packet : RelayCore Stream → ℕ → List ℕ → RelayCore Stream × List CoreAction
  forward_packet core elapsed_ms bytes =
      let (metrics, received) =
        receive_transport_packet aead core.config.envelope_key core.metrics bytes in
      elim received [
        | none ↦ (record core { metrics = metrics }, [])
        | some envelope ↦ accept_packet (record core { metrics = metrics }) elapsed_ms envelope
      ]

  -- The session events are a panic.
  unfoldable pub handle_event :
      RelayCore Stream
      → ℕ
      → CoreEvent
      → Outcome (RelayCore Stream × List CoreAction × CoreEventResult)
  handle_event core elapsed_ms (transport_packet_received channel_id bytes) =
      let counted = record core {
        metrics = record core.metrics { packets_received = add64 core.metrics.packets_received 1 };
      } in
      let (core', actions) = forward_packet counted elapsed_ms bytes in
      returns (core', actions, nothing)
  handle_event core elapsed_ms (transport_packet_send_failed channel_id bytes) = returns (
    record core {
      metrics = record core.metrics { send_failures = add64 core.metrics.send_failures 1 };
    },
    [],
    nothing,
  )
  handle_event core elapsed_ms session_open = panics
  handle_event core elapsed_ms (session_write conv_id bytes) = panics
  handle_event core elapsed_ms (session_close conv_id reason) = panics

  unfoldable pub next_deadline : RelayCore Stream → ℕ → ℕ
  next_deadline core elapsed_ms = 2 ^ 64 - 1
