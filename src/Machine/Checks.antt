-- ===== src/Machine/Checks.antt =====
-- crates/raynet-core/src/machine.rs: `receive_transport_packet`, `check_sequence` and
-- `note_latest_sequence`.
use raynet.Prelude.{
  ℕ, ◌/◌, ◌%◌, ◌^◌, Bool, true, false, ◌||◌, List, Option, none, some, ltb, if◌then◌else◌, ok, err,
  add64, sub32,
}
use raynet.Prelude.Int.{pattern32}
use raynet.Machine.Types.{CoreMetrics}
use raynet.Wire.Layout.{Envelope, EnvelopeStamp}
use raynet.Packet.{
  Aead, TransportPacketError, invalid_length, authentication, malformed_envelope,
  decode_transport_packet,
}
use raynet.Sequence.Time.{ts_shift, time_diff}
use raynet.Sequence.Window.{SequenceDrop, freshness, replay}
use raynet.Sequence.Filter.{SequenceFilter, check_and_insert}

-- The metrics of a packet that cannot be read.
unfoldable pub count_error : TransportPacketError → CoreMetrics → CoreMetrics
count_error invalid_length m = record m { packets_dropped = add64 m.packets_dropped 1 }
count_error authentication m = record m {
  authentication_failures = add64 m.authentication_failures 1;
}
count_error malformed_envelope m = record m { malformed_packets = add64 m.malformed_packets 1 }

unfoldable pub receive_transport_packet :
    Aead → List ℕ → CoreMetrics → List ℕ → CoreMetrics × Option Envelope
receive_transport_packet aead key m bytes = elim (decode_transport_packet aead key bytes) [
  | ok envelope ↦ (m, some envelope)
  | err e ↦ (count_error e m, none)
]

unfoldable pub count_drop : SequenceDrop → CoreMetrics → CoreMetrics
count_drop freshness m = record m { freshness_drops = add64 m.freshness_drops 1 }
count_drop replay m = record m { replay_drops = add64 m.replay_drops 1 }

-- The filter, the metrics, and whether the packet may pass.
pub record Checked : Type 0 where
  pub sequence_filter : SequenceFilter
  pub metrics : CoreMetrics
  pub passes : Bool

unfoldable pub check_sequence : SequenceFilter → CoreMetrics → ℕ → EnvelopeStamp → Checked
check_sequence f m current_time stamp =
    elim (check_and_insert f current_time stamp.time stamp.seq_id stamp.seq_no) [
      | ok f' ↦ record { sequence_filter = f'; metrics = m; passes = true }
      | err drop ↦ record { sequence_filter = f; metrics = count_drop drop m; passes = false }
    ]

-- The tick of the local clock, as a `u32`.
abbrev pub tick_of : ℕ → ℕ → ℕ
tick_of boot_time_ms elapsed_ms = add64 boot_time_ms elapsed_ms / 2 ^ ts_shift % 2 ^ 32

unfoldable pub note_latest_sequence : CoreMetrics → ℕ → ℕ → ℕ → Bool → CoreMetrics
note_latest_sequence m boot_time_ms elapsed_ms packet_time first =
    let current_tick = tick_of boot_time_ms elapsed_ms in
    let packet_tick =
      sub32 current_tick (pattern32 (time_diff (current_tick % 2 ^ 26) packet_time)) in
    if first || ltb (sub32 packet_tick m.latest_seq_time) (2 ^ 31)
    then record m { latest_seq_time = packet_tick }
    else m
