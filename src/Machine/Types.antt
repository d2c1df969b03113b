-- ===== src/Machine/Types.antt =====
-- crates/raynet-core/src/machine.rs: identifiers, close reasons, metrics, events and actions.
use raynet.Prelude.{ℕ, List}

-- `ChannelId` is a u16, `ConvId` a u64.
abbrev pub ChannelId : Type 0
ChannelId = ℕ

abbrev pub ConvId : Type 0
ConvId = ℕ

pub data CloseReason : Type 0 where
  local_closed remote_closed reset error : CloseReason

pub record CoreMetrics : Type 0 where
  pub packets_received : ℕ
  pub packets_sent : ℕ
  pub packets_dropped : ℕ
  pub authentication_failures : ℕ
  pub freshness_drops : ℕ
  pub replay_drops : ℕ
  pub malformed_packets : ℕ
  pub send_failures : ℕ
  pub active_sessions : ℕ
  pub active_sequences : ℕ
  pub latest_seq_time : ℕ

-- `CoreMetrics::default`.
unfoldable pub no_metrics : CoreMetrics
no_metrics = record {
  packets_received = 0;
  packets_sent = 0;
  packets_dropped = 0;
  authentication_failures = 0;
  freshness_drops = 0;
  replay_drops = 0;
  malformed_packets = 0;
  send_failures = 0;
  active_sessions = 0;
  active_sequences = 0;
  latest_seq_time = 0;
}

pub data CoreEvent : Type 0 where
  transport_packet_received : ChannelId → List ℕ → CoreEvent
  transport_packet_send_failed : ChannelId → List ℕ → CoreEvent
  session_open : CoreEvent
  session_write : ConvId → List ℕ → CoreEvent
  session_close : ConvId → CloseReason → CoreEvent

pub data CoreAction : Type 0 where
  send_transport_packet : ChannelId → List ℕ → CoreAction
  open_session : ConvId → CoreAction
  write_session : ConvId → List ℕ → CoreAction
  close_session : ConvId → CloseReason → CoreAction

pub data CoreEventResult : Type 0 where
  nothing : CoreEventResult
  session_created : ConvId → CoreEventResult
  session_write_blocked : CoreEventResult
