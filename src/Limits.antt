-- ===== src/Limits.antt =====
-- crates/raynet-core/src/limits.rs.
use raynet.Prelude.{ℕ, ◌^◌, ◌*◌, min}

abbrev pub transport_packet_overhead : ℕ
transport_packet_overhead = 32

abbrev pub endpoint_message_overhead : ℕ
endpoint_message_overhead = 17

abbrev pub min_padding : ℕ
min_padding = 1

abbrev pub max_transport_packet_size : ℕ
max_transport_packet_size = 65536

abbrev pub max_session_data_size : ℕ
max_session_data_size = 65535

abbrev pub local_cooldown_initial_ms : ℕ
local_cooldown_initial_ms = 50

abbrev pub local_cooldown_max_ms : ℕ
local_cooldown_max_ms = 200

abbrev pub session_tombstone_ms : ℕ
session_tombstone_ms = 646 * 2 ^ 10

unfoldable pub effective_transport_mtu : ℕ → ℕ
effective_transport_mtu configured_mtu = min configured_mtu max_transport_packet_size
