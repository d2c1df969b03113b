-- ===== src/Relay/Tests.antt =====
-- crates/raynet-core/src/relay.rs and packet.rs at a concrete relay.
use raynet.Prelude.{err, ℕ, ◌≡◌, refl, true, ◌&&◌, List, [], ◌∷◌, length, arith, ◌⊎◌, ok}
use raynet.Wire.Layout.{Envelope}
use raynet.Packet.{TransportPacketError, encode_transport_packet, decode_transport_packet}
use raynet.Packet.Samples.{clear_text, zeros, key, envelope}
use raynet.Packet.RoundTrip.{packet_size, decode-encode_transport_packet}
use raynet.Relay.{RelayConfig, RelayCore, new_relay, forward_packet}
use raynet.Relay.Forwarding.{Answers, may_send, passes_filter, forward_packet-Answers}
use raynet.Sequence.Filter.{check_and_insert, is_fresh, insert_packet}
use raynet.Sequence.Time.{time_diff}
use raynet.Prelude.Assoc.{lookup, insert}
use raynet.Relay.{contains}

decode-encode_transport_packet_example :
    (length (encode_transport_packet clear_text zeros key 0 envelope).0 ≡ packet_size envelope)
    × (decode_transport_packet clear_text key
          (encode_transport_packet clear_text zeros key 0 envelope).0
        ≡ ok envelope)
unfolding packet_size
decode-encode_transport_packet_example =
    decode-encode_transport_packet clear_text zeros key 0 envelope (omega arith) (omega arith)
      (omega arith)

abbrev config : RelayConfig
config = record {
  envelope_key = key;
  random_seed = [];
  boot_time_ms = 2000;
  local_channels = 4 ∷ 9 ∷ [];
  local_min_mtu = 1200;
}

abbrev relay : RelayCore ℕ
relay = new_relay clear_text zeros config

abbrev incoming : List ℕ
incoming = (encode_transport_packet clear_text zeros key 0 envelope).0

forward_packet-Answers_example :
    ((e : TransportPacketError) × (decode_transport_packet clear_text relay.config.envelope_key
          incoming
        ≡ err e)
      × ((forward_packet clear_text zeros relay 100 incoming).1 ≡ []))
    ⊎ ((e : Envelope) × (decode_transport_packet clear_text relay.config.envelope_key incoming
          ≡ ok e)
        × Answers clear_text relay.config
            (passes_filter relay.config relay.sequence_filter 100 e
              && may_send relay.config e e.route_plan)
            e
            (forward_packet clear_text zeros relay 100 incoming).1)
forward_packet-Answers_example = forward_packet-Answers clear_text zeros relay 100 incoming

-- The packet of the example passes the filter, and may be sent on.
may_send-envelope : may_send config envelope envelope.route_plan ≡ true
unfolding may_send contains
may_send-envelope = refl

passes_filter-envelope : passes_filter config [] 100 envelope ≡ true
unfolding check_and_insert is_fresh time_diff insert_packet lookup insert
passes_filter-envelope = refl
