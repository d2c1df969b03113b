-- ===== src/Endpoint/Faults.antt =====
-- crates/raynet-core/src/endpoint.rs: the packets that `handle_transport_packet` refuses, described
-- by the bytes that they carry and the numbers that were accepted before.
pub mod Counting
use raynet.Prelude.{
  ℕ, ◌+◌, ◌^◌, ◌≤◌, ◌<◌, ◌≡◌, ◌≢◌, ◌⊎◌, Bool, true, List, [], Option, none, some, length, take,
  drop, add64,
}
use raynet.Prelude.Int.{pos, negsuc, ◌≤ℤ◌}
use raynet.Prelude.Assoc.{lookup}
use raynet.Endpoint.{EndpointCore}
use raynet.Endpoint.Sending.{current_time}
use raynet.Machine.Types.{CoreMetrics}
use raynet.Packet.{Aead}
use raynet.Sequence.Time.{time_diff}
use raynet.Sequence.Window.{SequenceWindow}
use raynet.Wire.Layout.{Envelope, EndpointMessage, stamp_of, slice}
use raynet.Wire.Envelope.{encode_with_prefix, endpoint_nonce}
use raynet.Wire.Envelope.RoundTrip.{Fits}
use raynet.Wire.EndpointMessages

module _ (aead : Aead) {Stream : Type 0} (core : EndpointCore Stream) (bytes : List ℕ) where
  -- The envelope's text, under the envelope key: the nonce and the tag are in front of it.
  abbrev pub envelope_text : Option (List ℕ)
  envelope_text =
      aead.decrypt core.config.envelope_key (slice bytes 0 16) (drop 32 bytes) (slice bytes 16 32)
        []

  -- The message's text, under the message key: the tag is in front of it.
  abbrev pub message_text : Envelope → Option (List ℕ)
  message_text e =
      aead.decrypt core.config.message_key (endpoint_nonce (stamp_of e)) (drop 16 e.payload)
        (take 16 e.payload) []

  -- A packet of a size that can be, which carries the envelope.
  pub record Carries (e : Envelope) : Type 0 where
    pub long : 32 ≤ length bytes
    pub short : length bytes ≤ 65536
    pub fits : Fits e
    pub text : envelope_text ≡ some (encode_with_prefix e 0)

  -- An envelope that has arrived, with a message in it.
  pub record Says (e : Envelope) (m : EndpointMessage) : Type 0 where
    pub carried : Carries e
    pub home : e.route_plan ≡ []
    pub tagged : 16 ≤ length e.payload
    pub message_fits : EndpointMessages.Fits m
    pub message : message_text e ≡ some (EndpointMessages.encode_with_prefix m 0)

  -- At most 645 ticks old, and at most 59 ahead.
  pub record IsTimely (elapsed_ms : ℕ) (e : Envelope) : Type 0 where
    pub not_old : time_diff (current_time core elapsed_ms) e.time ≤ℤ pos 645
    pub not_ahead : negsuc 58 ≤ℤ time_diff (current_time core elapsed_ms) e.time

  -- The faults of a packet, where `seen` are the numbers that were accepted of each sender.
  pub data Fault (seen : ℕ → ℕ → Bool) (elapsed_ms : ℕ) : Type 0 where
    wrong_size : (length bytes < 32) ⊎ (65536 < length bytes) → Fault seen elapsed_ms
    other_key :
        32 ≤ length bytes → length bytes ≤ 65536 → envelope_text ≡ none → Fault seen elapsed_ms
    no_envelope :
        (text : List ℕ)
        → 32 ≤ length bytes
        → length bytes ≤ 65536
        → envelope_text ≡ some text
        → ((e : Envelope) → Fits e → encode_with_prefix e 0 ≢ text)
        → Fault seen elapsed_ms
    on_its_way : (e : Envelope) → Carries e → e.route_plan ≢ [] → Fault seen elapsed_ms
    other_peer :
        (e : Envelope)
        → Carries e
        → e.route_plan ≡ []
        → (length e.payload < 16) ⊎ (message_text e ≡ none)
        → Fault seen elapsed_ms
    untimely :
        (e : Envelope) (m : EndpointMessage)
        → Says e m
        → ¬ IsTimely elapsed_ms e
        → Fault seen elapsed_ms
    repeated :
        (e : Envelope) (m : EndpointMessage)
        → Says e m
        → IsTimely elapsed_ms e
        → seen e.seq_id e.seq_no ≡ true
        → Fault seen elapsed_ms
    behind_window :
        (e : Envelope) (m : EndpointMessage) (w : SequenceWindow)
        → Says e m
        → IsTimely elapsed_ms e
        → lookup e.seq_id core.sequence_filter ≡ some w
        → e.seq_no + 2 ^ 20 ≤ w.max_seq_no
        → Fault seen elapsed_ms

  -- The counters behind a fault.
  abbrev pub noticed : {seen : ℕ → ℕ → Bool} {elapsed_ms : ℕ} → Fault seen elapsed_ms → CoreMetrics
  noticed (wrong_size _) = record core.metrics {
    packets_dropped = add64 core.metrics.packets_dropped 1;
  }
  noticed (other_key _ _ _) = record core.metrics {
    authentication_failures = add64 core.metrics.authentication_failures 1;
  }
  noticed (no_envelope _ _ _ _ _) = record core.metrics {
    malformed_packets = add64 core.metrics.malformed_packets 1;
  }
  noticed (on_its_way _ _ _) = record core.metrics {
    packets_dropped = add64 core.metrics.packets_dropped 1;
  }
  noticed (other_peer _ _ _ _) = record core.metrics {
    authentication_failures = add64 core.metrics.authentication_failures 1;
  }
  noticed (untimely _ _ _ _) = record core.metrics {
    freshness_drops = add64 core.metrics.freshness_drops 1;
  }
  noticed (repeated _ _ _ _ _) = record core.metrics {
    replay_drops = add64 core.metrics.replay_drops 1;
  }
  noticed (behind_window _ _ _ _ _ _ _) = record core.metrics {
    replay_drops = add64 core.metrics.replay_drops 1;
  }
