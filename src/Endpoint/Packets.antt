-- ===== src/Endpoint/Packets.antt =====
-- crates/raynet-core/src/endpoint.rs: every packet that carries a datagram of a session fits the
-- route.
use raynet.Prelude.{
  ℕ, ◌+◌, ◌%◌, ◌^◌, min, ◌≤◌, ◌<◌, ◌≡◌, refl, Bool, true, false, List, [], ◌∷◌, ◌++◌, length, drop,
  ltb, ◌==◌, returns, returns_injective, arith, length-append,
}
use raynet.Endpoint.{EndpointCore, overhead_of, scheduled_packet_overhead, kcp_params_of}
use raynet.Endpoint.Lengths.{EndsEmpty, planner_nodes, longest-Descends, longest-le, length-Leads}
use raynet.Endpoint.Sending.{
  Running, push, unpadded_len, available, add_sample, note_sample, pack_envelope, send_routed,
  seal_endpoint_message,
}
use raynet.Limits.{effective_transport_mtu}
use raynet.Machine.Types.{ChannelId, send_transport_packet}
use raynet.Packet.{Aead, RandomSource, random_u64}
use raynet.Packet.RoundTrip.{packet_size, length-encode_transport_packet}
use raynet.Routing.Paths.Relaxing.{Forward}
use raynet.Routing.Plans.Links.{Leads}
use raynet.Routing.Shape.{shape}
use raynet.Wire.Layout.{Envelope, EnvelopeStamp, kcp_packet}
use raynet.Wire.Envelope.{endpoint_nonce}
use raynet.Wire.EndpointMessages.{encode_with_prefix, encode_flags_body}

module _ {Stream : Type 0} (aead : Aead) (source : RandomSource Stream) where
  -- The tag and the flags are 17 bytes.
  length-seal :
      (core : EndpointCore Stream) (stamp : EnvelopeStamp) (depth : ℕ) (packet : List ℕ)
      → length (seal_endpoint_message aead core stamp (kcp_packet depth packet))
        ≡ 17 + length packet
  unfolding seal_endpoint_message encode_with_prefix encode_flags_body
  length-seal core stamp depth packet =
      let out = encode_with_prefix (kcp_packet depth packet) 16 in
      let (text, tag) =
        aead.encrypt core.config.message_key (endpoint_nonce stamp) (drop 16 out) [] in
      let (text_len, tag_len) =
        aead.length-encrypt core.config.message_key (endpoint_nonce stamp) (drop 16 out) [] in
      omega (arith, length-append tag text, text_len, tag_len)

  pack_envelope-Fits :
      (core : EndpointCore Stream) (elapsed_ms : ℕ) (stamp : EnvelopeStamp) (payload : List ℕ)
      (rest : List ChannelId)
      → unpadded_len (length rest) payload < effective_transport_mtu core.config.route.min_mtu
      → let bytes = (pack_envelope source aead core elapsed_ms stamp payload rest).1 in
        (unpadded_len (length rest) payload < length bytes)
        × (length bytes ≤ effective_transport_mtu core.config.route.min_mtu)
  unfolding pack_envelope available unpadded_len effective_transport_mtu packet_size
  pack_envelope-Fits core at stamp payload rest h =
      let mtu = min core.config.route.min_mtu 65536 in
      let room = available core (length rest) payload in
      let some_room : 0 < room = ground arith in
      let (number, random) = random_u64 source core.random in
      let envelope : Envelope = record {
        time = stamp.time;
        seq_id = stamp.seq_id;
        seq_no = stamp.seq_no;
        route_plan = rest;
        payload = payload;
        padding_len = (1 + number % room) % 256;
      } in
      let size =
        length-encode_transport_packet aead source core.config.envelope_key random envelope in
      let least : 1 ≤ (1 + number % room) % 256 = grind arith in
      let most : (1 + number % room) % 256 ≤ room = grind arith in
      (omega (arith, size, least), ground (arith, size, most))

  note_sample-returns :
      (core : EndpointCore Stream) (elapsed_ms : ℕ) (stamp : EnvelopeStamp) (plan : List ChannelId)
      → 0 < core.config.route.feedback_interval_ms
      → (core' : EndpointCore Stream) × (note_sample source core elapsed_ms stamp plan
          ≡ returns core')
  unfolding note_sample
  note_sample-returns core at stamp plan h =
      let some_interval : ltb 0 core.config.route.feedback_interval_ms ≡ true = ground arith in
      (add_sample source core at stamp plan, rw some_interval refl)

  -- What is sent where the packet without padding is shorter than the route allows.
  send_routed-Sends :
      (r : Running Stream) (elapsed_ms : ℕ) (stamp : EnvelopeStamp) (payload : List ℕ)
      (sample : Bool) (channel_id : ChannelId) (rest : List ChannelId)
      → 0 < r.core.config.route.feedback_interval_ms
      → unpadded_len (length rest) payload < effective_transport_mtu r.core.config.route.min_mtu
      → (r' : Running Stream) × (bytes : List ℕ) × (send_routed source aead r elapsed_ms stamp
            payload sample channel_id rest
          ≡ returns r')
        × (r'.actions ≡ r.actions ++ (send_transport_packet channel_id bytes ∷ []))
        × (unpadded_len (length rest) payload < length bytes)
        × (length bytes ≤ effective_transport_mtu r.core.config.route.min_mtu)
  unfolding send_routed push available unpadded_len effective_transport_mtu
  send_routed-Sends r at stamp payload false channel rest interval h =
      let room : ltb 0 (available r.core (length rest) payload) ≡ true = ground arith in
      let (sent, bytes) = pack_envelope source aead r.core at stamp payload rest in
      let (low, high) = pack_envelope-Fits r.core at stamp payload rest h in
      (
        push (record r { core = sent }) (send_transport_packet channel bytes),
        bytes,
        rw room,
        refl,
        low,
        high,
      )
  send_routed-Sends r at stamp payload true channel rest interval h =
      let room : ltb 0 (available r.core (length rest) payload) ≡ true = ground arith in
      let (sent, bytes) = pack_envelope source aead r.core at stamp payload rest in
      let (low, high) = pack_envelope-Fits r.core at stamp payload rest h in
      let (noted, e) = note_sample-returns sent at stamp (channel ∷ rest) interval in
      (
        push (record r { core = noted }) (send_transport_packet channel bytes),
        bytes,
        rw (room, e),
        refl,
        low,
        high,
      )

  -- A datagram of a session, of at most the size that the parameters give, is always sent: in a
  -- packet for the first channel of the plan that is not longer than the smallest of the route
  -- allows, and at least as long as its parts and a byte of padding. The plan leads through the
  -- graph of the configuration, whose overhead the core counts with and leaves room for a datagram;
  -- the graph leads forward, has less than 2^32 nodes, and no edge leaves its last node; one byte to
  -- 255 are reserved for padding, and the feedback interval is not zero.
  pub send_datagram-Fits :
      (r : Running Stream) (elapsed_ms : ℕ) (stamp : EnvelopeStamp) (depth destination : ℕ)
      (packet : List ℕ) (sample : Bool) (channel_id : ChannelId) (rest : List ChannelId)
      → let config = r.core.config in
        let nodes = config.route.graph.nodes in
        let overhead = r.core.scheduled_packet_overhead in
        let mtu = effective_transport_mtu config.route.min_mtu in
        0 < length nodes
        → length nodes < 2 ^ 32
        → Forward (length nodes) 0 (planner_nodes nodes)
        → EndsEmpty nodes
        → scheduled_packet_overhead config ≡ returns overhead
        → overhead + 17 ≤ mtu
        → 0 < config.padding_reserve
        → config.padding_reserve < 256
        → 0 < config.route.feedback_interval_ms
        → Leads (shape (planner_nodes nodes)) 0 destination (channel_id ∷ rest)
        → length packet ≤ (kcp_params_of config overhead).mtu
        → let payload = seal_endpoint_message aead r.core stamp (kcp_packet depth packet) in
          (r' : Running Stream) × (bytes : List ℕ) × (send_routed source aead r elapsed_ms stamp
              payload sample channel_id rest
            ≡ returns r')
          × (r'.actions ≡ r.actions ++ (send_transport_packet channel_id bytes ∷ []))
          × (unpadded_len (length rest) payload < length bytes)
          × (length bytes ≤ mtu)
  unfolding scheduled_packet_overhead overhead_of kcp_params_of unpadded_len effective_transport_mtu
  send_datagram-Fits r at stamp depth destination packet sample channel rest nonempty few forward
        ends counted small reserve byte interval leads fits =
      let nodes = r.core.config.route.graph.nodes in
      let (lengths, found, d) = longest-Descends (length nodes) 0 nodes forward ends in
      let more : (length nodes == 0) ≡ false = ground arith in
      let hops =
        length-Leads lengths (shape (planner_nodes nodes)) 0 destination (channel ∷ rest) d leads in
      let overhead : overhead_of r.core.config.padding_reserve (lengths 0)
          ≡ r.core.scheduled_packet_overhead =
        returns_injective (rw (more, found) at counted) in
      let sealed = length-seal r.core stamp depth packet in
      let longest_le = longest-le (length nodes) nodes lengths forward found in
      send_routed-Sends r at stamp
        (seal_endpoint_message aead r.core stamp (kcp_packet depth packet)) sample channel rest
        interval (omega (arith, sealed, hops, overhead, fits, small, longest_le))
