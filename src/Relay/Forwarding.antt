-- ===== src/Relay/Forwarding.antt =====
-- crates/raynet-core/src/relay.rs: what `forward_packet` sends.
use raynet.Prelude.{
  err, Bool, false, ◌*◌, ℕ, suc, ◌+◌, ◌-◌, ◌%◌, ◌^◌, ◌≤◌, ◌<◌, ◌≡◌, refl, sym, ap, ◌∙◌, subst, true,
  false, not, ◌&&◌, ◌||◌, List, [], ◌∷◌, ◌++◌, Option, none, some, length, drop, IsU16,
  Result-cases, min, ltb, ◌==◌, arith, All, IsByte, All-append_left, All-append_right, Bool-cases,
  inl, inr, ◌⊎◌, ok, replicate,
}
use raynet.Machine.Types.{ChannelId, CoreAction, send_transport_packet}
use raynet.Machine.Checks.{receive_transport_packet, check_sequence, note_latest_sequence, tick_of}
use raynet.Wire.Layout.{Envelope, slice}
use raynet.Wire.Envelope.{encode_with_prefix, envelope_header, decode, route_bytes}
use raynet.Wire.Envelope.RoundTrip.{Fits}
use raynet.Wire.Envelope.Canonical.{decode_canonical}
use raynet.Packet.{
  Aead, RandomSource, random_u64, encode_transport_packet, decode_transport_packet,
  decrypt_envelope, TransportPacketError,
}
use raynet.Packet.RoundTrip.{packet_size, decode-encode_transport_packet}
use raynet.Limits.{effective_transport_mtu}
use raynet.Sequence.Filter.{SequenceFilter, check_and_insert, remove_expired}
use raynet.Sequence.Window.History.{is_ok}
use raynet.Relay.{
  RelayConfig, RelayCore, contains, unpadded_len, send_on, route_packet, accept_packet,
  forward_packet,
}

payload-IsByte : (e : Envelope) → All IsByte (encode_with_prefix e 0) → All IsByte e.payload
unfolding encode_with_prefix
payload-IsByte e h =
    let rest = route_bytes e.route_plan ++ replicate e.padding_len e.padding_len in
    All-append_left IsByte e.payload rest
      (All-append_right IsByte (envelope_header e) (e.payload ++ rest) h)

-- Whatever is decrypted fits the layout, and its payload is made of bytes.
decode_transport_packet-Fits :
    (aead : Aead) (key packet : List ℕ) (e : Envelope)
    → decode_transport_packet aead key packet ≡ ok e
    → Fits e × All IsByte e.payload
unfolding decode_transport_packet decrypt_envelope
decode_transport_packet-Fits aead key packet e d =
    elim (Bool-cases (ltb (length packet) 32 || ltb 65536 (length packet))) [
      | inl wrong ↦ absurd (cc (rw wrong at d))
      | inr right ↦
          let text = drop 32 packet in
          opened (aead.decrypt key (slice packet 0 16) text (slice packet 16 32) [])
            (aead.decrypt-IsByte key (slice packet 0 16) text (slice packet 16 32) [])
            (rw right at d)
    ]
  where
    opened :
        (o : Option (List ℕ))
        → ((plain : List ℕ) → o ≡ some plain → All IsByte plain)
        → decrypt_envelope o ≡ ok e
        → Fits e × All IsByte e.payload
    opened none hb h = absurd (cc h)
    opened (some plain) hb h = elim (Result-cases (decode plain)) [
      | inl (e', read) ↦
          let same : e' ≡ e = cc (rw (read, decrypt_envelope) at h) in
          let (fits, canonical) = decode_canonical plain e (hb plain refl) (read ∙ ap ok same) in
          (fits, payload-IsByte e (subst (All IsByte) (sym canonical) (hb plain refl)))
      | inr (_, wrong) ↦ absurd (cc (rw (wrong, decrypt_envelope) at h))
    ]

-- What one action says of the packet that came in as the envelope `e`: it goes to the first channel
-- of the route, a local one, and is a packet of at most the local size that opens, under the same
-- key, to that envelope without the first channel and with other padding.
pub record Forwards (aead : Aead) (config : RelayConfig) (e : Envelope) (actions : List CoreAction)
    : Type 0 where
  pub channel_id : ChannelId
  pub plan : List ChannelId
  pub bytes : List ℕ
  pub padding_len : ℕ
  pub sent : actions ≡ send_transport_packet channel_id bytes ∷ []
  pub first_hop : e.route_plan ≡ channel_id ∷ plan
  pub local : contains config.local_channels channel_id ≡ true
  pub opens :
      decode_transport_packet aead config.envelope_key bytes
      ≡ ok (record e { route_plan = plan; padding_len = padding_len })
  pub size : length bytes ≤ min config.local_min_mtu 65536

-- A packet is sent exactly when a test holds, and what is sent is right.
abbrev pub Answers : Aead → RelayConfig → Bool → Envelope → List CoreAction → Type 0
Answers aead config test e actions =
    (test ≡ true → Forwards aead config e actions) × (test ≡ false → actions ≡ [])

-- The test of the route: there is a first channel, it is a local one, and the packet without it has
-- room for one byte of padding.
unfoldable pub may_send : RelayConfig → Envelope → List ChannelId → Bool
may_send config e [] = false
may_send config e (channel_id ∷ plan) =
    contains config.local_channels channel_id
    && not (ltb (min config.local_min_mtu 65536) (48 + length plan * 2 + length e.payload + 1))

-- Whether the filter lets an envelope pass, by the clock of the relay.
abbrev pub passes_filter : RelayConfig → SequenceFilter → ℕ → Envelope → Bool
passes_filter config f elapsed_ms e =
    is_ok (
      check_and_insert f (tick_of config.boot_time_ms elapsed_ms % 2 ^ 26) e.time e.seq_id e.seq_no)

module _ {Stream : Type 0} (aead : Aead) (source : RandomSource Stream) where
  send_on-Answers :
      (core : RelayCore Stream) (e : Envelope) (channel_id : ChannelId) (plan : List ChannelId)
      → Fits e
      → All IsByte e.payload
      → e.route_plan ≡ channel_id ∷ plan
      → contains core.config.local_channels channel_id ≡ true
      → let actions = (send_on aead source core channel_id (record e { route_plan = plan })).1 in
        Answers aead core.config
          (not (
            ltb
              (min core.config.local_min_mtu 65536)
              (48 + length plan * 2 + length e.payload + 1)))
          e
          actions
  unfolding send_on effective_transport_mtu unpadded_len
  send_on-Answers core e channel_id plan f hp hr hl =
      let short = record e { route_plan = plan } in
      let mtu = min core.config.local_min_mtu 65536 in
      let available = min (mtu - unpadded_len short) 255 in
      let number = (random_u64 source core.random).0 in
      let padding = (1 + number % available) % 256 in
      let padded = record short { padding_len = padding } in
      elim (Bool-cases (ltb mtu (unpadded_len short + 1))) [
        | inl full ↦ rw full ((λ room. absurd (cc room)), (λ full. refl))
        | inr room ↦
            let channels : All IsU16 (channel_id ∷ plan) = subst (All IsU16) hr f.channels_fit in
            let hops : suc (length plan) < 64 = omega (arith, f.plan_fits, ap length hr) in
            let some_room : 0 < available = ground arith in
            let below : number % available < available = grind arith in
            let fits : Fits padded = record {
              time_fits = f.time_fits;
              seq_id_fits = f.seq_id_fits;
              seq_no_fits = f.seq_no_fits;
              plan_fits = omega arith;
              channels_fit = channels.1;
              padded = omega arith;
              padding_fits = omega arith;
            } in
            let size : packet_size padded ≤ mtu = unfold packet_size in ground arith in
            let s = (random_u64 source core.random).1 in
            let (len, opens) =
              decode-encode_transport_packet aead source core.config.envelope_key s padded fits hp
                (omega arith) in
            rw room (
              (λ sends. record {
                channel_id = channel_id;
                plan = plan;
                bytes = (encode_transport_packet aead source core.config.envelope_key s padded).0;
                padding_len = padding;
                sent = refl;
                first_hop = hr;
                local = hl;
                opens = opens;
                size = omega arith;
              }),
              (λ full. absurd (cc full)),
            )
      ]

  route_packet-Answers :
      (core : RelayCore Stream) (e : Envelope) (route : List ChannelId)
      → e.route_plan ≡ route
      → Fits e
      → All IsByte e.payload
      → Answers aead core.config
          (may_send core.config e route)
          e
          (route_packet aead source core e route).1
  unfolding route_packet may_send
  route_packet-Answers core e [] hr f hp = ((λ sends. absurd (cc sends)), (λ none_there. refl))
  route_packet-Answers core e (channel_id ∷ plan) hr f hp =
      elim (Bool-cases (contains core.config.local_channels channel_id)) [
        | inl local ↦ rw local (send_on-Answers core e channel_id plan f hp hr local)
        | inr foreign ↦ rw foreign ((λ sends. absurd (cc sends)), (λ none_there. refl))
      ]

  accept_packet-Answers :
      (core : RelayCore Stream) (elapsed_ms : ℕ) (e : Envelope)
      → Fits e
      → All IsByte e.payload
      → Answers aead core.config
          (passes_filter core.config core.sequence_filter elapsed_ms e
            && may_send core.config e e.route_plan)
          e
          (accept_packet aead source core elapsed_ms e).1
  unfolding accept_packet check_sequence
  accept_packet-Answers core elapsed_ms e f hp =
      let current_time = tick_of core.config.boot_time_ms elapsed_ms % 2 ^ 26 in
      let test = check_and_insert core.sequence_filter current_time e.time e.seq_id e.seq_no in
      elim (Result-cases test) [
        | inr (drop, stopped) ↦
            rw (stopped, check_sequence) ((λ sends. absurd (cc sends)), (λ none_there. refl))
        | inl (f', passes) ↦
            let passed = record core {
              sequence_filter = (remove_expired f' current_time 0).0;
              metrics =
                  note_latest_sequence core.metrics core.config.boot_time_ms elapsed_ms e.time
                    (length core.sequence_filter == 0);
            } in
            rw (passes, check_sequence) (route_packet-Answers passed e e.route_plan refl f hp)
      ]

  -- What a relay does with a packet, completely: one that does not open is answered with nothing.
  -- One that opens is sent on exactly when the filter lets it pass, its route has a first channel,
  -- which is a local one, and the rest has room for padding. What is sent goes to that channel, fits
  -- the local size, and opens under the same key to the same envelope without the channel and with
  -- other padding: the time, the numbers, the payload and the rest of the route are as they were.
  pub forward_packet-Answers :
      (core : RelayCore Stream) (elapsed_ms : ℕ) (bytes : List ℕ)
      → let actions = (forward_packet aead source core elapsed_ms bytes).1 in
        ((e : TransportPacketError) × (decode_transport_packet aead core.config.envelope_key bytes
            ≡ err e)
          × (actions ≡ []))
        ⊎ ((e : Envelope) × (decode_transport_packet aead core.config.envelope_key bytes ≡ ok e)
            × Answers aead core.config
                (passes_filter core.config core.sequence_filter elapsed_ms e
                  && may_send core.config e e.route_plan)
                e
                actions)
  unfolding forward_packet receive_transport_packet
  forward_packet-Answers core elapsed_ms bytes =
      elim (Result-cases (decode_transport_packet aead core.config.envelope_key bytes)) [
        | inr (e, wrong) ↦ inl (e, wrong, rw (wrong, receive_transport_packet, forward_packet) refl)
        | inl (e, read) ↦
            let (f, hp) = decode_transport_packet-Fits aead core.config.envelope_key bytes e read in
            let received =
              (receive_transport_packet aead core.config.envelope_key core.metrics bytes).0 in
            inr (
              e,
              read,
              rw (read, receive_transport_packet, forward_packet)
                  (accept_packet-Answers (record core { metrics = received }) elapsed_ms e f hp),
            )
      ]
