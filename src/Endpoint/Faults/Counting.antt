-- ===== src/Endpoint/Faults/Counting.antt =====
-- crates/raynet-core/src/endpoint.rs: what `handle_transport_packet` counts of a packet with a fault.
use raynet.Prelude.{
  ℕ, ◌≤◌, ◌<◌, ◌≡◌, ◌≢◌, ◌⊎◌, ◌∷◌, refl, ap, ◌∙◌, Bool, true, false, ◌||◌, List, [], none, some,
  length, ltb, ◌==◌, ok, err, returns, arith, Bool-cases, Result-cases, inl, inr, not, ◌&&◌,
}
use raynet.Prelude.Assoc.{lookup}
use raynet.Endpoint.{EndpointCore}
use raynet.Endpoint.Sending.{Running, current_time, open_endpoint_message, decode_opened}
use raynet.Endpoint.Closing.{count_dropped}
use raynet.Endpoint.Receiving.{handle_transport_packet}
use raynet.Endpoint.Refusals.{
  Refused, unreadable, routed, forged, stale, counted, handle_transport_packet-Refused,
}
use raynet.Kcp.Codec.{ByteOrder}
use raynet.Machine.Types.{CoreMetrics, CoreAction}
use raynet.Machine.Checks.{count_error, count_drop}
use raynet.Packet.{
  Aead, RandomSource, invalid_length, authentication, malformed_envelope, decode_transport_packet,
  decrypt_envelope,
}
use raynet.Sequence.Filter.{is_fresh, check_and_insert}
use raynet.Sequence.Filter.Accepts.{is_fresh_iff, TracksAll, in_window}
use raynet.Sequence.Window.{freshness, replay}
use raynet.Wire.Layout.{Envelope, EndpointMessage, stamp_of}
use raynet.Wire.Envelope.{encode_with_prefix, decode}
use raynet.Wire.Envelope.RoundTrip.{Fits, decode-encode_with_prefix}
use raynet.Wire.Envelope.Canonical.{decode_canonical}
use raynet.Wire.EndpointMessages
use raynet.Endpoint.Faults.{
  envelope_text, message_text, Carries, Says, IsTimely, Fault, wrong_size, other_key, no_envelope,
  on_its_way, other_peer, untimely, repeated, behind_window, noticed,
}
use raynet.Sequence.Filter.Drops.{check_and_insert-replay, check_and_insert-freshness}

and_false : (a : Bool) → (a && false) ≡ false
and_false true = refl
and_false false = refl

has_route : (plan : List ℕ) → plan ≢ [] → (length plan == 0) ≡ false
has_route [] some_hop = absurd (some_hop refl)
has_route (c ∷ plan) some_hop = ground arith

no_route : (plan : List ℕ) → plan ≡ [] → (length plan == 0) ≡ true
no_route plan home = rw home refl

module _ (aead : Aead) {Stream : Type 0} (core : EndpointCore Stream) (bytes : List ℕ) where
  decode_sized :
      32 ≤ length bytes
      → length bytes ≤ 65536
      → decode_transport_packet aead core.config.envelope_key bytes
        ≡ decrypt_envelope (envelope_text aead core bytes)
  unfolding decode_transport_packet
  decode_sized long short =
      let sized : (ltb (length bytes) 32 || ltb 65536 (length bytes)) ≡ false = ground arith in
      rw sized refl

  decode_carried :
      (e : Envelope)
      → Carries aead core bytes e
      → decode_transport_packet aead core.config.envelope_key bytes ≡ ok e
  unfolding decrypt_envelope
  decode_carried e c =
      decode_sized c.long c.short
      ∙ rw (c.text, decrypt_envelope, decode-encode_with_prefix e c.fits) refl

  decode_sealed :
      32 ≤ length bytes
      → length bytes ≤ 65536
      → envelope_text aead core bytes ≡ none
      → decode_transport_packet aead core.config.envelope_key bytes ≡ err authentication
  unfolding decrypt_envelope
  decode_sealed long short sealed = decode_sized long short ∙ ap decrypt_envelope sealed

  decode_unsized :
      (length bytes < 32) ⊎ (65536 < length bytes)
      → decode_transport_packet aead core.config.envelope_key bytes ≡ err invalid_length
  unfolding decode_transport_packet
  decode_unsized unsized =
      let guarded : (ltb (length bytes) 32 || ltb 65536 (length bytes)) ≡ true = ground arith in
      rw guarded refl

  decode_malformed :
      (text : List ℕ)
      → 32 ≤ length bytes
      → length bytes ≤ 65536
      → envelope_text aead core bytes ≡ some text
      → ((e : Envelope) → Fits e → encode_with_prefix e 0 ≢ text)
      → decode_transport_packet aead core.config.envelope_key bytes ≡ err malformed_envelope
  unfolding decrypt_envelope
  decode_malformed text long short opens none_fits = elim (Result-cases (decode text)) [
    | inl (e, decoded) ↦
        let (fits, same) =
          decode_canonical text e (aead.decrypt-IsByte _ _ _ _ _ text opens) decoded in
        absurd (none_fits e fits same)
    | inr (e, malformed) ↦ decode_sized long short ∙ rw (opens, decrypt_envelope, malformed) refl
  ]

  open_said :
      (e : Envelope) (m : EndpointMessage)
      → Says aead core bytes e m
      → open_endpoint_message aead core (stamp_of e) e.payload ≡ returns (some m)
  unfolding open_endpoint_message decode_opened
  open_said e m said =
      let long : ltb (length e.payload) 16 ≡ false = ground (arith, said.tagged) in
      rw (long, said.message, EndpointMessages.decode-encode_endpoint_message m said.message_fits)
        refl

  open_other :
      (e : Envelope)
      → (length e.payload < 16) ⊎ (message_text aead core bytes e ≡ none)
      → open_endpoint_message aead core (stamp_of e) e.payload ≡ returns none
  unfolding open_endpoint_message decode_opened
  open_other e (inl short) =
      let cut : ltb (length e.payload) 16 ≡ true = ground arith in rw cut refl
  open_other e (inr sealed) = elim (Bool-cases (ltb (length e.payload) 16)) [
    | inl short ↦ rw short refl
    | inr long ↦ rw (long, sealed) refl
  ]

  is_fresh-IsTimely :
      (elapsed_ms : ℕ) (e : Envelope)
      → IsTimely aead core bytes elapsed_ms e
      → is_fresh (current_time core elapsed_ms) e.time ≡ true
  is_fresh-IsTimely at e timely =
      (is_fresh_iff (current_time core at) e.time).1 timely.not_old timely.not_ahead

  is_fresh-untimely :
      (elapsed_ms : ℕ) (e : Envelope)
      → ¬ IsTimely aead core bytes elapsed_ms e
      → is_fresh (current_time core elapsed_ms) e.time ≡ false
  is_fresh-untimely at e late = elim (Bool-cases (is_fresh (current_time core at) e.time)) [
    | inl fresh ↦
        let (not_old, not_ahead) = (is_fresh_iff (current_time core at) e.time).0 fresh in
        absurd (late (record { not_old = not_old; not_ahead = not_ahead }))
    | inr stale_time ↦ stale_time
  ]

module _ {Stream : Type 0} (order : ByteOrder) (aead : Aead) (source : RandomSource Stream)
    (core : EndpointCore Stream) (bytes : List ℕ) where
  filter_refuses :
      (seen : ℕ → ℕ → Bool) (elapsed_ms : ℕ) (e : Envelope)
      → TracksAll core.sequence_filter seen
      → IsTimely aead core bytes elapsed_ms e
      → (in_window (lookup e.seq_id core.sequence_filter) e.seq_no && not (seen e.seq_id e.seq_no))
        ≡ false
      → check_and_insert core.sequence_filter
          (current_time core elapsed_ms)
          e.time
          e.seq_id
          e.seq_no
        ≡ err replay
  filter_refuses seen at e t timely bad =
      check_and_insert-replay core.sequence_filter seen (current_time core at) e.time e.seq_id
        e.seq_no t (is_fresh-IsTimely aead core bytes at e timely) bad

  -- The refusal that a fault leads to.
  refusal :
      (seen : ℕ → ℕ → Bool) (elapsed_ms : ℕ)
      → TracksAll core.sequence_filter seen
      → (fault : Fault aead core bytes seen elapsed_ms)
      → (refused : Refused order aead source core elapsed_ms bytes) × (counted order aead source
            core elapsed_ms bytes refused
          ≡ noticed aead core bytes fault)
  unfolding count_error count_drop count_dropped
  refusal seen at t (wrong_size unsized) =
      (unreadable invalid_length (decode_unsized aead core bytes unsized), refl)
  refusal seen at t (other_key long short sealed) =
      (unreadable authentication (decode_sealed aead core bytes long short sealed), refl)
  refusal seen at t (no_envelope text long short opens none_fits) = (
    unreadable malformed_envelope
        (decode_malformed aead core bytes text long short opens none_fits),
    refl,
  )
  refusal seen at t (on_its_way e carried some_hop) =
      (routed e (decode_carried aead core bytes e carried) (has_route e.route_plan some_hop), refl)
  refusal seen at t (other_peer e carried home sealed) = (
    forged e (decode_carried aead core bytes e carried) (no_route e.route_plan home)
        (open_other aead core bytes e sealed),
    refl,
  )
  refusal seen at t (untimely e m said late) = (
    stale e m freshness (decode_carried aead core bytes e said.carried)
        (no_route e.route_plan said.home) (open_said aead core bytes e m said)
        (check_and_insert-freshness core.sequence_filter (current_time core at) e.time e.seq_id
          e.seq_no (is_fresh-untimely aead core bytes at e late)),
    refl,
  )
  refusal seen at t (repeated e m said timely again) = (
    stale e m replay (decode_carried aead core bytes e said.carried)
        (no_route e.route_plan said.home) (open_said aead core bytes e m said)
        (filter_refuses seen at e t timely (rw again (and_false _))),
    refl,
  )
  refusal seen at t (behind_window e m w said timely has old) = (
    stale e m replay (decode_carried aead core bytes e said.carried)
        (no_route e.route_plan said.home) (open_said aead core bytes e m said)
        (filter_refuses seen at e t timely (rw has (ground arith))),
    refl,
  )

  -- A packet with a fault changes nothing but one counter, where the windows of the filter stand
  -- for the numbers that were accepted of each sender: the shell is told nothing, nothing is sent,
  -- and no window, session, sample or route changes. A packet of less than 32 or more than 65536
  -- bytes, and one that opens and still has a route, is counted as dropped; one that does not open
  -- under the envelope key, or whose message is too short for a tag or does not open under the
  -- message key, as a failure of authentication; one whose text is the encoding of no envelope that
  -- fits the layout, as malformed. Of the packets with a message that opens and fits its layout, one
  -- that is more than 645 ticks old or more than 59 ahead is counted as not fresh, and any other
  -- whose number was accepted before, or is 2^20 or more behind the newest of its sender, as a
  -- replay.
  pub handle_transport_packet-Fault :
      (seen : ℕ → ℕ → Bool) (elapsed_ms : ℕ) (actions : List CoreAction)
      → TracksAll core.sequence_filter seen
      → (fault : Fault aead core bytes seen elapsed_ms)
      → handle_transport_packet order aead source
          (record { core = core; actions = actions })
          elapsed_ms
          bytes
        ≡ returns (record {
          core = record core { metrics = noticed aead core bytes fault };
          actions = actions;
        })
  handle_transport_packet-Fault seen at actions t fault =
      let r : Running Stream = record { core = core; actions = actions } in
      let (refused, raised) = refusal seen at t fault in
      handle_transport_packet-Refused order aead source r at bytes refused
      ∙ ap (λ (m : CoreMetrics). returns (record r { core = record core { metrics = m } })) raised
