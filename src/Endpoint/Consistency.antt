-- ===== src/Endpoint/Consistency.antt =====
-- crates/raynet-core/src/endpoint.rs: what the fields of an endpoint promise one another.
pub mod Sessions
pub mod Messages
pub mod Expiry
pub mod Calls
pub mod Runs
use raynet.Prelude.{
  ℕ, ◌+◌, ◌-◌, ◌*◌, ◌%◌, ◌^◌, ◌≤◌, ◌<◌, ◌≡◌, refl, sym, subst, Bool, true, false, List, [], ◌∷◌,
  map, Option, none, some, length, is_some, ltb, ◌==◌, if◌then◌else◌, Bool-cases, inl, inr, Outcome,
  returns, panics, arith, length-map, add64,
}
use raynet.Prelude.Outcomes.{◌>>=◌, check_that, Ensures, Ensures-bind, Ensures-after}
use raynet.Prelude.Assoc.{AllValues, AllValues-insert_sorted}
use raynet.Endpoint.{EndpointCore, FeedbackSample, packet_id, sequence_mask}
use raynet.Endpoint.Session.{
  EndpointSession, SessionPhase, pending_remote, opened, closing_local, closing_remote,
}
use raynet.Endpoint.Sending.{
  Running, push, byte_of, feedback_due, next_sequence, available, note_sample, send_routed,
  send_planned, send_envelope, send_endpoint_message, send_kcp_packets, seal_endpoint_message,
  current_time,
}
use raynet.Machine.Types.{ChannelId, CloseReason, CoreAction}
use raynet.Packet.{Aead, RandomSource, random_u64}
use raynet.Routing.{RoutePlanner}
use raynet.Routing.Plans.{build_route_plan}
use raynet.Routing.Plans.Links.{Leads}
use raynet.Routing.Plans.Planning.{
  IsGraph, IsPlanned, LeadsAll, build_route_plan-IsPlanned, IsGraph-shape,
}
use raynet.Routing.Shape.{Link, link, shape}
use raynet.Wire.Layout.{EnvelopeStamp, EndpointMessage, kcp_packet}

-- What the phase of a session says of its other fields.
abbrev pub Phased : SessionPhase → Option CloseReason → Option ℕ → Type 0
Phased pending_remote reason deadline = is_some deadline ≡ true
Phased opened reason deadline = deadline ≡ none
Phased closing_local reason deadline = (is_some reason ≡ true) × (is_some deadline ≡ true)
Phased closing_remote reason deadline = is_some deadline ≡ true

abbrev pub IsPhased : EndpointSession → Type 0
IsPhased session = Phased session.phase session.pending_close session.close_deadline_at

abbrev pub LeadsHome : List (List Link) → List ChannelId → Type 0
LeadsHome rows plan = Leads rows 0 (length rows - 1) plan

-- The planner has a graph; the plan of each outstanding sample leads through it; the fields of each
-- session fit its phase; and the next packet has numbers of 48 bits, or new ones.
pub record Consistent (planner : RoutePlanner) (outstanding : List (ℕ × FeedbackSample))
    (sessions : List (ℕ × EndpointSession)) (seq_id next_seq_no : ℕ) : Type 0 where
  pub graph : IsGraph planner.nodes
  pub samples :
      AllValues (λ (s : FeedbackSample). LeadsHome (shape planner.nodes) s.route_plan) outstanding
  pub phases : AllValues IsPhased sessions
  pub id_lt : seq_id < 2 ^ 48
  pub next_le : next_seq_no ≤ 2 ^ 48

module _ {Stream : Type 0} where
  abbrev pub IsConsistent : EndpointCore Stream → Type 0
  IsConsistent core =
      Consistent core.route_planner core.outstanding core.sessions core.seq_id core.next_seq_no

  -- What an operation promises: the core that it leaves is consistent, if it returns.
  abbrev pub Keeps : Outcome (Running Stream) → Type 0
  Keeps o = Ensures (λ (r : Running Stream). IsConsistent r.core) o

  pub planned-IsConsistent :
      (core : EndpointCore Stream) (planner : RoutePlanner)
      → shape planner.nodes ≡ shape core.route_planner.nodes
      → IsConsistent core
      → IsConsistent (record core { route_planner = planner })
  planned-IsConsistent core planner e v = record {
    graph = IsGraph-shape core.route_planner.nodes planner.nodes e v.graph;
    samples = rw e v.samples;
    phases = v.phases;
    id_lt = v.id_lt;
    next_le = v.next_le;
  }

module _ {Stream : Type 0} (source : RandomSource Stream) where
  note_sample-IsConsistent :
      (core : EndpointCore Stream) (elapsed_ms : ℕ) (stamp : EnvelopeStamp) (plan : List ChannelId)
      → LeadsHome (shape core.route_planner.nodes) plan
      → IsConsistent core
      → Ensures IsConsistent (note_sample source core elapsed_ms stamp plan)
  unfolding note_sample
  note_sample-IsConsistent core elapsed_ms stamp plan leads v =
      Ensures-after IsConsistent (check_that (ltb 0 core.config.route.feedback_interval_ms)) _
        (λ _ _. record {
          graph = v.graph;
          samples =
              AllValues-insert_sorted
                (λ (s : FeedbackSample). LeadsHome (shape core.route_planner.nodes) s.route_plan) _
                _ core.outstanding leads v.samples;
          phases = v.phases;
          id_lt = v.id_lt;
          next_le = v.next_le;
        })

  pub next_sequence-IsConsistent :
      (core : EndpointCore Stream) → IsConsistent core → IsConsistent (next_sequence source core).0
  unfolding next_sequence
  next_sequence-IsConsistent core v = elim (Bool-cases (ltb sequence_mask core.next_seq_no)) [
    | inl spent ↦ rw spent (record {
      graph = v.graph;
      samples = v.samples;
      phases = v.phases;
      id_lt = omega arith;
      next_le = omega arith;
    })
    | inr left ↦ rw left (record {
      graph = v.graph;
      samples = v.samples;
      phases = v.phases;
      id_lt = v.id_lt;
      next_le = ground (arith, left, v.next_le);
    })
  ]

  module _ (aead : Aead) where
    send_routed-Keeps :
        (r : Running Stream) (elapsed_ms : ℕ) (stamp : EnvelopeStamp) (payload : List ℕ)
        (sample : Bool) (channel_id : ChannelId) (rest : List ChannelId)
        → LeadsHome (shape r.core.route_planner.nodes) (channel_id ∷ rest)
        → IsConsistent r.core
        → Keeps (send_routed source aead r elapsed_ms stamp payload sample channel_id rest)
    unfolding send_routed push
    send_routed-Keeps r elapsed_ms stamp payload false channel_id rest leads v =
        Ensures-after (λ (q : Running Stream). IsConsistent q.core)
          (check_that (ltb 0 (available r.core (length rest) payload))) _ (λ _ _. v)
    send_routed-Keeps r elapsed_ms stamp payload true channel_id rest leads v =
        Ensures-after (λ (q : Running Stream). IsConsistent q.core)
          (check_that (ltb 0 (available r.core (length rest) payload))) _
          (λ _ _.
            Ensures-bind IsConsistent (λ (q : Running Stream). IsConsistent q.core) _ _
              (note_sample-IsConsistent _ elapsed_ms stamp (channel_id ∷ rest) leads v)
              (λ core w. w))

    send_planned-Keeps :
        (r : Running Stream) (elapsed_ms : ℕ) (stamp : EnvelopeStamp) (payload : List ℕ)
        (sample : Bool) (plan : Option (List ChannelId))
        → LeadsAll
            (shape r.core.route_planner.nodes)
            (length (shape r.core.route_planner.nodes) - 1)
            plan
        → IsConsistent r.core
        → Keeps (send_planned source aead r elapsed_ms stamp payload sample plan)
    unfolding send_planned
    send_planned-Keeps r elapsed_ms stamp payload sample none leads v = v
    send_planned-Keeps r elapsed_ms stamp payload sample (some []) leads v = tt
    send_planned-Keeps r elapsed_ms stamp payload sample (some (c ∷ rest)) leads v =
        send_routed-Keeps r elapsed_ms stamp payload sample c rest leads v

    pub send_envelope-Keeps :
        (r : Running Stream) (elapsed_ms : ℕ) (stamp : EnvelopeStamp) (payload : List ℕ)
        (sample : Bool)
        → IsConsistent r.core
        → Keeps (send_envelope source aead r elapsed_ms stamp payload sample)
    unfolding send_envelope
    send_envelope-Keeps r elapsed_ms stamp payload sample v =
        let bytes = add64 (length payload) r.core.scheduled_packet_overhead in
        let p = build_route_plan-IsPlanned r.core.route_planner elapsed_ms bytes sample v.graph in
        let nodes = r.core.route_planner.nodes in
        let size : length (shape nodes) ≡ length nodes = length-map (λ es. map link es) nodes in
        rw p.result_eq (
          send_planned-Keeps (record r { core = record r.core { route_planner = p.planner' } })
            elapsed_ms stamp payload sample p.plan (rw (p.shape_eq, size) p.leads)
            (planned-IsConsistent r.core p.planner' p.shape_eq v))

    pub send_endpoint_message-Keeps :
        (r : Running Stream) (elapsed_ms : ℕ) (m : EndpointMessage) (sample : Bool)
        → IsConsistent r.core
        → Keeps (send_endpoint_message source aead r elapsed_ms m sample)
    unfolding send_endpoint_message
    send_endpoint_message-Keeps r elapsed_ms m sample v =
        send_envelope-Keeps (record r { core = (next_sequence source r.core).0 }) elapsed_ms _ _
          sample (next_sequence-IsConsistent r.core v)

    pub send_kcp_packets-Keeps :
        (r : Running Stream) (elapsed_ms : ℕ) (packets : List (List ℕ))
        → IsConsistent r.core
        → Keeps (send_kcp_packets source aead r elapsed_ms packets)
    unfolding send_kcp_packets
    send_kcp_packets-Keeps r elapsed_ms [] v = v
    send_kcp_packets-Keeps r elapsed_ms (packet ∷ packets) v =
        let sample = feedback_due r.core elapsed_ms in
        Ensures-bind (λ (q : Running Stream). IsConsistent q.core)
          (λ (q : Running Stream). IsConsistent q.core) _ _
          (send_endpoint_message-Keeps r elapsed_ms (kcp_packet (byte_of sample) packet) sample v)
          (λ r' w. send_kcp_packets-Keeps r' elapsed_ms packets w)
