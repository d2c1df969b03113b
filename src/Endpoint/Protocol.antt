-- ===== src/Endpoint/Protocol.antt =====
-- crates/raynet-core/src/endpoint.rs: what the shell sees of a conversation, as an abstract protocol
-- over the actions, and that the way out follows it.
pub mod Handling
pub mod Packets
pub mod Events
pub mod Polls
use raynet.Prelude.{
  ℕ, ◌+◌, ◌≡◌, refl, sym, ◌∙◌, ap, Bool, true, false, List, [], ◌∷◌, ◌++◌, append-nil, append_assoc,
  Option, none, some, length, ltb, ◌==◌, if◌then◌else◌, is_some, Bool-cases, Option-cases, inl, inr,
  subst, Outcome, returns, panics, arith, add64,
}
use raynet.Prelude.Outcomes.{◌>>=◌, Ensures, Ensures-bind, Ensures-after, check_that}
use raynet.Prelude.Assoc.{lookup, insert_sorted, remove, lookup-insert_sorted, lookup-remove}
use raynet.Endpoint.{EndpointCore}
use raynet.Endpoint.Session.{
  EndpointSession, SessionPhase, pending_remote, opened, closing_local, closing_remote,
}
use raynet.Endpoint.Sending.{
  Running, push, byte_of, feedback_due, next_sequence, available, note_sample, send_routed,
  send_planned, send_envelope, send_endpoint_message, send_kcp_packets,
}
use raynet.Machine.Types.{
  ChannelId, ConvId, CoreAction, send_transport_packet, open_session, write_session, close_session,
}
use raynet.Packet.{Aead, RandomSource}
use raynet.Routing.Plans.{build_route_plan}
use raynet.Wire.Layout.{EnvelopeStamp, EndpointMessage, kcp_packet}

-- Whether the shell has a handler for a conversation.
pub data View : Type 0 where
  idle live : View

-- A session is seen from its opening until its end is told: from this side, once it is over; from
-- the other, at once.
abbrev pub view_phase : SessionPhase → View
view_phase pending_remote = idle
view_phase opened = live
view_phase closing_local = live
view_phase closing_remote = idle

abbrev pub view : Option EndpointSession → View
view none = idle
view (some session) = view_phase session.phase

abbrev pub opens : View → Option View
opens idle = some live
opens live = none

abbrev pub writes : View → Option View
writes idle = none
writes live = some live

abbrev pub closes : View → Option View
closes idle = none
closes live = some idle

-- The protocol of one conversation: it is opened only where it is idle, and written to and closed
-- only where it is live; `none` is a breach.
abbrev pub told : ConvId → View → CoreAction → Option View
told conv_id v (send_transport_packet channel_id bytes) = some v
told conv_id v (open_session c) = if c == conv_id then opens v else some v
told conv_id v (write_session c bytes) = if c == conv_id then writes v else some v
told conv_id v (close_session c reason) = if c == conv_id then closes v else some v

abbrev pub then_told : ConvId → List CoreAction → Option View → Option View
then_told conv_id [] o = o
then_told conv_id (action ∷ actions) none = none
then_told conv_id (action ∷ actions) (some v) = then_told conv_id actions (told conv_id v action)

then_told-none : (c : ConvId) (actions : List CoreAction) → then_told c actions none ≡ none
then_told-none c [] = refl
then_told-none c (a ∷ actions) = refl

then_told-append :
    (c : ConvId) (xs ys : List CoreAction) (o : Option View)
    → then_told c (xs ++ ys) o ≡ then_told c ys (then_told c xs o)
then_told-append c [] ys o = refl
then_told-append c (x ∷ xs) ys none = sym (then_told-none c ys)
then_told-append c (x ∷ xs) ys (some v) = then_told-append c xs ys (told c v x)

module _ {Stream : Type 0} where
  abbrev pub view_in : Running Stream → ConvId → View
  view_in r conv_id = view (lookup conv_id r.core.sessions)

  -- From one state to another: the actions that are pushed follow the protocol of every
  -- conversation, and lead from what its session showed to what it shows.
  pub record Obeys (r r' : Running Stream) : Type 0 where
    pub pushed : List CoreAction
    pub actions_eq : r'.actions ≡ r.actions ++ pushed
    pub follows :
        (conv_id : ConvId)
        → then_told conv_id pushed (some (view_in r conv_id)) ≡ some (view_in r' conv_id)

  -- Nothing is pushed, and every view is the same.
  pub silent :
      (r r' : Running Stream)
      → r'.actions ≡ r.actions
      → ((conv_id : ConvId) → view_in r' conv_id ≡ view_in r conv_id)
      → Obeys r r'
  silent r r' e same = record {
    pushed = [];
    actions_eq = e ∙ sym (append-nil r.actions);
    follows = λ c. ap some (sym (same c));
  }

  pub Obeys-trans : (r s t : Running Stream) → Obeys r s → Obeys s t → Obeys r t
  Obeys-trans r s t first second = record {
    pushed = first.pushed ++ second.pushed;
    actions_eq =
        second.actions_eq
        ∙ ap (λ (before : List CoreAction). before ++ second.pushed) first.actions_eq
        ∙ append_assoc r.actions first.pushed second.pushed;
    follows = λ c.
        then_told-append c first.pushed second.pushed (some (view_in r c))
        ∙ ap (then_told c second.pushed) (first.follows c)
        ∙ second.follows c;
  }

  -- What follows a step that obeys.
  pub Obeys-from :
      (r s : Running Stream)
      → Obeys r s
      → (m : Outcome (Running Stream)) → Ensures (Obeys s) m
      → Ensures (Obeys r) m
  Obeys-from r s o (returns t) h = Obeys-trans r s t o h
  Obeys-from r s o panics h = tt

  -- The rule for two steps that obey.
  pub Obeys-bind :
      (r : Running Stream) (m : Outcome (Running Stream))
      (f : Running Stream → Outcome (Running Stream))
      → Ensures (Obeys r) m
      → ((s : Running Stream) → Ensures (Obeys s) (f s))
      → Ensures (Obeys r) (m >>= f)
  Obeys-bind r m f h k =
      Ensures-bind (Obeys r) (Obeys r) m f h (λ s o. Obeys-from r s o (f s) (k s))

module _ {Stream : Type 0} (source : RandomSource Stream) where
  note_sample-sessions :
      (core : EndpointCore Stream) (elapsed_ms : ℕ) (stamp : EnvelopeStamp) (plan : List ChannelId)
      → Ensures
          (λ (core' : EndpointCore Stream). core'.sessions ≡ core.sessions)
          (note_sample source core elapsed_ms stamp plan)
  unfolding note_sample
  note_sample-sessions core at stamp plan =
      Ensures-after (λ (core' : EndpointCore Stream). core'.sessions ≡ core.sessions)
        (check_that (ltb 0 core.config.route.feedback_interval_ms)) _ (λ _ _. refl)

  next_sequence-sessions :
      (core : EndpointCore Stream) → (next_sequence source core).0.sessions ≡ core.sessions
  unfolding next_sequence
  next_sequence-sessions core = ground arith

  module _ (aead : Aead) where
    send_routed-Obeys :
        (r : Running Stream) (elapsed_ms : ℕ) (stamp : EnvelopeStamp) (payload : List ℕ)
        (sample : Bool) (channel_id : ChannelId) (rest : List ChannelId)
        → Ensures
            (Obeys r)
            (send_routed source aead r elapsed_ms stamp payload sample channel_id rest)
    unfolding send_routed push
    send_routed-Obeys r at stamp payload false c rest =
        Ensures-after (Obeys r) (check_that (ltb 0 (available r.core (length rest) payload))) _
          (λ _ _. record { pushed = _ ∷ []; actions_eq = refl; follows = λ d. refl })
    send_routed-Obeys r at stamp payload true c rest =
        Ensures-after (Obeys r) (check_that (ltb 0 (available r.core (length rest) payload))) _
          (λ _ _.
            Ensures-bind (λ (core' : EndpointCore Stream). core'.sessions ≡ r.core.sessions)
              (Obeys r) _ _ (note_sample-sessions _ at stamp (c ∷ rest))
              (λ core e. record { pushed = _ ∷ []; actions_eq = refl; follows = λ d. rw e }))

    send_planned-Obeys :
        (r : Running Stream) (elapsed_ms : ℕ) (stamp : EnvelopeStamp) (payload : List ℕ)
        (sample : Bool) (plan : Option (List ChannelId))
        → Ensures (Obeys r) (send_planned source aead r elapsed_ms stamp payload sample plan)
    unfolding send_planned
    send_planned-Obeys r at stamp payload sample none = silent r r refl (λ c. refl)
    send_planned-Obeys r at stamp payload sample (some []) = tt
    send_planned-Obeys r at stamp payload sample (some (c ∷ rest)) =
        send_routed-Obeys r at stamp payload sample c rest

    pub send_envelope-Obeys :
        (r : Running Stream) (elapsed_ms : ℕ) (stamp : EnvelopeStamp) (payload : List ℕ)
        (sample : Bool)
        → Ensures (Obeys r) (send_envelope source aead r elapsed_ms stamp payload sample)
    unfolding send_envelope
    send_envelope-Obeys r at stamp payload sample =
        Ensures-after (Obeys r)
          (build_route_plan r.core.route_planner at
            (add64 (length payload) r.core.scheduled_packet_overhead) sample)
          _
          (λ planned _.
            let s = record r { core = record r.core { route_planner = planned.0 } } in
            Obeys-from r s (silent r s refl (λ c. refl)) _
              (send_planned-Obeys s at stamp payload sample planned.1))

    pub send_endpoint_message-Obeys :
        (r : Running Stream) (elapsed_ms : ℕ) (m : EndpointMessage) (sample : Bool)
        → Ensures (Obeys r) (send_endpoint_message source aead r elapsed_ms m sample)
    unfolding send_endpoint_message
    send_endpoint_message-Obeys r at m sample =
        let s = record r { core = (next_sequence source r.core).0 } in
        Obeys-from r s (silent r s refl (λ c. rw (next_sequence-sessions r.core))) _
          (send_envelope-Obeys s at _ _ sample)

    pub send_kcp_packets-Obeys :
        (r : Running Stream) (elapsed_ms : ℕ) (packets : List (List ℕ))
        → Ensures (Obeys r) (send_kcp_packets source aead r elapsed_ms packets)
    unfolding send_kcp_packets
    send_kcp_packets-Obeys r at [] = silent r r refl (λ c. refl)
    send_kcp_packets-Obeys r at (packet ∷ packets) =
        let sample = feedback_due r.core at in
        Obeys-bind r
          (send_endpoint_message source aead r at (kcp_packet (byte_of sample) packet) sample) _
          (send_endpoint_message-Obeys r at (kcp_packet (byte_of sample) packet) sample)
          (λ s. send_kcp_packets-Obeys s at packets)
