-- ===== src/Endpoint/Consistency/Runs.antt =====
-- crates/raynet-core/src/endpoint.rs: an endpoint from its construction on, as events and polls reach
-- it, in any order.
use raynet.Prelude.{
  ℕ, ◌≡◌, refl, Bool, true, false, not, ◌||◌, List, [], ◌∷◌, ◌++◌, Option, none, some, is_some, leb,
  Bool-cases, Option-cases, inl, inr, subst, returns, arith, returns_injective,
}
use raynet.Prelude.Outcomes.{Ensures-returns, >>=-returns}
use raynet.Prelude.Assoc.{lookup}
use raynet.Endpoint.{
  EndpointConfig, EndpointCore, new_endpoint, with_defaults, scheduled_packet_overhead,
}
use raynet.Endpoint.Session.{
  EndpointSession, SessionPhase, pending_remote, opened, closing_local, closing_remote,
}
use raynet.Endpoint.Sending.{Running, push}
use raynet.Endpoint.Closing.{bury, is_done, finish_closed_session, may_queue, drop_session, entomb}
use raynet.Endpoint.Receiving.{note_reply}
use raynet.Endpoint.Expiry.{expire_feedback}
use raynet.Endpoint.Events.{handle_event, poll}
use raynet.Endpoint.Consistency.{Phased, IsConsistent}
use raynet.Endpoint.Consistency.Sessions.{session-IsPhased}
use raynet.Endpoint.Consistency.Messages.{note_reply-IsConsistent}
use raynet.Endpoint.Consistency.Expiry.{expire_feedback-IsConsistent}
use raynet.Endpoint.Consistency.Calls.{Good, GoodEvent, handle_event-Keeps, poll-Keeps}
use raynet.Kcp.Codec.{ByteOrder}
use raynet.Kcp.Timer.{wait_snd}
use raynet.Machine.Types.{ConvId, CoreAction, close_session, CoreEvent, CoreEventResult}
use raynet.Packet.{Aead, RandomSource}
use raynet.Routing.{new_planner}
use raynet.Routing.Plans.Planning.{IsGraph}

module _ {Stream : Type 0} (order : ByteOrder) (aead : Aead) (source : RandomSource Stream) where
  -- One call that returns, at any time and whatever its actions and its result.
  pub data Call (core core' : EndpointCore Stream) : Type 0 where
    handles :
        (elapsed_ms : ℕ) (event : CoreEvent) (actions : List CoreAction) (r' : Running Stream)
        (result : CoreEventResult)
        → handle_event order aead source
            (record { core = core; actions = actions })
            elapsed_ms
            event
          ≡ returns (r', result)
        → r'.core ≡ core'
        → Call core core'
    polls :
        (elapsed_ms : ℕ) (actions : List CoreAction) (r' : Running Stream)
        → poll order aead source (record { core = core; actions = actions }) elapsed_ms ≡ returns r'
        → r'.core ≡ core'
        → Call core core'

  -- The states that the calls reach.
  pub data Reachable (config : EndpointConfig) : EndpointCore Stream → Type 0 where
    start :
        (core : EndpointCore Stream)
        → new_endpoint source config ≡ returns core
        → Reachable config core
    call :
        (core core' : EndpointCore Stream)
        → Reachable config core
        → Call core core'
        → Reachable config core'

  new_endpoint-IsConsistent :
      (config : EndpointConfig) (core : EndpointCore Stream)
      → IsGraph (new_planner config.route).nodes
      → new_endpoint source config ≡ returns core
      → IsConsistent core
  unfolding new_endpoint
  new_endpoint-IsConsistent config core g e =
      let (overhead, _, rest) =
        >>=-returns (scheduled_packet_overhead (record config { kcp = with_defaults config.kcp })) _
          e in
      subst IsConsistent (returns_injective rest) (record {
        graph = g;
        samples = tt;
        phases = tt;
        id_lt = omega arith;
        next_le = omega arith;
      })

  -- In every state that events and polls reach, at whatever times and with whatever packets: the
  -- planner has a graph that leads forward, and the plan of every outstanding sample leads through
  -- it to the last node; a closing session has the deadline, and where it is closed from this side
  -- the reason, that its end needs, and an open one has no deadline; and the numbers of the next
  -- packet have 48 bits, or are replaced before they are used. The graph of the configuration leads
  -- forward, and its channels each have one end.
  pub Reachable-IsConsistent :
      (config : EndpointConfig) (core : EndpointCore Stream)
      → IsGraph (new_planner config.route).nodes
      → Reachable config core
      → IsConsistent core
  Reachable-IsConsistent config core g (start _ e) = new_endpoint-IsConsistent config core g e
  Reachable-IsConsistent config core' g
        (call core _ reached (handles at event actions r' result e same)) =
      let v = Reachable-IsConsistent config core g reached in
      subst IsConsistent same (
        Ensures-returns GoodEvent _ (r', result) e
          (handle_event-Keeps order aead source (record { core = core; actions = actions }) at event
            v))
  Reachable-IsConsistent config core' g (call core _ reached (polls at actions r' e same)) =
      let v = Reachable-IsConsistent config core g reached in
      subst IsConsistent same (
        Ensures-returns Good _ r' e
          (poll-Keeps order aead source (record { core = core; actions = actions }) at v))

or_true : (b : Bool) → (b || true) ≡ true
or_true true = refl
or_true false = refl

some-unwrap {ℓ} : {A : Type ℓ} (o : Option A) → is_some o ≡ true → (a : A) × (o ≡ some a)
some-unwrap none e = absurd (cc e)
some-unwrap (some a) e = (a, refl)

may_queue-returns :
    (session : EndpointSession) (elapsed_ms send_window : ℕ) (phase : SessionPhase)
    → Phased phase session.pending_close session.close_deadline_at
    → (b : Bool) × (may_queue session elapsed_ms send_window phase ≡ returns b)
      × (not b || is_some session.pending_close ≡ true)
unfolding may_queue
may_queue-returns session at window pending_remote p = (false, refl, refl)
may_queue-returns session at window opened p = (false, refl, refl)
may_queue-returns session at window closing_local (p, d) =
    let (deadline, e') = some-unwrap session.close_deadline_at d in
    let ok_now = not (leb deadline at || leb window (wait_snd session.kcp)) in
    elim (Bool-cases session.close_queued) [
      | inl queued ↦ (false, rw queued, refl)
      | inr free ↦ (ok_now, rw (free, e'), rw p (or_true (not ok_now)))
    ]
may_queue-returns session at window closing_remote p = (false, refl, refl)

module _ {Stream : Type 0} where
  bury-returns :
      (r : Running Stream) (elapsed_ms : ℕ) (conv_id : ConvId) (session : EndpointSession)
      (phase : SessionPhase)
      → Phased phase session.pending_close session.close_deadline_at
      → (r' : Running Stream) × (bury r elapsed_ms conv_id session phase ≡ returns r')
  unfolding bury push entomb
  bury-returns r at c session pending_remote p = (_, refl)
  bury-returns r at c session opened p = (_, refl)
  bury-returns r at c session closing_local (p, _) =
      let (reason, e) = some-unwrap session.pending_close p in
      (
        record r {
          core = entomb r.core at c;
          actions = r.actions ++ (close_session c reason ∷ []);
        },
        rw e,
      )
  bury-returns r at c session closing_remote p = (_, refl)

  finish_closed_session-returns :
      (r : Running Stream) (elapsed_ms : ℕ) (conv_id : ConvId)
      → IsConsistent r.core
      → (r' : Running Stream) × (finish_closed_session r elapsed_ms conv_id ≡ returns r')
  unfolding finish_closed_session
  finish_closed_session-returns r at c v = elim (Option-cases (lookup c r.core.sessions)) [
    | inl gone ↦ (r, rw (gone, finish_closed_session))
    | inr (session, there) ↦ elim (Bool-cases (is_done session at session.phase)) [
      | inr stays ↦ (r, rw (there, finish_closed_session, stays))
      | inl over ↦
          let (r', e) =
            bury-returns (record r { core = drop_session r.core c }) at c session session.phase
              (session-IsPhased r.core c session there v) in
          (r', rw (there, finish_closed_session, over) e)
    ]
  ]

  -- None of the places where the code relies on what the fields promise one another ends in a panic
  -- in a consistent state, at whatever time: the feedback of a reply and of outdated samples finds
  -- every edge of the plan; the end of a session finds its reason; and the test whether its close is
  -- queued finds the deadline, and where it succeeds there is a reason to send.
  pub consistent_returns :
      (core : EndpointCore Stream) (actions : List CoreAction) (elapsed_ms packet : ℕ)
      (conv_id : ConvId) (session : EndpointSession)
      → IsConsistent core
      → lookup conv_id core.sessions ≡ some session
      → ((core' : EndpointCore Stream) × (note_reply core packet ≡ returns core'))
        × ((core' : EndpointCore Stream) × (expire_feedback core elapsed_ms ≡ returns core'))
        × ((r' : Running Stream) × (finish_closed_session
                (record { core = core; actions = actions })
                elapsed_ms
                conv_id
              ≡ returns r'))
        × ((b : Bool) × (may_queue session elapsed_ms core.config.kcp.send_window session.phase
              ≡ returns b)
            × (not b || is_some session.pending_close ≡ true))
  consistent_returns core actions at packet c session v there =
      let (replied, e, _) = note_reply-IsConsistent core packet v in
      let (expired, e', _) = expire_feedback-IsConsistent core at v in
      (
        (replied, e),
        (expired, e'),
        finish_closed_session-returns (record { core = core; actions = actions }) at c v,
        may_queue-returns session at core.config.kcp.send_window session.phase
            (session-IsPhased core c session there v),
      )
