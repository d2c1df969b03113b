-- ===== src/Endpoint/Consistency/Expiry.antt =====
-- crates/raynet-core/src/endpoint.rs: what `expire_feedback` and `expire_sequences` keep.
use raynet.Prelude.{ℕ, ◌≡◌, refl, ◌∙◌, false, List, [], ◌∷◌, ltb, Bool-cases, inl, inr, returns}
use raynet.Prelude.Outcomes.{Ensures-bind, Ensures-after, unwrap}
use raynet.Prelude.Assoc.{lookup, AllValues}
use raynet.Endpoint.{EndpointCore, FeedbackSample}
use raynet.Endpoint.Sending.{Running, push}
use raynet.Endpoint.Closing.{entomb}
use raynet.Endpoint.Expiry.{
  expire_samples, expire_feedback, reset_sessions, reset_senders, expire_sequences, convs_of,
  is_pending,
}
use raynet.Endpoint.Consistency.{IsConsistent, Keeps, LeadsHome, planned-IsConsistent}
use raynet.Endpoint.Consistency.Sessions.{drop_session-IsConsistent}
use raynet.Machine.Types.{ConvId}
use raynet.Routing.{RoutePlanner}
use raynet.Routing.Plans.Noting.{note_feedback-shape}
use raynet.Routing.Shape.{Link, shape}

abbrev LeadAll : List (List Link) → List (ℕ × FeedbackSample) → Type 0
LeadAll rows samples = AllValues (λ (s : FeedbackSample). LeadsHome rows s.route_plan) samples

expire_samples-shape :
    (elapsed_ms : ℕ) (samples : List (ℕ × FeedbackSample)) (planner : RoutePlanner)
    → LeadAll (shape planner.nodes) samples
    → (planner' : RoutePlanner) × (kept : List (ℕ × FeedbackSample)) × (expire_samples elapsed_ms
          samples planner
        ≡ returns (planner', kept))
      × (shape planner'.nodes ≡ shape planner.nodes)
      × LeadAll (shape planner.nodes) kept
unfolding expire_samples
expire_samples-shape at [] planner h = (planner, [], refl, refl, tt)
expire_samples-shape at ((packet, s) ∷ samples) planner (h, hs) =
    elim (Bool-cases (ltb at s.deadline)) [
      | inl early ↦
          let (planner', kept, e, shaped, leads) = expire_samples-shape at samples planner hs in
          (planner', (packet, s) ∷ kept, rw (early, e), shaped, (h, leads))
      | inr late ↦
          let (noted, e, same) = note_feedback-shape planner s.route_plan _ s.sent_at false h in
          let (planner', kept, e', shaped, leads) =
            expire_samples-shape at samples noted (rw same hs) in
          (planner', kept, rw (late, e, e'), shaped ∙ same, rw same at leads)
    ]

module _ {Stream : Type 0} where
  -- In a consistent state no outdated sample makes the feedback of `poll` panic.
  pub expire_feedback-IsConsistent :
      (core : EndpointCore Stream) (elapsed_ms : ℕ)
      → IsConsistent core
      → (core' : EndpointCore Stream) × (expire_feedback core elapsed_ms ≡ returns core')
        × IsConsistent core'
  unfolding expire_feedback
  expire_feedback-IsConsistent core at v =
      let (planner, kept, e, shaped, leads) =
        expire_samples-shape at core.outstanding core.route_planner v.samples in
      (
        record core { route_planner = planner; outstanding = kept },
        rw e,
        planned-IsConsistent (record core { outstanding = kept }) planner shaped
            (record {
              graph = v.graph;
              samples = leads;
              phases = v.phases;
              id_lt = v.id_lt;
              next_le = v.next_le;
            }),
      )

  reset_sessions-Keeps :
      (elapsed_ms : ℕ) (conv_ids : List ConvId) (r : Running Stream)
      → IsConsistent r.core
      → Keeps (reset_sessions r elapsed_ms conv_ids)
  unfolding reset_sessions entomb push
  reset_sessions-Keeps at [] r v = v
  reset_sessions-Keeps at (c ∷ conv_ids) r v =
      Ensures-after (λ (q : Running Stream). IsConsistent q.core)
        (unwrap (lookup c r.core.sessions)) _
        (λ session _. elim (Bool-cases (is_pending session.phase)) [
          | inl pending ↦
              rw pending (reset_sessions-Keeps at conv_ids _ (drop_session-IsConsistent r.core c v))
          | inr other ↦
              rw other (reset_sessions-Keeps at conv_ids _ (drop_session-IsConsistent r.core c v))
        ])

  reset_senders-Keeps :
      (r : Running Stream) (elapsed_ms : ℕ) (expired : List ℕ)
      → IsConsistent r.core
      → Keeps (reset_senders r elapsed_ms expired)
  unfolding reset_senders
  reset_senders-Keeps r at [] v = v
  reset_senders-Keeps r at (seq_id ∷ expired) v =
      Ensures-bind (λ (q : Running Stream). IsConsistent q.core)
        (λ (q : Running Stream). IsConsistent q.core) _ _
        (reset_sessions-Keeps at (convs_of seq_id r.core.sessions) r v)
        (λ r' w. reset_senders-Keeps r' at expired w)

  pub expire_sequences-Keeps :
      (r : Running Stream) (elapsed_ms : ℕ)
      → IsConsistent r.core
      → Keeps (expire_sequences r elapsed_ms)
  unfolding expire_sequences
  expire_sequences-Keeps r at v = reset_senders-Keeps _ at _ v
