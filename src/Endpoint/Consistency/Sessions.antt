-- ===== src/Endpoint/Consistency/Sessions.antt =====
-- crates/raynet-core/src/endpoint.rs: what the operations on sessions keep.
use raynet.Prelude.{ℕ, ◌≡◌, refl, true, List, some, Bool-cases, Option-cases, inl, inr, subst, sym}
use raynet.Prelude.Outcomes.{Ensures, Ensures-bind, Ensures-after, unwrap}
use raynet.Prelude.Assoc.{lookup, AllValues-insert_sorted, AllValues-remove, AllValues-lookup}
use raynet.Endpoint.{EndpointCore}
use raynet.Endpoint.Session.{
  EndpointSession, SessionPhase, SessionOutput, pending_remote, opened, closing_local,
  closing_remote, must, with_kcp, flush_now, send_message, input_packet, poll_session,
  recv_messages, clock32,
}
use raynet.Endpoint.Sending.{Running, push, send_kcp_packets}
use raynet.Endpoint.Closing.{
  put_session, drop_session, count_dropped, entomb, is_done, bury, finish_closed_session, may_queue,
  send_session_message, send_close, queue_found, queue_local_close,
}
use raynet.Endpoint.Consistency.{Phased, IsPhased, IsConsistent, Keeps, send_kcp_packets-Keeps}
use raynet.Kcp.Codec.{ByteOrder}
use raynet.Kcp.Flush.{flush}
use raynet.Kcp.Input.{input}
use raynet.Kcp.Send.{send}
use raynet.Kcp.Timer.{update}
use raynet.Machine.Types.{ConvId}
use raynet.Packet.{Aead, RandomSource}
use raynet.Wire.Layout.{SessionMessage, close_message}
use raynet.Wire.SessionMessages.{encode}

-- Two sessions with the same fields beside the control block.
abbrev pub SamePhase : EndpointSession → EndpointSession → Type 0
SamePhase s t =
    (t.phase ≡ s.phase)
    × (t.pending_close ≡ s.pending_close)
    × (t.close_deadline_at ≡ s.close_deadline_at)

pub SamePhase-IsPhased : (s t : EndpointSession) → SamePhase s t → IsPhased s → IsPhased t
SamePhase-IsPhased s t (p, r, d) v =
    subst (λ (q : SessionPhase). Phased q t.pending_close t.close_deadline_at) (sym p) (rw (r, d) v)

module _ (order : ByteOrder) where
  pub flush_now-SamePhase :
      (session : EndpointSession) (elapsed_ms : ℕ)
      → Ensures
          (λ (p : EndpointSession × List (List ℕ)). SamePhase session p.0)
          (flush_now order session elapsed_ms)
  unfolding flush_now
  flush_now-SamePhase session elapsed_ms =
      let P = λ (p : EndpointSession × List (List ℕ)). SamePhase session p.0 in
      Ensures-after P (must (update order session.kcp (clock32 elapsed_ms))) _ (λ updated _.
        Ensures-after P (must (flush order updated.0)) _ (λ flushed _. (refl, refl, refl)))

  pub poll_session-SamePhase :
      (session : EndpointSession) (elapsed_ms : ℕ)
      → Ensures
          (λ (p : EndpointSession × List (List ℕ)). SamePhase session p.0)
          (poll_session order session elapsed_ms)
  unfolding poll_session
  poll_session-SamePhase session elapsed_ms =
      Ensures-after (λ (p : EndpointSession × List (List ℕ)). SamePhase session p.0)
        (must (update order session.kcp (clock32 elapsed_ms))) _ (λ updated _. (refl, refl, refl))

  pub send_message-SamePhase :
      (session : EndpointSession) (elapsed_ms : ℕ) (m : SessionMessage)
      → Ensures
          (λ (p : EndpointSession × List (List ℕ)). SamePhase session p.0)
          (send_message order session elapsed_ms m)
  unfolding send_message
  send_message-SamePhase session elapsed_ms m =
      let P = λ (p : EndpointSession × List (List ℕ)). SamePhase session p.0 in
      Ensures-after P (send session.kcp (encode m)) _ (λ result _.
        Ensures-after P (must result) _
          (λ sent _. flush_now-SamePhase (with_kcp session sent.0) elapsed_ms))

  pub input_packet-SamePhase :
      (session : EndpointSession) (elapsed_ms : ℕ) (packet : List ℕ)
      → Ensures
          (λ (o : SessionOutput). SamePhase session o.session)
          (input_packet order session elapsed_ms packet)
  unfolding input_packet
  input_packet-SamePhase session elapsed_ms packet =
      let P = λ (o : SessionOutput). SamePhase session o.session in
      Ensures-after P (must (input order session.kcp (clock32 elapsed_ms) packet)) _ (λ read _.
        Ensures-bind (λ (p : EndpointSession × List (List ℕ)). SamePhase session p.0) P
          (flush_now order (with_kcp session read.0) elapsed_ms) _
          (flush_now-SamePhase (with_kcp session read.0) elapsed_ms)
          (λ flushed same. Ensures-after P (recv_messages flushed.0.kcp) _ (λ received _. same)))

module _ {Stream : Type 0} where
  pub put_session-IsConsistent :
      (core : EndpointCore Stream) (conv_id : ConvId) (session : EndpointSession)
      → IsPhased session
      → IsConsistent core
      → IsConsistent (put_session core conv_id session)
  put_session-IsConsistent core conv_id session h v = record {
    graph = v.graph;
    samples = v.samples;
    phases = AllValues-insert_sorted IsPhased conv_id session core.sessions h v.phases;
    id_lt = v.id_lt;
    next_le = v.next_le;
  }

  pub drop_session-IsConsistent :
      (core : EndpointCore Stream) (conv_id : ConvId)
      → IsConsistent core
      → IsConsistent (drop_session core conv_id)
  drop_session-IsConsistent core conv_id v = record {
    graph = v.graph;
    samples = v.samples;
    phases = AllValues-remove IsPhased conv_id core.sessions v.phases;
    id_lt = v.id_lt;
    next_le = v.next_le;
  }

  pub session-IsPhased :
      (core : EndpointCore Stream) (conv_id : ConvId) (session : EndpointSession)
      → lookup conv_id core.sessions ≡ some session
      → IsConsistent core
      → IsPhased session
  session-IsPhased core conv_id session e v =
      AllValues-lookup IsPhased conv_id session core.sessions e v.phases

  bury-Keeps :
      (r : Running Stream) (elapsed_ms : ℕ) (conv_id : ConvId) (session : EndpointSession)
      (phase : SessionPhase)
      → IsConsistent r.core
      → Keeps (bury r elapsed_ms conv_id session phase)
  unfolding bury count_dropped entomb push
  bury-Keeps r elapsed_ms conv_id session pending_remote v = v
  bury-Keeps r elapsed_ms conv_id session closing_local v =
      Ensures-after (λ (q : Running Stream). IsConsistent q.core) (unwrap session.pending_close) _
        (λ reason _. v)
  bury-Keeps r elapsed_ms conv_id session closing_remote v = v
  bury-Keeps r elapsed_ms conv_id session opened v = v

  pub finish_closed_session-Keeps :
      (r : Running Stream) (elapsed_ms : ℕ) (conv_id : ConvId)
      → IsConsistent r.core
      → Keeps (finish_closed_session r elapsed_ms conv_id)
  unfolding finish_closed_session
  finish_closed_session-Keeps r elapsed_ms conv_id v =
      elim (Option-cases (lookup conv_id r.core.sessions)) [
        | inl gone ↦ rw (gone, finish_closed_session) v
        | inr (session, there) ↦ elim (Bool-cases (is_done session elapsed_ms session.phase)) [
          | inr open_still ↦ rw (there, finish_closed_session, open_still) v
          | inl over ↦
              rw (there, finish_closed_session, over)
                (bury-Keeps (record r { core = drop_session r.core conv_id }) elapsed_ms conv_id
                  session session.phase (drop_session-IsConsistent r.core conv_id v))
        ]
      ]

module _ {Stream : Type 0} (order : ByteOrder) (aead : Aead) (source : RandomSource Stream) where
  pub send_session_message-Keeps :
      (r : Running Stream) (elapsed_ms : ℕ) (conv_id : ConvId) (m : SessionMessage)
      → IsConsistent r.core
      → Keeps (send_session_message order aead source r elapsed_ms conv_id m)
  unfolding send_session_message
  send_session_message-Keeps r elapsed_ms conv_id m v =
      let P = λ (q : Running Stream). IsConsistent q.core in
      elim (Option-cases (lookup conv_id r.core.sessions)) [
        | inl gone ↦ rw gone tt
        | inr (session, there) ↦ rw there (
            Ensures-bind (λ (p : EndpointSession × List (List ℕ)). SamePhase session p.0) P
              (send_message order session elapsed_ms m) _
              (send_message-SamePhase order session elapsed_ms m)
              (λ sent same.
                let phased =
                  SamePhase-IsPhased session sent.0 same
                    (session-IsPhased r.core conv_id session there v) in
                Ensures-bind P P
                  (send_kcp_packets source aead
                    (record r { core = put_session r.core conv_id sent.0 }) elapsed_ms sent.1)
                  _
                  (send_kcp_packets-Keeps source aead
                    (record r { core = put_session r.core conv_id sent.0 }) elapsed_ms sent.1
                    (put_session-IsConsistent r.core conv_id sent.0 phased v))
                  (λ r' w. finish_closed_session-Keeps r' elapsed_ms conv_id w)))
      ]

  send_close-Keeps :
      (r : Running Stream) (elapsed_ms : ℕ) (conv_id : ConvId) (session : EndpointSession)
      → IsPhased session
      → IsConsistent r.core
      → Keeps (send_close order aead source r elapsed_ms conv_id session)
  unfolding send_close
  send_close-Keeps r elapsed_ms conv_id session phased v =
      let queued = record session { close_queued = true } in
      Ensures-after (λ (q : Running Stream). IsConsistent q.core) (unwrap session.pending_close) _
        (λ reason _.
          send_session_message-Keeps (record r { core = put_session r.core conv_id queued })
            elapsed_ms conv_id (close_message reason)
            (put_session-IsConsistent r.core conv_id queued phased v))

  pub queue_local_close-Keeps :
      (r : Running Stream) (elapsed_ms : ℕ) (conv_id : ConvId)
      → IsConsistent r.core
      → Keeps (queue_local_close order aead source r elapsed_ms conv_id)
  unfolding queue_local_close queue_found
  queue_local_close-Keeps r elapsed_ms conv_id v =
      let P = λ (q : Running Stream). IsConsistent q.core in
      elim (Option-cases (lookup conv_id r.core.sessions)) [
        | inl gone ↦ rw (gone, queue_found) v
        | inr (session, there) ↦
            rw (there, queue_found)
              (Ensures-after P
                (may_queue session elapsed_ms r.core.config.kcp.send_window session.phase) _
                (λ may _. elim (Bool-cases may) [
                  | inr stays ↦ rw stays v
                  | inl goes ↦ rw goes (
                      send_close-Keeps r elapsed_ms conv_id session
                        (session-IsPhased r.core conv_id session there v) v)
                ]))
      ]
