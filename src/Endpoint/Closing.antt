-- ===== src/Endpoint/Closing.antt =====
-- crates/raynet-core/src/endpoint.rs: the end of a session: `queue_local_close`,
-- `finish_closed_session` and `send_session_message`.
use raynet.Prelude.{
  ℕ, Bool, true, false, not, ◌||◌, Option, none, some, leb, ◌==◌, if◌then◌else◌, Outcome, returns,
  add64,
}
use raynet.Prelude.Outcomes.{◌>>=◌, unwrap}
use raynet.Prelude.Assoc.{lookup, insert_sorted, remove}
use raynet.Endpoint.{EndpointCore}
use raynet.Endpoint.Session.{
  EndpointSession, SessionPhase, pending_remote, opened, closing_local, closing_remote,
  send_message,
}
use raynet.Endpoint.Sending.{Running, push, send_kcp_packets}
use raynet.Kcp.Codec.{ByteOrder}
use raynet.Kcp.Timer.{wait_snd}
use raynet.Limits.{session_tombstone_ms}
use raynet.Machine.Types.{ConvId, close_session}
use raynet.Packet.{Aead, RandomSource}
use raynet.Wire.Layout.{SessionMessage, close_message}

-- `is_some_and(|deadline| elapsed_ms >= deadline)`
abbrev pub is_over : Option ℕ → ℕ → Bool
is_over none elapsed_ms = false
is_over (some deadline) elapsed_ms = leb deadline elapsed_ms

unfoldable pub is_done : EndpointSession → ℕ → SessionPhase → Bool
is_done session elapsed_ms pending_remote = is_over session.close_deadline_at elapsed_ms
is_done session elapsed_ms closing_local =
    wait_snd session.kcp == 0 || is_over session.close_deadline_at elapsed_ms
is_done session elapsed_ms closing_remote = is_over session.close_deadline_at elapsed_ms
is_done session elapsed_ms opened = false

module _ {Stream : Type 0} where
  abbrev pub put_session : EndpointCore Stream → ConvId → EndpointSession → EndpointCore Stream
  put_session core conv_id session = record core {
    sessions = insert_sorted conv_id session core.sessions;
  }

  abbrev pub drop_session : EndpointCore Stream → ConvId → EndpointCore Stream
  drop_session core conv_id = record core { sessions = remove conv_id core.sessions }

  unfoldable pub count_dropped : EndpointCore Stream → EndpointCore Stream
  count_dropped core = record core {
    metrics = record core.metrics { packets_dropped = add64 core.metrics.packets_dropped 1 };
  }

  unfoldable pub entomb : EndpointCore Stream → ℕ → ConvId → EndpointCore Stream
  entomb core elapsed_ms conv_id = record core {
    tombstones = insert_sorted conv_id (add64 elapsed_ms session_tombstone_ms) core.tombstones;
  }

  -- The end of `finish_closed_session`, for a session that is done and removed.
  unfoldable pub bury :
      Running Stream → ℕ → ConvId → EndpointSession → SessionPhase → Outcome (Running Stream)
  bury r elapsed_ms conv_id session pending_remote =
      returns (record r { core = count_dropped r.core })
  bury r elapsed_ms conv_id session closing_local = do
    reason ← unwrap session.pending_close
    let told = push r (close_session conv_id reason)
    returns (record told { core = entomb told.core elapsed_ms conv_id })
  bury r elapsed_ms conv_id session closing_remote =
      returns (record r { core = entomb r.core elapsed_ms conv_id })
  bury r elapsed_ms conv_id session opened =
      returns (record r { core = entomb r.core elapsed_ms conv_id })

  unfoldable pub finish_closed_session : Running Stream → ℕ → ConvId → Outcome (Running Stream)
  finish_closed_session r elapsed_ms conv_id = elim (lookup conv_id r.core.sessions) [
    | none ↦ returns r
    | some session ↦
        if is_done session elapsed_ms session.phase
        then bury (record r { core = drop_session r.core conv_id }) elapsed_ms conv_id session
            session.phase
        else returns r
  ]

-- Whether `queue_local_close` goes on to its end; `unwrap` panics where the deadline is missing.
unfoldable pub may_queue : EndpointSession → ℕ → ℕ → SessionPhase → Outcome Bool
may_queue session elapsed_ms send_window closing_local =
    if session.close_queued then returns false else do
      deadline ← unwrap session.close_deadline_at
      returns (not (leb deadline elapsed_ms || leb send_window (wait_snd session.kcp)))
may_queue session elapsed_ms send_window other = returns false

module _ {Stream : Type 0} (order : ByteOrder) (aead : Aead) (source : RandomSource Stream) where
  unfoldable pub send_session_message :
      Running Stream → ℕ → ConvId → SessionMessage → Outcome (Running Stream)
  send_session_message r elapsed_ms conv_id m = do
    session ← unwrap (lookup conv_id r.core.sessions)
    sent ← send_message order session elapsed_ms m
    let stored = record r { core = put_session r.core conv_id sent.0 }
    r' ← send_kcp_packets source aead stored elapsed_ms sent.1
    finish_closed_session r' elapsed_ms conv_id

  unfoldable pub send_close :
      Running Stream → ℕ → ConvId → EndpointSession → Outcome (Running Stream)
  send_close r elapsed_ms conv_id session = do
    reason ← unwrap session.pending_close
    let queued = record session { close_queued = true }
    send_session_message (record r { core = put_session r.core conv_id queued }) elapsed_ms conv_id
        (close_message reason)

  unfoldable pub queue_found :
      Running Stream → ℕ → ConvId → Option EndpointSession → Outcome (Running Stream)
  queue_found r elapsed_ms conv_id none = returns r
  queue_found r elapsed_ms conv_id (some session) = do
    may ← may_queue session elapsed_ms r.core.config.kcp.send_window session.phase
    if may then send_close r elapsed_ms conv_id session else returns r

  unfoldable pub queue_local_close : Running Stream → ℕ → ConvId → Outcome (Running Stream)
  queue_local_close r elapsed_ms conv_id =
      queue_found r elapsed_ms conv_id (lookup conv_id r.core.sessions)
