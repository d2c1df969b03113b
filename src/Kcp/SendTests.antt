-- ===== src/Kcp/SendTests.antt =====
-- crates/raynet-core/src/kcp/kcp.rs at concrete states: what is sent and acknowledged.
use raynet.Prelude.{
  ◌≤◌, ◌<◌, ◌≡◌, ◌⊎◌, refl, true, [], ◌∷◌, ◌++◌, length, ltb, max, if◌then◌else◌, ok, arith,
}
use raynet.Kcp.Types.{Kcp, new_kcp, new_timing, new_with_data, timediff}
use raynet.Kcp.Receive.Order.{ahead}
use raynet.Kcp.Send.{fragments}
use raynet.Kcp.Acks.{parse_ack, in_flight}
use raynet.Kcp.Acks.Removal.{without, parse_ack-without, parse_ack_across_wrap}
use raynet.Kcp.Timer.Due.{update_early}
use raynet.Kcp.Acks.Outstanding.{Outstanding}
use raynet.Kcp.Flush.{flush, queue_to_buf, send_window, wnd_unused}
use raynet.Kcp.Flush.Congestion.{flush-cwnd}
use raynet.Kcp.Flush.Mtu.{Fits}
use raynet.Kcp.Flush.Datagrams.{flush-Fits}
use raynet.Kcp.Flush.Emission.{data_due, flush_emits}
use raynet.Kcp.Flush.Output.{joined, all_bytes, control_due}
use raynet.Kcp.Flush.Window.{payloads, queue_to_buf-FillsWindow}
use raynet.Kcp.Timer.{update, check, is_far, next_resend}
use raynet.Kcp.Samples.{little_endian, greeting, fresh, busy}

busy-Fits : Fits 72 100 busy
unfolding new_kcp fragments new_with_data
busy-Fits = omega arith

flush-Fits_example : Fits 72 100 (flush little_endian busy).0
flush-Fits_example = flush-Fits 72 100 little_endian busy busy-Fits

flush_emits_example :
    ((flush little_endian busy).0.buf ≡ [])
    × (joined (flush little_endian busy).0.output
        ≡ all_bytes busy
          ++ (control_due little_endian busy
              ++ data_due little_endian
                  (queue_to_buf busy (wnd_unused busy))
                  (wnd_unused busy)
                  (queue_to_buf busy (wnd_unused busy)).snd_buf))
flush_emits_example = flush_emits little_endian busy refl

busy-Outstanding : Outstanding busy
unfolding new_kcp
busy-Outstanding = omega arith

queue_to_buf_example :
    Outstanding (queue_to_buf busy 8)
    × (ahead busy.snd_una (queue_to_buf busy 8).snd_nxt
        ≤ max (ahead busy.snd_una busy.snd_nxt) (send_window busy))
    × (((queue_to_buf busy 8).snd_queue ≡ [])
        ⊎ (send_window busy ≤ ahead busy.snd_una (queue_to_buf busy 8).snd_nxt))
    × (payloads (queue_to_buf busy 8).snd_buf ++ payloads (queue_to_buf busy 8).snd_queue
        ≡ payloads busy.snd_buf ++ payloads busy.snd_queue)
queue_to_buf_example = queue_to_buf-FillsWindow busy 8 busy-Outstanding

-- Two segments in flight, the second behind the wrap of the numbers.
abbrev wrapped : Kcp
wrapped = record fresh {
  snd_una = 4294967295;
  snd_nxt = 1;
  snd_buf = record greeting { sn = 4294967295 } ∷ record greeting { sn = 0 } ∷ [];
}

in_flight-wrapped : in_flight wrapped 0 ≡ true
unfolding in_flight timediff
in_flight-wrapped = refl

wrapped-Outstanding : Outstanding wrapped
unfolding new_kcp new_with_data
wrapped-Outstanding = omega arith

parse_ack_across_wrap_example :
    ((parse_ack wrapped 0).snd_buf
      ≡ (if ltb 0 4294967295 then wrapped.snd_buf else without 0 wrapped.snd_buf))
    × (length (without 0 wrapped.snd_buf) < length wrapped.snd_buf)
parse_ack_across_wrap_example =
    parse_ack_across_wrap wrapped 1 (record greeting { sn = 0 })
      (record greeting { sn = 4294967295 }) (record greeting { sn = 0 } ∷ []) wrapped-Outstanding
      refl refl

abbrev flying : Kcp
flying = record fresh { snd_nxt = 2; snd_buf = greeting ∷ record greeting { sn = 1 } ∷ [] }

flying-Outstanding : Outstanding flying
unfolding new_kcp new_with_data
flying-Outstanding = omega arith

parse_ack-without_example :
    (parse_ack flying 1).snd_buf
    ≡ (if in_flight flying 1 then without 1 flying.snd_buf else flying.snd_buf)
unfolding new_kcp
parse_ack-without_example = parse_ack-without flying 1 flying-Outstanding (omega arith)

abbrev waiting : Kcp
waiting = record fresh { updated = true; ts_flush = 50 }

waits : 0 < check waiting 45
unfolding check next_resend is_far timediff new_kcp new_timing
waits = omega arith

update_early_example : update little_endian waiting 45 ≡ (record waiting { current = 45 }, ok tt)
update_early_example = update_early little_endian waiting 45 waits

flush-cwnd_example : 1 ≤ (flush little_endian busy).0.cwnd
flush-cwnd_example = flush-cwnd little_endian busy refl
