-- ===== src/Kcp/Tests.antt =====
-- crates/raynet-core/src/kcp/kcp.rs at concrete states and packets: segments, and what is received.
use raynet.Prelude.{
  ℕ, ◌<◌, ◌≡◌, refl, List, [], ◌∷◌, ◌++◌, length, ltb, if◌then◌else◌, ok, err, returns, arith,
}
use raynet.Prelude.Bytes.{to_le_bytes}
use raynet.Kcp.Types.{
  Kcp, KcpSegment, new_kcp, new_with_data, expecting_fragment, user_buf_too_small,
}
use raynet.Kcp.Codec.{encode, get_conv, read_header}
use raynet.Kcp.Codec.RoundTrip.{header, read_header-encode}
use raynet.Kcp.Receive.{peeksize, message_size, merge_fragments, after_merge, recv, parse_data}
use raynet.Kcp.Receive.Delivery.{InOrder, new_kcp-InOrder, parse_data-InOrder}
use raynet.Kcp.Receive.Messages.{recv_total, peeksize_wraps}
use raynet.Kcp.Send.{send, fragments}
use raynet.Kcp.Send.Fragments.{recv-send}
use raynet.Kcp.Acks.Outstanding.{new_kcp-Outstanding}
use raynet.Kcp.Input.{input}
use raynet.Kcp.Input.Soundness.{Sound}
use raynet.Kcp.Input.Packets.{ReadsWhole, input-Sound}
use raynet.Kcp.Timer.{update}
use raynet.Kcp.Session.{Reachable, start, step, updates, inputs, Reachable-Sound}
use raynet.Kcp.Samples.{little_endian, params, greeting, fresh, message}

abbrev packet : List ℕ
packet =
    7 ∷ 0 ∷ 0 ∷ 0 ∷ 0 ∷ 0 ∷ 0 ∷ 0 ∷ 81 ∷ 0 ∷ 8 ∷ 0 ∷ 0 ∷ 0 ∷ 0 ∷ 0 ∷ 0 ∷ 0 ∷ 0 ∷ 0 ∷ 0 ∷ 0 ∷ 0 ∷ 0
    ∷ 2 ∷ 0 ∷ 0 ∷ 0 ∷ 104 ∷ 105 ∷ []

encode-greeting : encode little_endian greeting ≡ packet
unfolding encode new_with_data to_le_bytes
encode-greeting = refl

read_header-encode_example :
    (read_header little_endian (encode little_endian greeting ++ packet) ≡ header greeting)
    × (get_conv little_endian (encode little_endian greeting ++ packet) ≡ greeting.conv)
unfolding new_with_data
read_header-encode_example = read_header-encode little_endian greeting packet (omega arith)

fresh-Sound : Sound 0 fresh
fresh-Sound = record {
  receiving = new_kcp-InOrder 7 params (omega arith);
  sending = new_kcp-Outstanding 7 params (omega arith);
}

abbrev updated : Kcp
updated = (update little_endian fresh 10).0

abbrev greeted : Kcp
greeted = (input little_endian updated 20 packet).0

greeted-Reachable : Reachable little_endian 7 params greeted
greeted-Reachable =
    step updated greeted (step fresh updated start (updates 10 refl))
      (inputs 20 packet (omega arith) refl)

reachable-Sound_example : (first : ℕ) × Sound first greeted
reachable-Sound_example =
    Reachable-Sound little_endian 7 params greeted (omega arith) (omega arith) greeted-Reachable

input-Sound_example :
    Sound 0 (input little_endian fresh 20 packet).0
    × ReadsWhole packet (input little_endian fresh 20 packet).1
input-Sound_example = input-Sound little_endian 0 fresh 20 packet (omega arith) fresh-Sound

parse_data-InOrder_example : InOrder 0 (parse_data fresh greeting)
unfolding new_with_data
parse_data-InOrder_example =
    parse_data-InOrder 0 fresh greeting (omega arith) (new_kcp-InOrder 7 params (omega arith))

recv_total_example :
    recv (parse_data fresh greeting) 1
    ≡ returns (elim (peeksize (parse_data fresh greeting).rcv_queue) [
      | err e ↦ (parse_data fresh greeting, err e)
      | ok n ↦ if ltb 1 n then (parse_data fresh greeting, err user_buf_too_small) else (
        after_merge
            (parse_data fresh greeting)
            (merge_fragments (parse_data fresh greeting).rcv_queue).1,
        ok (merge_fragments (parse_data fresh greeting).rcv_queue).0,
      )
    ])
recv_total_example = recv_total (parse_data fresh greeting) 1

abbrev far_fragment : KcpSegment
far_fragment = record greeting { frg = 255 }

peeksize_wraps_example :
    (far_fragment.frg ≡ 255 → peeksize (far_fragment ∷ []) ≡ ok (message_size (far_fragment ∷ [])))
    × (0 < far_fragment.frg
        → far_fragment.frg < 255
        → length {A = KcpSegment} [] < far_fragment.frg
        → peeksize (far_fragment ∷ []) ≡ err expecting_fragment)
peeksize_wraps_example = peeksize_wraps far_fragment []

abbrev small : Kcp
small = record fresh { mss = 2 }

abbrev receiver : Kcp
receiver = record fresh { rcv_queue = fragments 2 2 message ++ (greeting ∷ []) }

recv-send_example :
    (send small message
      ≡ returns (record small { snd_queue = small.snd_queue ++ fragments 2 2 message }, ok 3))
    × (recv receiver 10 ≡ returns (after_merge receiver (greeting ∷ []), ok message))
unfolding fragments new_with_data new_kcp
recv-send_example =
    recv-send small receiver message 10 (fragments 2 2 message) (greeting ∷ []) (omega arith)
      (omega arith) (refl, refl, (refl, refl, tt)) refl (omega arith)
