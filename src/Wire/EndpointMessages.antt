-- ===== src/Wire/EndpointMessages.antt =====
-- crates/raynet-core/src/wire.rs: `EndpointMessage::encode_with_prefix`, `EndpointMessage::decode`
-- and `encode_flags_body`.
use raynet.Prelude.{
  ℕ, zero, suc, ◌*◌, ◌/◌, ◌%◌, ◌^◌, ◌<◌, ◌≡◌, refl, List, [], ◌∷◌, ◌++◌, bit_and, bit_or, arith,
  length, drop, replicate, ltb, ◌==◌, if◌then◌else◌, Outcome, returns, panics, append-nil,
  length-append,
}
use raynet.Prelude.Bits.{complement}
use raynet.Wire.Layout.{
  EndpointMessage, kcp_packet, keep_alive, route_reply, slice, put_u48, get_u48, slice-middle,
  length-put_u48, get_u48-put_u48,
}

-- FLAG_KCP, FLAG_KEEP_ALIVE and FLAG_ROUTE_REPLY.
abbrev pub flag_kcp : ℕ
flag_kcp = 2 ^ 0

abbrev pub flag_keep_alive : ℕ
flag_keep_alive = 2 ^ 1

abbrev pub flag_route_reply : ℕ
flag_route_reply = 2 ^ 2

abbrev pub reply_depth_shift : ℕ
reply_depth_shift = 3

-- 0b11
abbrev pub reply_depth_mask : ℕ
reply_depth_mask = 3

-- The shift stays in a byte, and drops what leaves it.
unfoldable pub encode_flags_body : ℕ → ℕ → ℕ → List ℕ → List ℕ
encode_flags_body prefix_len type_flag reply_depth body =
    replicate prefix_len 0 ++ (bit_or type_flag (reply_depth * 2 ^ reply_depth_shift % 256) ∷ body)

unfoldable pub encode_with_prefix : EndpointMessage → ℕ → List ℕ
encode_with_prefix (kcp_packet reply_depth packet) prefix_len =
    encode_flags_body prefix_len flag_kcp reply_depth packet
encode_with_prefix (keep_alive reply_depth) prefix_len =
    encode_flags_body prefix_len flag_keep_alive reply_depth []
encode_with_prefix (route_reply reply_depth received_seq_id received_seq_no) prefix_len =
    encode_flags_body prefix_len flag_route_reply reply_depth
      (put_u48 received_seq_id ++ put_u48 received_seq_no)

-- `(flags >> REPLY_DEPTH_SHIFT) & REPLY_DEPTH_MASK`
unfoldable pub depth_of : ℕ → ℕ
depth_of flags = bit_and (flags / 2 ^ reply_depth_shift) reply_depth_mask

-- `flags & !(REPLY_DEPTH_MASK << REPLY_DEPTH_SHIFT)`
unfoldable pub type_of : ℕ → ℕ
type_of flags = bit_and flags (complement 8 (reply_depth_mask * 2 ^ reply_depth_shift))

unfoldable pub decode : List ℕ → Outcome EndpointMessage
decode [] = panics
decode (flags ∷ body) =
    if type_of flags == flag_kcp
    then returns (kcp_packet (depth_of flags) (drop 1 (flags ∷ body)))
    else if type_of flags == flag_keep_alive
    then returns (keep_alive (depth_of flags))
    else if type_of flags == flag_route_reply
    then if ltb (length (flags ∷ body)) 13
      then panics
      else returns (
          route_reply (depth_of flags) (get_u48 (slice (flags ∷ body) 1 7))
            (get_u48 (slice (flags ∷ body) 7 13)))
    else panics

-- The depth has two bits, and the sequence numbers 48.
abbrev pub Fits : EndpointMessage → Type 0
Fits (kcp_packet reply_depth packet) = reply_depth < 4
Fits (keep_alive reply_depth) = reply_depth < 4
Fits (route_reply reply_depth seq_id seq_no) =
    (reply_depth < 4) × (seq_id < 2 ^ 48) × (seq_no < 2 ^ 48)

-- The flags byte of each type, taken apart again: a table over the four depths.
flags_split :
    (depth : ℕ)
    → depth < 4
    → (depth_of (bit_or 1 (depth * 2 ^ 3 % 256)) ≡ depth)
      × (type_of (bit_or 1 (depth * 2 ^ 3 % 256)) ≡ 1)
      × (depth_of (bit_or 2 (depth * 2 ^ 3 % 256)) ≡ depth)
      × (type_of (bit_or 2 (depth * 2 ^ 3 % 256)) ≡ 2)
      × (depth_of (bit_or 4 (depth * 2 ^ 3 % 256)) ≡ depth)
      × (type_of (bit_or 4 (depth * 2 ^ 3 % 256)) ≡ 4)
unfolding depth_of type_of
flags_split zero h = (refl, refl, refl, refl, refl, refl)
flags_split (suc zero) h = (refl, refl, refl, refl, refl, refl)
flags_split (suc (suc zero)) h = (refl, refl, refl, refl, refl, refl)
flags_split (suc (suc (suc zero))) h = (refl, refl, refl, refl, refl, refl)
flags_split (suc (suc (suc (suc n)))) h = absurd (omega arith)

-- Every endpoint message whose fields fit is read back from its encoding.
pub decode-encode_endpoint_message :
    (m : EndpointMessage) → Fits m → decode (encode_with_prefix m 0) ≡ returns m
unfolding decode encode_with_prefix encode_flags_body
decode-encode_endpoint_message (kcp_packet depth packet) h =
    let (d, t, _, _, _, _) = flags_split depth h in rw (t, d)
decode-encode_endpoint_message (keep_alive depth) h =
    let (_, _, d, t, _, _) = flags_split depth h in rw (t, d)
decode-encode_endpoint_message (route_reply depth a b) (h, ha, hb) =
    let (_, _, _, _, d, t) = flags_split depth h in
    let flags : List ℕ = bit_or 4 (depth * 2 ^ 3 % 256) ∷ [] in
    let first : slice (flags ++ (put_u48 a ++ put_u48 b)) 1 7 ≡ put_u48 a =
      slice-middle flags (put_u48 a) (put_u48 b) 1 7 refl (omega (arith, length-put_u48 a)) in
    let second : slice (flags ++ (put_u48 a ++ put_u48 b)) 7 13 ≡ put_u48 b = rw append-nil at (
      slice-middle (flags ++ put_u48 a) (put_u48 b) [] 7 13 (omega (arith, length-put_u48 a))
        (omega (arith, length-put_u48 b))) in
    rw (t, d, first, second, get_u48-put_u48 a ha, get_u48-put_u48 b hb)
      (ground (arith, length-append (put_u48 a) (put_u48 b), length-put_u48 a, length-put_u48 b))
