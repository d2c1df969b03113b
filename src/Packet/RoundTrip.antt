-- ===== src/Packet/RoundTrip.antt =====
-- crates/raynet-core/src/packet.rs: `decode_transport_packet` after `encode_transport_packet`.
use raynet.Prelude.{
  ℕ, zero, suc, ◌+◌, ◌*◌, ◌≤◌, ◌<◌, ◌≡◌, refl, sym, ap, ◌∙◌, subst, false, ◌||◌, List, [], ◌∷◌,
  ◌++◌, append_assoc, some, length, take, drop, replicate, ltb, arith, All, All-append, IsByte,
  length-append, length-replicate, drop-append, take-append, ok, All-append_left, take-append-drop,
}
use raynet.Prelude.Bytes.{to_le_bytes, to_le_bytes-IsByte}
use raynet.Wire.Layout.{Envelope, slice, slice-middle, put_u48}
use raynet.Wire.Envelope.{envelope_header, encode_with_prefix, route_bytes, time_and_route}
use raynet.Wire.Envelope.RoundTrip.{
  Fits, decode-encode_with_prefix, length-envelope_header, length-route_bytes,
}
use raynet.Packet.{
  Aead, RandomSource, encode_transport_packet, decode_transport_packet, decrypt_envelope,
}

-- The size of the packet of an envelope.
unfoldable pub packet_size : Envelope → ℕ
packet_size e = 48 + length e.payload + 2 * length e.route_plan + e.padding_len

drop-prefix : (e : Envelope) → drop 32 (encode_with_prefix e 32) ≡ encode_with_prefix e 0
unfolding encode_with_prefix
drop-prefix e = refl

length-encode_with_prefix : (e : Envelope) → length (encode_with_prefix e 0) + 32 ≡ packet_size e
unfolding encode_with_prefix packet_size
length-encode_with_prefix e = omega (
  arith,
  length-envelope_header e,
  length-route_bytes e.route_plan,
  length-replicate e.padding_len e.padding_len,
  length-append (envelope_header e)
      (e.payload ++ (route_bytes e.route_plan ++ replicate e.padding_len e.padding_len)),
  length-append e.payload (route_bytes e.route_plan ++ replicate e.padding_len e.padding_len),
  length-append (route_bytes e.route_plan) (replicate e.padding_len e.padding_len),
)

replicate-IsByte : (n b : ℕ) → IsByte b → All IsByte (replicate n b)
replicate-IsByte zero b h = tt
replicate-IsByte (suc n) b h = (h, replicate-IsByte n b h)

route_bytes-IsByte : (plan : List ℕ) → All IsByte (route_bytes plan)
unfolding route_bytes
route_bytes-IsByte [] = tt
route_bytes-IsByte (c ∷ cs) =
    All-append IsByte (to_le_bytes 2 c) (route_bytes cs) (to_le_bytes-IsByte 2 c)
      (route_bytes-IsByte cs)

put_u48-IsByte : (value : ℕ) → All IsByte (put_u48 value)
unfolding put_u48
put_u48-IsByte value =
    All-append_left IsByte (take 6 (to_le_bytes 8 value)) (drop 6 (to_le_bytes 8 value)) (
      subst (All IsByte) (sym (take-append-drop 6 (to_le_bytes 8 value)))
        (to_le_bytes-IsByte 8 value))

encode_with_prefix-IsByte :
    (e : Envelope)
    → All IsByte e.payload
    → e.padding_len < 256
    → All IsByte (encode_with_prefix e 0)
unfolding encode_with_prefix envelope_header
encode_with_prefix-IsByte e hp hn =
    let plan = route_bytes e.route_plan in
    let pad = replicate e.padding_len e.padding_len in
    let ends : All IsByte (plan ++ pad) =
      All-append IsByte plan pad (route_bytes-IsByte e.route_plan)
        (replicate-IsByte e.padding_len e.padding_len hn) in
    let body : All IsByte (e.payload ++ (plan ++ pad)) =
      All-append IsByte e.payload (plan ++ pad) hp ends in
    let numbers : All IsByte (put_u48 e.seq_id ++ put_u48 e.seq_no) =
      All-append IsByte (put_u48 e.seq_id) (put_u48 e.seq_no) (put_u48-IsByte e.seq_id)
        (put_u48-IsByte e.seq_no) in
    let word = to_le_bytes 4 (time_and_route e) in
    let header : All IsByte (word ++ (put_u48 e.seq_id ++ put_u48 e.seq_no)) =
      All-append IsByte word (put_u48 e.seq_id ++ put_u48 e.seq_no)
        (to_le_bytes-IsByte 4 (time_and_route e)) numbers in
    All-append IsByte (envelope_header e) (e.payload ++ (plan ++ pad)) header body

module _ (aead : Aead) {Stream : Type 0} (source : RandomSource Stream) where
  pub length-encode_transport_packet :
      (key : List ℕ) (s : Stream) (e : Envelope)
      → length (encode_transport_packet aead source key s e).0 ≡ packet_size e
  unfolding encode_transport_packet packet_size
  length-encode_transport_packet key s e =
      let nonce = (source.fill 16 s).0 in
      let plain = encode_with_prefix e 0 in
      let text = (aead.encrypt key nonce plain []).0 in
      let tag = (aead.encrypt key nonce plain []).1 in
      let (text_len, tag_len) = aead.length-encrypt key nonce plain [] in
      let nonce_len = source.length-fill 16 s in
      let plain_len = length-encode_with_prefix e in
      rw (drop-prefix e)
        (omega (arith, length-append nonce (tag ++ text), length-append tag text, plain_len))

  -- The packet of an envelope whose fields fit the layout and whose payload is made of bytes has
  -- the size of its parts and is read back as that envelope, under the same key and whatever the
  -- random nonce, where the packet is not longer than the transport allows.
  pub decode-encode_transport_packet :
      (key : List ℕ) (s : Stream) (e : Envelope)
      → Fits e
      → All IsByte e.payload
      → packet_size e ≤ 65536
      → let packet = (encode_transport_packet aead source key s e).0 in
        (length packet ≡ packet_size e) × (decode_transport_packet aead key packet ≡ ok e)
  unfolding encode_transport_packet decode_transport_packet decrypt_envelope packet_size
  decode-encode_transport_packet key s e f hp hs =
      let nonce = (source.fill 16 s).0 in
      let plain = encode_with_prefix e 0 in
      let text = (aead.encrypt key nonce plain []).0 in
      let tag = (aead.encrypt key nonce plain []).1 in
      let (text_len, tag_len) = aead.length-encrypt key nonce plain [] in
      let nonce_len = source.length-fill 16 s in
      let packet = nonce ++ (tag ++ text) in
      let size : length packet ≡ packet_size e = omega (
        arith,
        length-append nonce (tag ++ text),
        length-append tag text,
        length-encode_with_prefix e,
      ) in
      let fits : (ltb (length packet) 32 || ltb 65536 (length packet)) ≡ false = ground arith in
      let nonce_eq : slice packet 0 16 ≡ nonce = take-append nonce (tag ++ text) 16 nonce_len in
      let tag_eq : slice packet 16 32 ≡ tag =
        slice-middle nonce tag text 16 32 nonce_len (omega arith) in
      let joined : packet ≡ (nonce ++ tag) ++ text = sym (append_assoc nonce tag text) in
      let text_eq : drop 32 packet ≡ text =
        ap (drop 32) joined
        ∙ drop-append (nonce ++ tag) text 32 (omega (arith, length-append nonce tag)) in
      let opened : aead.decrypt key (slice packet 0 16) (drop 32 packet) (slice packet 16 32) []
          ≡ some plain =
        rw (nonce_eq, tag_eq, text_eq)
          (aead.decrypt-encrypt key nonce plain []
            (encode_with_prefix-IsByte e hp f.padding_fits)) in
      rw (drop-prefix e)
        (size, rw (fits, opened, decrypt_envelope, decode-encode_with_prefix e f) refl)
