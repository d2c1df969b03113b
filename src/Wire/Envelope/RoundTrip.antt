-- ===== src/Wire/Envelope/RoundTrip.antt =====
-- crates/raynet-core/src/wire.rs: `Envelope::decode` after `Envelope::encode_with_prefix`.
use raynet.Prelude.{
  ℕ, zero, suc, ◌+◌, ◌-◌, ◌*◌, ◌%◌, ◌^◌, ◌≤◌, ◌<◌, ◌≡◌, refl, ap, ◌∙◌, true, List, [], ◌∷◌, ◌++◌,
  append_assoc, some, arith, length, drop, replicate, All, length-append, length-replicate,
  drop-append, ok, IsU16,
}
use raynet.Prelude.Bytes.{to_le_bytes, length-to_le_bytes, from_le_bytes-to_le_bytes}
use raynet.Prelude.Bits.{bit_or-shifted}
use raynet.Machine.Types.{ChannelId}
use raynet.Wire.Layout.{
  stamp_of, Envelope, slice, put_u48, slice-middle, length-put_u48, get_u48-put_u48,
}
use raynet.Wire.Envelope.{
  time_and_route, route_bytes, envelope_header, encode_with_prefix, envelope_prefix, last?,
  all_equal, read_route, decode_parts, has_tail, decode,
}

-- The fields fit the layout: 26 bits of time, 48 bits for each sequence number, at most 63 channels
-- of 16 bits, and 1 to 255 bytes of padding.
pub record Fits (e : Envelope) : Type 0 where
  pub time_fits : e.time < 2 ^ 26
  pub seq_id_fits : e.seq_id < 2 ^ 48
  pub seq_no_fits : e.seq_no < 2 ^ 48
  pub plan_fits : length e.route_plan < 2 ^ 6
  pub channels_fit : All IsU16 e.route_plan
  pub padded : 0 < e.padding_len
  pub padding_fits : e.padding_len < 256

pub length-route_bytes : (plan : List ChannelId) → length (route_bytes plan) ≡ 2 * length plan
unfolding route_bytes
length-route_bytes [] = refl
length-route_bytes (c ∷ cs) = omega (
  arith,
  length-append (to_le_bytes 2 c) (route_bytes cs),
  length-to_le_bytes 2 c,
  length-route_bytes cs,
)

read_route-route_bytes :
    (plan : List ChannelId) (fuel : ℕ) (front back : List ℕ) (i j : ℕ)
    → All IsU16 plan
    → length front ≡ i
    → i + 2 * length plan ≡ j
    → length plan ≤ fuel
    → read_route fuel (front ++ (route_bytes plan ++ back)) i j ≡ plan
unfolding read_route route_bytes
read_route-route_bytes [] zero front back i j h hi hj hf = refl
read_route-route_bytes [] (suc fuel) front back i j h hi hj hf = ground arith
read_route-route_bytes (c ∷ cs) zero front back i j h hi hj hf = absurd (omega arith)
read_route-route_bytes (c ∷ cs) (suc fuel) front back i j (hc, hcs) hi hj hf =
    let word = to_le_bytes 2 c in
    let whole = front ++ ((word ++ route_bytes cs) ++ back) in
    let first : slice whole i (i + 2) ≡ word = rw (append_assoc word (route_bytes cs) back) (
      slice-middle front word (route_bytes cs ++ back) i (i + 2) hi
        (omega (arith, length-to_le_bytes 2 c))) in
    let rest : read_route fuel whole (i + 2) j ≡ cs =
      rw
        (
          append_assoc word (route_bytes cs) back,
          ← append_assoc front word (route_bytes cs ++ back),
        )
        (read_route-route_bytes cs fuel (front ++ word) back (i + 2) j hcs
          (omega (arith, length-append front word, length-to_le_bytes 2 c)) (omega arith)
          (omega arith)) in
    ground (arith, first, rest, from_le_bytes-to_le_bytes 2 c)

last?-append : (xs : List ℕ) (b : ℕ) (bs : List ℕ) → last? (xs ++ (b ∷ bs)) ≡ last? (b ∷ bs)
unfolding last?
last?-append [] b bs = refl
last?-append (x ∷ []) b bs = refl
last?-append (x ∷ y ∷ xs) b bs = last?-append (y ∷ xs) b bs

last?-replicate : (n b : ℕ) → last? (replicate (suc n) b) ≡ some b
unfolding last?
last?-replicate zero b = refl
last?-replicate (suc n) b = last?-replicate n b

all_equal-replicate : (n b : ℕ) → all_equal b (replicate n b) ≡ true
unfolding all_equal
all_equal-replicate zero b = refl
all_equal-replicate (suc n) b = ground (arith, all_equal-replicate n b)

-- What `Envelope::encode_with_prefix(0)` writes behind the header.
abbrev tail_bytes : Envelope → List ℕ
tail_bytes e = route_bytes e.route_plan ++ replicate e.padding_len e.padding_len

time_and_route-sum :
    (e : Envelope) → Fits e → time_and_route e ≡ e.time * 2 ^ 6 + length e.route_plan
unfolding time_and_route
time_and_route-sum e f =
    rw (small_time, small_plan) (bit_or-shifted 6 e.time (length e.route_plan) f.plan_fits)
  where
    small_time : e.time % 2 ^ 26 ≡ e.time
    small_time = omega arith

    small_plan : length e.route_plan % 2 ^ 32 ≡ length e.route_plan
    small_plan = omega arith

pub length-envelope_header : (e : Envelope) → length (envelope_header e) ≡ 16
unfolding envelope_header
length-envelope_header e = omega (
  arith,
  length-append (to_le_bytes 4 (time_and_route e)) (put_u48 e.seq_id ++ put_u48 e.seq_no),
  length-append (put_u48 e.seq_id) (put_u48 e.seq_no),
  length-to_le_bytes 4 (time_and_route e),
  length-put_u48 e.seq_id,
  length-put_u48 e.seq_no,
)

header_slices :
    (e : Envelope) (rest : List ℕ)
    → (slice (envelope_header e ++ rest) 0 4 ≡ to_le_bytes 4 (time_and_route e))
      × (slice (envelope_header e ++ rest) 4 10 ≡ put_u48 e.seq_id)
      × (slice (envelope_header e ++ rest) 10 16 ≡ put_u48 e.seq_no)
unfolding envelope_header
header_slices e rest = (
  rw (append_assoc word (put_u48 e.seq_id ++ put_u48 e.seq_no) rest) (
      slice-middle [] word ((put_u48 e.seq_id ++ put_u48 e.seq_no) ++ rest) 0 4 refl
        (omega (arith, length-to_le_bytes 4 (time_and_route e)))),
  rw
      (
        append_assoc word (put_u48 e.seq_id ++ put_u48 e.seq_no) rest,
        append_assoc (put_u48 e.seq_id) (put_u48 e.seq_no) rest,
      )
      (slice-middle word (put_u48 e.seq_id) (put_u48 e.seq_no ++ rest) 4 10
        (length-to_le_bytes 4 (time_and_route e)) (omega (arith, length-put_u48 e.seq_id))),
  rw
      (
        ← append_assoc word (put_u48 e.seq_id) (put_u48 e.seq_no),
        append_assoc (word ++ put_u48 e.seq_id) (put_u48 e.seq_no) rest,
      )
      (slice-middle (word ++ put_u48 e.seq_id) (put_u48 e.seq_no) rest 10 16
        (omega (
          arith,
          length-append word (put_u48 e.seq_id),
          length-to_le_bytes 4 (time_and_route e),
          length-put_u48 e.seq_id,
        ))
        (omega (arith, length-put_u48 e.seq_no))),
)
  where
    word : List ℕ
    word = to_le_bytes 4 (time_and_route e)

-- The prefix is read back whatever follows it.
pub envelope_prefix-header :
    (e : Envelope) (rest : List ℕ)
    → Fits e
    → envelope_prefix (envelope_header e ++ rest) ≡ ok (stamp_of e, length e.route_plan)
unfolding envelope_prefix
envelope_prefix-header e rest f =
    let (s0, s1, s2) = header_slices e rest in
    rw
      (
        s0,
        s1,
        s2,
        get_u48-put_u48 e.seq_id f.seq_id_fits,
        get_u48-put_u48 e.seq_no f.seq_no_fits,
        from_le_bytes-to_le_bytes 4 (time_and_route e) (omega (arith, time_and_route-sum e f)),
      )
      (ground (
        arith,
        time_and_route-sum e f,
        length-append (envelope_header e) rest,
        length-envelope_header e,
      ))

last?-padding : (xs : List ℕ) (n b : ℕ) → 0 < n → last? (xs ++ replicate n b) ≡ some b
last?-padding xs zero b h = absurd (omega arith)
last?-padding xs (suc n) b h = last?-append xs b (replicate n b) ∙ last?-replicate n b

module _ (e : Envelope) (f : Fits e) where
  abbrev whole : List ℕ
  whole = envelope_header e ++ (e.payload ++ tail_bytes e)

  abbrev tail_length : ℕ
  tail_length = e.padding_len + length e.route_plan * 2

  whole_lengths : (length whole ≡ 16 + length e.payload + tail_length)
  whole_lengths = omega (
    arith,
    length-append (envelope_header e) (e.payload ++ tail_bytes e),
    length-append e.payload (tail_bytes e),
    length-append (route_bytes e.route_plan) (replicate e.padding_len e.padding_len),
    length-route_bytes e.route_plan,
    length-replicate e.padding_len e.padding_len,
    length-envelope_header e,
  )

  abbrev padding : List ℕ
  padding = replicate e.padding_len e.padding_len

  abbrev front : List ℕ
  front = envelope_header e ++ (e.payload ++ route_bytes e.route_plan)

  whole_split : whole ≡ front ++ padding
  whole_split = rw (
    append_assoc (envelope_header e) (e.payload ++ route_bytes e.route_plan) padding,
    append_assoc e.payload (route_bytes e.route_plan) padding,
  )

  front-length : length front + e.padding_len ≡ length whole
  front-length = omega (
    arith,
    ap length whole_split,
    length-append front padding,
    length-replicate e.padding_len e.padding_len,
  )

  whole-padding : drop (length whole - e.padding_len) whole ≡ padding
  whole-padding =
      ap (drop (length whole - e.padding_len)) whole_split
      ∙ drop-append front padding (length whole - e.padding_len) (omega (arith, front-length))

  whole_last : last? whole ≡ some e.padding_len
  whole_last = ap last? whole_split ∙ last?-padding front e.padding_len e.padding_len f.padded

  whole-has_tail : has_tail whole e.padding_len tail_length ≡ true
  unfolding has_tail
  whole-has_tail =
      rw (whole-padding, all_equal-replicate e.padding_len e.padding_len)
        (ground (arith, whole_lengths))

  plan_read :
      (fuel i j : ℕ)
      → i ≡ 16 + length e.payload
      → i + 2 * length e.route_plan ≡ j
      → length e.route_plan ≤ fuel
      → read_route fuel whole i j ≡ e.route_plan
  plan_read fuel i j hi hj hf = rw (← append_assoc (envelope_header e) e.payload (tail_bytes e)) (
      read_route-route_bytes e.route_plan fuel (envelope_header e ++ e.payload) padding i j
        f.channels_fit
        (omega (arith, length-append (envelope_header e) e.payload, length-envelope_header e)) hj
        hf)

  whole_parts : decode_parts whole (stamp_of e) e.padding_len tail_length ≡ e
  unfolding decode_parts
  whole_parts = ground (
    arith,
    slice-middle (envelope_header e) e.payload (tail_bytes e) 16 (length whole - tail_length)
        (length-envelope_header e) (omega (arith, whole_lengths)),
    plan_read (length whole - e.padding_len - (length whole - tail_length))
        (length whole - tail_length) (length whole - e.padding_len) (omega (arith, whole_lengths))
        (omega (arith, whole_lengths)) (omega (arith, whole_lengths)),
  )

-- An envelope whose fields fit the layout is read back exactly from its encoding.
pub decode-encode_with_prefix : (e : Envelope) → Fits e → decode (encode_with_prefix e 0) ≡ ok e
unfolding decode encode_with_prefix
decode-encode_with_prefix e f = rw (
  envelope_prefix-header e (e.payload ++ tail_bytes e) f,
  whole_last e f,
  whole-has_tail e f,
  whole_parts e f,
)
