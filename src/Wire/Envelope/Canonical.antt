-- ===== src/Wire/Envelope/Canonical.antt =====
-- crates/raynet-core/src/wire.rs: what `Envelope::decode` accepts.
use raynet.Prelude.{
  ℕ, zero, suc, ◌+◌, ◌-◌, ◌*◌, ◌/◌, ◌%◌, ◌^◌, ◌≤◌, ◌<◌, ◌≡◌, refl, sym, ap, ap₂, ◌∙◌, true, List,
  [], ◌∷◌, ◌++◌, some, arith, length, take, drop, replicate, All, length-append, length-take,
  length-drop, ltb, ok, IsU16, IsByte, take-append-drop, All-append_left, All-append_right,
  Bool-cases, Option-cases, inl, inr, take-append, All-append, subst, lt→ltb,
}
use raynet.Prelude.Bytes.{to_le_bytes, from_le_bytes, word_of_bytes}
use raynet.Prelude.Bits.{bit_or-shifted}
use raynet.Wire.Layout.{Envelope, slice, put_u48, get_u48}
use raynet.Wire.Envelope.{
  time_and_route, route_bytes, envelope_header, encode_with_prefix, envelope_prefix, last?,
  all_equal, read_route, decode_parts, has_tail, decode,
}
use raynet.Wire.Envelope.RoundTrip.{Fits}

empty_ends : (k : ℕ) → (take {A = ℕ} k [] ≡ []) × (drop {A = ℕ} k [] ≡ [])
empty_ends zero = (refl, refl)
empty_ends (suc k) = (refl, refl)

take-drop_join : (m n k : ℕ) (xs : List ℕ) → m + n ≡ k → take m xs ++ take n (drop m xs) ≡ take k xs
take-drop_join zero n k xs e = ap (λ i. take i xs) (omega arith)
take-drop_join (suc m) n k [] e = ground (arith, empty_ends n, empty_ends k)
take-drop_join (suc m) n zero (x ∷ xs) e = absurd (omega arith)
take-drop_join (suc m) n (suc k) (x ∷ xs) e = ap (◌∷◌ x) (take-drop_join m n k xs (omega arith))

drop-drop : (m n k : ℕ) (xs : List ℕ) → m + n ≡ k → drop n (drop m xs) ≡ drop k xs
drop-drop zero n k xs e = ap (λ i. drop i xs) (omega arith)
drop-drop (suc m) n k [] e = ground (arith, empty_ends n, empty_ends k)
drop-drop (suc m) n zero (x ∷ xs) e = absurd (omega arith)
drop-drop (suc m) n (suc k) (x ∷ xs) e = drop-drop m n k xs (omega arith)

-- Neighbouring slices join.
slice-join : (xs : List ℕ) (a b c : ℕ) → a ≤ b → b ≤ c → slice xs a b ++ slice xs b c ≡ slice xs a c
slice-join xs a b c h k =
    ap (λ ys. slice xs a b ++ take (c - b) ys) (sym (drop-drop a (b - a) b xs (omega arith)))
    ∙ take-drop_join (b - a) (c - b) (c - a) (drop a xs) (omega arith)

-- A slice up to the end is a drop.
slice-drop_join : (xs : List ℕ) (a b : ℕ) → a ≤ b → slice xs a b ++ drop b xs ≡ drop a xs
slice-drop_join xs a b h =
    ap (λ ys. slice xs a b ++ ys) (sym (drop-drop a (b - a) b xs (omega arith)))
    ∙ take-append-drop (b - a) (drop a xs)

length-slice : (xs : List ℕ) (a b : ℕ) → a ≤ b → b ≤ length xs → length (slice xs a b) ≡ b - a
length-slice xs a b h k = omega (arith, length-take (b - a) (drop a xs), length-drop a xs)

take-All : (n : ℕ) (xs : List ℕ) → All IsByte xs → All IsByte (take n xs)
take-All n xs h = All-append_left IsByte (take n xs) (drop n xs) (rw take-append-drop h)

drop-All : (n : ℕ) (xs : List ℕ) → All IsByte xs → All IsByte (drop n xs)
drop-All n xs h = All-append_right IsByte (take n xs) (drop n xs) (rw take-append-drop h)

slice-IsByte : (xs : List ℕ) (a b : ℕ) → All IsByte xs → All IsByte (slice xs a b)
slice-IsByte xs a b h = take-All (b - a) (drop a xs) (drop-All a xs h)

-- Six bytes survive `get_u48` and `put_u48`.
put_u48-get_u48 : (bs : List ℕ) → All IsByte bs → length bs ≡ 6 → put_u48 (get_u48 bs) ≡ bs
unfolding put_u48 get_u48
put_u48-get_u48 bs h e =
    ap (take 6) (word_of_bytes 8 wide wide-IsByte wide_length).0 ∙ take-append bs (0 ∷ 0 ∷ []) 6 e
  where
    wide : List ℕ
    wide = bs ++ (0 ∷ 0 ∷ [])

    wide_length : length wide ≡ 8
    wide_length = omega (arith, length-append bs (0 ∷ 0 ∷ []))

    wide-IsByte : All IsByte wide
    wide-IsByte = All-append IsByte bs (0 ∷ 0 ∷ []) h (omega arith)

from_le_bytes-zeros : (bs : List ℕ) → from_le_bytes (bs ++ (0 ∷ 0 ∷ [])) ≡ from_le_bytes bs
unfolding from_le_bytes
from_le_bytes-zeros [] = refl
from_le_bytes-zeros (b ∷ bs) = omega (arith, from_le_bytes-zeros bs)

get_u48-lt : (bs : List ℕ) → All IsByte bs → length bs ≡ 6 → get_u48 bs < 2 ^ 48
unfolding get_u48
get_u48-lt bs h e = rw from_le_bytes-zeros (word_of_bytes 6 bs h e).1

slice-none : (xs : List ℕ) (i j : ℕ) → i ≡ j → slice xs i j ≡ []
slice-none xs i j e = let none : j - i ≡ 0 = omega arith in ap (λ n. take n (drop i xs)) none

-- The channel identifiers of an even slice, written back.
route_bytes-read_route :
    (fuel : ℕ) (bs : List ℕ) (i n j : ℕ)
    → All IsByte bs
    → i + 2 * n ≡ j
    → j ≤ length bs
    → n ≤ fuel
    → (route_bytes (read_route fuel bs i j) ≡ slice bs i j)
      × (length (read_route fuel bs i j) ≡ n)
      × All IsU16 (read_route fuel bs i j)
unfolding route_bytes read_route
route_bytes-read_route zero bs i n j h e k f =
    (sym (slice-none bs i j (omega arith)), omega arith, tt)
route_bytes-read_route (suc fuel) bs i zero j h e k f = ground (arith, slice-none bs i j)
route_bytes-read_route (suc fuel) bs i (suc n) j h e k f =
    let (ih, ihn, ihc) =
      route_bytes-read_route fuel bs (i + 2) n j h (omega arith) k (omega arith) in
    let (two, small) =
      word_of_bytes 2 (slice bs i (i + 2)) (slice-IsByte bs i (i + 2) h)
        (length-slice bs i (i + 2) (omega arith) (omega arith) ∙ omega arith) in
    rw (lt→ltb i j (omega arith)) (
      ap₂ ◌++◌ two ih ∙ slice-join bs i (i + 2) j (omega arith) (omega arith),
      omega arith,
      (small, ihc),
    )

all_equal→replicate :
    (xs : List ℕ) (b n : ℕ) → all_equal b xs ≡ true → length xs ≡ n → replicate n b ≡ xs
unfolding all_equal
all_equal→replicate [] b zero h e = refl
all_equal→replicate [] b (suc n) h e = absurd (omega arith)
all_equal→replicate (x ∷ xs) b zero h e = absurd (omega arith)
all_equal→replicate (x ∷ xs) b (suc n) h e =
    ap₂ ◌∷◌ (ground arith) (all_equal→replicate xs b n (ground arith) (omega arith))

last?-IsByte : (xs : List ℕ) (b : ℕ) → All IsByte xs → last? xs ≡ some b → IsByte b
unfolding last?
last?-IsByte [] b h e = cc
last?-IsByte (x ∷ []) b h e = ground arith
last?-IsByte (x ∷ y ∷ xs) b (hx, h) e = last?-IsByte (y ∷ xs) b h e

-- An accepted input, taken apart.
module _ (bs : List ℕ) (all_bytes : All IsByte bs) (p : ℕ) (enough : 16 ≤ length bs)
    (end : last? bs ≡ some p)
    (tail : has_tail bs p (p + from_le_bytes (slice bs 0 4) % 2 ^ 6 * 2) ≡ true) where
  abbrev word : ℕ
  word = from_le_bytes (slice bs 0 4)

  abbrev decoded : Envelope
  decoded =
      decode_parts bs
        (record {
          time = word / 2 ^ 6;
          seq_id = get_u48 (slice bs 4 10);
          seq_no = get_u48 (slice bs 10 16);
        })
        p (p + word % 2 ^ 6 * 2)

  guards :
      (0 < p)
      × (16 + (p + word % 2 ^ 6 * 2) ≤ length bs)
      × (all_equal p (drop (length bs - p) bs) ≡ true)
  unfolding has_tail
  guards = ground arith

  route :
      (route_bytes decoded.route_plan
        ≡ slice bs (length bs - (p + word % 2 ^ 6 * 2)) (length bs - p))
      × (length decoded.route_plan ≡ word % 2 ^ 6)
      × All IsU16 decoded.route_plan
  unfolding decode_parts
  route =
      let (nonzero, room, equal) = guards in
      route_bytes-read_route _ bs _ (word % 2 ^ 6) _ all_bytes (omega arith) (omega arith)
        (omega arith)

  word_back : (to_le_bytes 4 word ≡ slice bs 0 4) × (word < 256 ^ 4)
  word_back =
      word_of_bytes 4 (slice bs 0 4) (slice-IsByte bs 0 4 all_bytes)
        (length-slice bs 0 4 (omega arith) (omega arith))

  time_and_route-decoded : time_and_route decoded ≡ word
  unfolding time_and_route decode_parts
  time_and_route-decoded =
      let (bytes, plan, channels) = route in
      let (back, small) = word_back in
      let kept : word / 2 ^ 6 % 2 ^ 26 ≡ word / 2 ^ 6 = omega arith in
      let short : length decoded.route_plan % 2 ^ 32 ≡ word % 2 ^ 6 = omega arith in
      rw (kept, short) (bit_or-shifted 6 (word / 2 ^ 6) (word % 2 ^ 6) (omega arith) ∙ omega arith)

  six_back :
      (a b : ℕ)
      → a + 6 ≡ b
      → b ≤ 16
      → (put_u48 (get_u48 (slice bs a b)) ≡ slice bs a b) × (get_u48 (slice bs a b) < 2 ^ 48)
  six_back a b e h =
      let bytes = slice-IsByte bs a b all_bytes in
      let size : length (slice bs a b) ≡ 6 =
        length-slice bs a b (omega arith) (omega arith) ∙ omega arith in
      (put_u48-get_u48 (slice bs a b) bytes size, get_u48-lt (slice bs a b) bytes size)

  envelope_header-decoded : envelope_header decoded ≡ slice bs 0 16
  unfolding envelope_header decode_parts
  envelope_header-decoded =
      let (id_back, id_small) = six_back 4 10 (omega arith) (omega arith) in
      let (no_back, no_small) = six_back 10 16 (omega arith) (omega arith) in
      rw (time_and_route-decoded, word_back.0, id_back, no_back)
        (ap (◌++◌ (slice bs 0 4)) (slice-join bs 4 10 16 (omega arith) (omega arith))
          ∙ slice-join bs 0 4 16 (omega arith) (omega arith))

  decoded-Fits : Fits decoded
  unfolding decode_parts
  decoded-Fits =
      let (bytes, plan, channels) = route in
      record {
        time_fits = omega (arith, word_back.1);
        seq_id_fits = (six_back 4 10 (omega arith) (omega arith)).1;
        seq_no_fits = (six_back 10 16 (omega arith) (omega arith)).1;
        plan_fits = omega arith;
        channels_fit = channels;
        padded = guards.0;
        padding_fits = last?-IsByte bs p all_bytes end;
      }

  encode_with_prefix-decoded : encode_with_prefix decoded 0 ≡ bs
  unfolding encode_with_prefix decode_parts
  encode_with_prefix-decoded =
      let (nonzero, room, equal) = guards in
      let a = length bs - (p + word % 2 ^ 6 * 2) in
      let b = length bs - p in
      let pad : replicate p p ≡ drop b bs =
        all_equal→replicate (drop b bs) p p equal (omega (arith, length-drop b bs)) in
      rw
        (
          envelope_header-decoded,
          route.0,
          pad,
          slice-drop_join bs a b (omega arith),
          slice-drop_join bs 16 a (omega arith),
        )
        (slice-drop_join bs 0 16 (omega arith))

-- Whatever bytes are accepted, the result fits the layout and the bytes are its encoding.
pub decode_canonical :
    (bs : List ℕ) (e : Envelope)
    → All IsByte bs
    → decode bs ≡ ok e
    → Fits e × (encode_with_prefix e 0 ≡ bs)
unfolding decode envelope_prefix
decode_canonical bs e h d = elim (Bool-cases (ltb (length bs) 16)) [
  | inl short ↦ cc (rw short at d)
  | inr long ↦ elim (Option-cases (last? bs)) [
    | inl missing ↦ cc (rw (long, missing) at d)
    | inr (p, end) ↦
        elim (Bool-cases (has_tail bs p (p + from_le_bytes (slice bs 0 4) % 2 ^ 6 * 2))) [
          | inl tail ↦
              let enough : 16 ≤ length bs = ground arith in
              let same : decoded bs h p enough end tail ≡ e = cc (rw (long, end, tail) at d) in
              subst (λ x. Fits x × (encode_with_prefix x 0 ≡ bs)) same
                (
                  decoded-Fits bs h p enough end tail,
                  encode_with_prefix-decoded bs h p enough end tail,
                )
          | inr cut ↦ cc (rw (long, end, cut) at d)
        ]
  ]
]
