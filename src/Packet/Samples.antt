-- ===== src/Packet/Samples.antt =====
-- For the tests of crates/raynet-core/src: a cipher that leaves the text as it is and a source of
-- zeros in the place of the crates `aegis` and `blake3`, and an envelope.
use raynet.Prelude.{
  ℕ, ◌≡◌, refl, subst, Bool, true, ◌&&◌, List, [], ◌∷◌, Option, none, some, replicate,
  length-replicate, ltb, if◌then◌else◌, arith, All, IsByte, Bool-cases, inl, inr,
}
use raynet.Wire.Layout.{Envelope}
use raynet.Packet.{Aead, RandomSource}

abbrev pub are_bytes : List ℕ → Bool
are_bytes [] = true
are_bytes (b ∷ bs) = ltb b 256 && are_bytes bs

are_bytes-IsByte : (bs : List ℕ) → All IsByte bs → are_bytes bs ≡ true
are_bytes-IsByte [] h = refl
are_bytes-IsByte (b ∷ bs) (hb, hbs) = ground (arith, are_bytes-IsByte bs hbs)

IsByte-are_bytes : (bs : List ℕ) → are_bytes bs ≡ true → All IsByte bs
IsByte-are_bytes [] h = tt
IsByte-are_bytes (b ∷ bs) h =
    let both : (ltb b 256 ≡ true) × (are_bytes bs ≡ true) = ground arith in
    (ground arith, IsByte-are_bytes bs both.1)

abbrev pub open_text : List ℕ → Option (List ℕ)
open_text text = if are_bytes text then some text else none

pub open_text-IsByte : (text plain : List ℕ) → open_text text ≡ some plain → All IsByte plain
open_text-IsByte text plain h = elim (Bool-cases (are_bytes text)) [
  | inl bytes ↦
      let same : text ≡ plain = cc (rw bytes at h) in
      subst (All IsByte) same (IsByte-are_bytes text bytes)
  | inr other ↦ absurd (cc (rw other at h))
]

pub open_text_ok : (text : List ℕ) → All IsByte text → open_text text ≡ some text
open_text_ok text h = rw (are_bytes-IsByte text h) refl

abbrev pub clear_text : Aead
clear_text = record {
  encrypt = λ key nonce text ad. (text, replicate 16 0);
  decrypt = λ key nonce text tag ad. open_text text;
  length-encrypt = λ key nonce text ad. (refl, refl);
  decrypt-encrypt = λ key nonce text ad h. open_text_ok text h;
  decrypt-IsByte = λ key nonce text tag ad plain h. open_text-IsByte text plain h;
}

abbrev pub zeros : RandomSource ℕ
zeros = record {
  new_stream = λ seed. 0;
  fill = λ n s. (replicate n 0, s);
  length-fill = λ n s. length-replicate n 0;
}

abbrev pub key : List ℕ
key = replicate 16 7

abbrev pub envelope : Envelope
envelope = record {
  time = 1;
  seq_id = 2;
  seq_no = 3;
  route_plan = 4 ∷ 5 ∷ [];
  payload = 112 ∷ 97 ∷ [];
  padding_len = 3;
}
