-- ===== src/Prelude/Bytes.antt =====
-- `to_le_bytes` and `from_le_bytes` of Rust's integers, at any width in bytes.
use Prim.Native.Nat.{ℕ, zero, suc, ◌+◌, ◌*◌, ◌/◌, ◌%◌, ◌^◌, ◌<◌}
use mathlib.Core.Path.{◌≡◌, refl, ap, subst}
use mathlib.Core.List.{List, [], ◌∷◌}
use native.Mathlib.Omega.{arith}
use native.Mathlib.Nat.{pow-suc}
use raynet.Prelude.Lists.{length, All}
use raynet.Prelude.Words.{IsByte}

unfoldable pub to_le_bytes : ℕ → ℕ → List ℕ
to_le_bytes zero n = []
to_le_bytes (suc w) n = (n % 256) ∷ to_le_bytes w (n / 256)

unfoldable pub from_le_bytes : List ℕ → ℕ
from_le_bytes [] = 0
from_le_bytes (b ∷ bs) = b + 256 * from_le_bytes bs

pub length-to_le_bytes : (w n : ℕ) → length (to_le_bytes w n) ≡ w
unfolding to_le_bytes
length-to_le_bytes zero n = refl
length-to_le_bytes (suc w) n = ap suc (length-to_le_bytes w (n / 256))

pub to_le_bytes-IsByte : (w n : ℕ) → All IsByte (to_le_bytes w n)
unfolding to_le_bytes
to_le_bytes-IsByte zero n = tt
to_le_bytes-IsByte (suc w) n = (omega arith, to_le_bytes-IsByte w (n / 256))

pub from_le_bytes-to_le_bytes : (w n : ℕ) → n < 256 ^ w → from_le_bytes (to_le_bytes w n) ≡ n
unfolding to_le_bytes from_le_bytes
from_le_bytes-to_le_bytes zero n h = omega arith
from_le_bytes-to_le_bytes (suc w) n h =
    omega (arith, from_le_bytes-to_le_bytes w (n / 256) (omega (arith, pow-suc 256 w)))

pub from_le_bytes-lt : (bs : List ℕ) → All IsByte bs → from_le_bytes bs < 256 ^ length bs
unfolding from_le_bytes
from_le_bytes-lt [] h = omega arith
from_le_bytes-lt (b ∷ bs) (hb, hbs) =
    omega (arith, from_le_bytes-lt bs hbs, pow-suc 256 (length bs))

pub to_le_bytes-from_le_bytes :
    (bs : List ℕ) → All IsByte bs → to_le_bytes (length bs) (from_le_bytes bs) ≡ bs
unfolding to_le_bytes from_le_bytes
to_le_bytes-from_le_bytes [] h = refl
to_le_bytes-from_le_bytes (b ∷ bs) (hb, hbs) = ground (
  arith,
  to_le_bytes-from_le_bytes bs hbs,
  ap (to_le_bytes (length bs)) (tail_eq b (from_le_bytes bs) hb),
)
  where
    tail_eq : (c m : ℕ) → IsByte c → (c + 256 * m) / 256 ≡ m
    tail_eq c m h = omega arith

-- Bytes of a known number, read as a word and written back.
pub word_of_bytes :
    (w : ℕ) (bs : List ℕ)
    → All IsByte bs
    → length bs ≡ w
    → (to_le_bytes w (from_le_bytes bs) ≡ bs) × (from_le_bytes bs < 256 ^ w)
word_of_bytes w bs h e =
    subst (λ n. (to_le_bytes n (from_le_bytes bs) ≡ bs) × (from_le_bytes bs < 256 ^ n)) e
      (to_le_bytes-from_le_bytes bs h, from_le_bytes-lt bs h)
