-- ===== src/Prelude/Bits.antt =====
-- The bits of a machine word: `&`, `|` and `!` read bit by bit, at every width.
use Prim.Native.Nat.{ℕ, zero, suc, ◌+◌, ◌-◌, ◌*◌, ◌/◌, ◌%◌, ◌^◌, ◌≤◌, ◌<◌, min, max}
use Prim.Native.Nat.{bit_and, bit_or, digits, bit_and-bitwise, bit_or-bitwise}
use mathlib.Core.Path.{◌≡◌, refl, ap, ◌∙◌}
use mathlib.Core.Logic.{◌≢◌}
use native.Mathlib.Omega.{arith}
use native.Mathlib.Nat.{pow-suc}

-- The library's operations run on fuel; more fuel than the first word needs changes nothing.
enough_fuel :
    (low : ℕ → ℕ) (f : ℕ → ℕ → ℕ) (n m a b : ℕ)
    → a ≤ n
    → n ≤ m
    → digits low f m a b ≡ digits low f n a b
enough_fuel low f zero zero a b p q = refl
enough_fuel low f zero (suc m) zero b p q = refl
enough_fuel low f zero (suc m) (suc a) b p q = absurd (omega arith)
enough_fuel low f (suc n) zero a b p q = absurd (omega arith)
enough_fuel low f (suc n) (suc m) zero b p q = refl
enough_fuel low f (suc n) (suc m) (suc a) b p q =
    omega (arith, enough_fuel low f n m (suc a / 2) (b / 2) (omega arith) (omega arith))

pub bit_or_digit : (a b : ℕ) → bit_or a b ≡ 2 * bit_or (a / 2) (b / 2) + max (a % 2) (b % 2)
bit_or_digit zero b = omega (arith, bit_or-bitwise zero b, bit_or-bitwise zero (b / 2))
bit_or_digit (suc a) b =
    let whole = bit_or-bitwise (suc a) b in
    let half = bit_or-bitwise (suc a / 2) (b / 2) in
    let fuel =
      enough_fuel (λ y. y) max (suc a / 2) a (suc a / 2) (b / 2) (omega arith) (omega arith) in
    omega (arith, whole, half, fuel)

pub bit_and_digit : (a b : ℕ) → bit_and a b ≡ 2 * bit_and (a / 2) (b / 2) + min (a % 2) (b % 2)
bit_and_digit zero b = omega (arith, bit_and-bitwise zero b, bit_and-bitwise zero (b / 2))
bit_and_digit (suc a) b =
    let whole = bit_and-bitwise (suc a) b in
    let half = bit_and-bitwise (suc a / 2) (b / 2) in
    let fuel =
      enough_fuel (λ y. zero) min (suc a / 2) a (suc a / 2) (b / 2) (omega arith) (omega arith) in
    omega (arith, whole, half, fuel)

-- Bit `k` of a word, by its halves.
abbrev pub bit : ℕ → ℕ → ℕ
bit a zero = a % 2
bit a (suc k) = bit (a / 2) k

pub bit-lt : (a k : ℕ) → bit a k < 2
bit-lt a zero = omega arith
bit-lt a (suc k) = bit-lt (a / 2) k

pub bit-bit_or : (k a b : ℕ) → bit (bit_or a b) k ≡ max (bit a k) (bit b k)
bit-bit_or zero a b = omega (arith, bit_or_digit a b)
bit-bit_or (suc k) a b = ap (λ n. bit n k) (half_or a b) ∙ bit-bit_or k (a / 2) (b / 2)
  where
    half_or : (x y : ℕ) → bit_or x y / 2 ≡ bit_or (x / 2) (y / 2)
    half_or x y = omega (arith, bit_or_digit x y)

pub bit-bit_and : (k a b : ℕ) → bit (bit_and a b) k ≡ min (bit a k) (bit b k)
bit-bit_and zero a b = omega (arith, bit_and_digit a b)
bit-bit_and (suc k) a b = ap (λ n. bit n k) (half_and a b) ∙ bit-bit_and k (a / 2) (b / 2)
  where
    half_and : (x y : ℕ) → bit_and x y / 2 ≡ bit_and (x / 2) (y / 2)
    half_and x y = omega (arith, bit_and_digit x y)

pub bit-zero : (k : ℕ) → bit 0 k ≡ 0
bit-zero zero = refl
bit-zero (suc k) = bit-zero k

pow-half : (j : ℕ) → 2 ^ suc j / 2 ≡ 2 ^ j
pow-half j = omega (arith, pow-suc 2 j)

pub bit-pow_self : (j : ℕ) → bit (2 ^ j) j ≡ 1
bit-pow_self zero = refl
bit-pow_self (suc j) = ap (λ n. bit n j) (pow-half j) ∙ bit-pow_self j

pub bit-pow_ne : (j k : ℕ) → j ≢ k → bit (2 ^ j) k ≡ 0
bit-pow_ne zero zero h = absurd (h refl)
bit-pow_ne zero (suc k) h = bit-zero k
bit-pow_ne (suc j) zero h = omega (arith, pow-suc 2 j)
bit-pow_ne (suc j) (suc k) h = ap (λ n. bit n k) (pow-half j) ∙ bit-pow_ne j k (λ e. h (ap suc e))

-- `!a` in a word of `w` bits.
abbrev pub complement : ℕ → ℕ → ℕ
complement w a = 2 ^ w - 1 - a

half_complement : (w a : ℕ) → a < 2 ^ suc w → complement (suc w) a / 2 ≡ complement w (a / 2)
half_complement w a h = omega (arith, pow-suc 2 w)

pub bit-complement : (w k a : ℕ) → k < w → a < 2 ^ w → bit (complement w a) k ≡ 1 - bit a k
bit-complement zero k a h ha = absurd (omega arith)
bit-complement (suc w) zero a h ha = omega (arith, pow-suc 2 w)
bit-complement (suc w) (suc k) a h ha =
    ap (λ n. bit n k) (half_complement w a ha)
    ∙ bit-complement w k (a / 2) (omega arith) (omega (arith, pow-suc 2 w))

or-zero_below : (n x : ℕ) → x ≤ n → bit_or x 0 ≡ x
or-zero_below n zero h = omega (arith, bit_or-bitwise zero zero)
or-zero_below zero (suc x) h = absurd (omega arith)
or-zero_below (suc n) (suc x) h =
    omega (arith, bit_or_digit (suc x) 0, or-zero_below n (suc x / 2) (omega arith))

and-zero_below : (n x : ℕ) → x ≤ n → bit_and x 0 ≡ 0
and-zero_below n zero h = omega (arith, bit_and-bitwise zero zero)
and-zero_below zero (suc x) h = absurd (omega arith)
and-zero_below (suc n) (suc x) h =
    omega (arith, bit_and_digit (suc x) 0, and-zero_below n (suc x / 2) (omega arith))

pub bit_or-zero : (a : ℕ) → bit_or a 0 ≡ a
bit_or-zero a = or-zero_below a a (omega arith)

pub bit_and-zero : (a : ℕ) → bit_and a 0 ≡ 0
bit_and-zero a = and-zero_below a a (omega arith)

-- `a & (1 << k)` is the bit, in its place.
pub bit_and-pow : (a k : ℕ) → bit_and a (2 ^ k) ≡ bit a k * 2 ^ k
bit_and-pow a zero = omega (arith, bit_and_digit a 1, bit_and-zero (a / 2))
bit_and-pow a (suc k) = omega (
  arith,
  bit_and_digit a (2 ^ suc k),
  pow-suc 2 k,
  ap (bit_and (a / 2)) (pow-half k),
  bit_and-pow (a / 2) k,
  ap (λ (t : ℕ). bit (a / 2) k * t) (pow-suc 2 k),
)

shift_half : (x j : ℕ) → x * 2 ^ suc j / 2 ≡ x * 2 ^ j
shift_half x j = omega (arith, ap (λ (t : ℕ). x * t) (pow-suc 2 j))

-- `(q << k) | r` is a sum where `r` fits the `k` low bits.
pub bit_or-shifted : (k q r : ℕ) → r < 2 ^ k → bit_or (q * 2 ^ k) r ≡ q * 2 ^ k + r
bit_or-shifted zero q zero h = bit_or-zero (q * 2 ^ 0) ∙ omega arith
bit_or-shifted zero q (suc r) h = absurd (omega arith)
bit_or-shifted (suc k) q r h = omega (
  arith,
  bit_or_digit (q * 2 ^ suc k) r,
  ap (λ (t : ℕ). q * t) (pow-suc 2 k),
  ap (λ (t : ℕ). bit_or t (r / 2)) (shift_half q k),
  bit_or-shifted k q (r / 2) (omega (arith, pow-suc 2 k)),
)
