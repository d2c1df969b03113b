-- ===== src/Prelude/Assoc.antt =====
-- Maps with numbers for keys, as association lists. `insert` overwrites in place and adds a new key
-- at the end; `insert_sorted` keeps the keys in order, as a `BTreeMap` does.
use Prim.Native.Nat.{ℕ}
use mathlib.Core.Path.{◌≡◌, refl, subst}
use mathlib.Core.Logic.{inl, inr}
use mathlib.Core.Option.{Option, none, some}
use mathlib.Core.List.{List, [], ◌∷◌}
use native.Mathlib.Omega.{arith}
use raynet.Prelude.Tests.{ltb, ◌==◌, if◌then◌else◌, Bool-cases}

module _ {ℓ} {V : Type ℓ} where
  unfoldable pub lookup : ℕ → List (ℕ × V) → Option V
  lookup k [] = none
  lookup k ((j, v) ∷ m) = if j == k then some v else lookup k m

  unfoldable pub insert : ℕ → V → List (ℕ × V) → List (ℕ × V)
  insert key value [] = (key, value) ∷ []
  insert key value ((old, kept) ∷ map) =
      if old == key then (key, value) ∷ map else (old, kept) ∷ insert key value map

  unfoldable pub insert_sorted : ℕ → V → List (ℕ × V) → List (ℕ × V)
  insert_sorted k v [] = (k, v) ∷ []
  insert_sorted k v ((j, w) ∷ m) =
      if ltb k j
      then (k, v) ∷ (j, w) ∷ m
      else if j == k
      then (k, v) ∷ m
      else (j, w) ∷ insert_sorted k v m

  unfoldable pub remove : ℕ → List (ℕ × V) → List (ℕ × V)
  remove k [] = []
  remove k ((j, v) ∷ m) = if j == k then remove k m else (j, v) ∷ remove k m

  pub lookup-insert :
      (key other : ℕ) (value : V) (map : List (ℕ × V))
      → lookup other (insert key value map)
        ≡ (if key == other then some value else lookup other map)
  unfolding insert lookup
  lookup-insert key other value [] = refl
  lookup-insert key other value (entry ∷ map) =
      let rest = lookup-insert key other value map in ground (arith, rest)

  pub lookup-insert_sorted :
      (k j : ℕ) (v : V) (m : List (ℕ × V))
      → lookup j (insert_sorted k v m) ≡ (if k == j then some v else lookup j m)
  unfolding lookup insert_sorted
  lookup-insert_sorted k j v [] = refl
  lookup-insert_sorted k j v ((i, w) ∷ m) = ground (arith, lookup-insert_sorted k j v m)

  pub lookup-remove :
      (k j : ℕ) (m : List (ℕ × V)) → lookup j (remove k m) ≡ (if k == j then none else lookup j m)
  unfolding lookup remove
  lookup-remove k j [] = ground arith
  lookup-remove k j ((i, w) ∷ m) = ground (arith, lookup-remove k j m)

  -- A property of all values.
  abbrev pub AllValues {κ} : (V → Type κ) → List (ℕ × V) → Type κ
  AllValues P [] = Unit {κ}
  AllValues P ((k, v) ∷ m) = P v × AllValues P m

  pub AllValues-insert_sorted {κ} :
      (P : V → Type κ) (k : ℕ) (v : V) (m : List (ℕ × V))
      → P v
      → AllValues P m
      → AllValues P (insert_sorted k v m)
  unfolding insert_sorted
  AllValues-insert_sorted P k v [] h hs = (h, tt)
  AllValues-insert_sorted P k v ((j, w) ∷ m) h (hw, hs) = elim (Bool-cases (ltb k j)) [
    | inl before ↦ rw before (h, (hw, hs))
    | inr after ↦ elim (Bool-cases (j == k)) [
      | inl here ↦ rw (after, here) (h, hs)
      | inr later ↦ rw (after, later) (hw, AllValues-insert_sorted P k v m h hs)
    ]
  ]

  pub AllValues-remove {κ} :
      (P : V → Type κ) (k : ℕ) (m : List (ℕ × V)) → AllValues P m → AllValues P (remove k m)
  unfolding remove
  AllValues-remove P k [] hs = tt
  AllValues-remove P k ((j, w) ∷ m) (hw, hs) = elim (Bool-cases (j == k)) [
    | inl here ↦ rw here (AllValues-remove P k m hs)
    | inr later ↦ rw later (hw, AllValues-remove P k m hs)
  ]

  pub AllValues-lookup {κ} :
      (P : V → Type κ) (k : ℕ) (v : V) (m : List (ℕ × V))
      → lookup k m ≡ some v
      → AllValues P m
      → P v
  unfolding lookup
  AllValues-lookup P k v [] e hs = absurd (cc e)
  AllValues-lookup P k v ((j, w) ∷ m) e (hw, hs) = elim (Bool-cases (j == k)) [
    | inl here ↦ let same : w ≡ v = cc (rw here at e) in subst P same hw
    | inr later ↦ AllValues-lookup P k v m (rw later at e) hs
  ]
