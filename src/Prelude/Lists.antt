-- ===== src/Prelude/Lists.antt =====
-- Lists measured by native numbers: lengths, indices and filters.
use Prim.Native.Nat.{ℕ, zero, suc, ◌+◌}
use mathlib.Core.Path.{◌≡◌, refl}
use mathlib.Core.Bool.{Bool, true, false}
use mathlib.Core.List.{List, [], ◌∷◌, ◌++◌, map}
use mathlib.Core.Option.{Option, none, some}
use native.Mathlib.Omega.{arith}
use m365_copilot2api_dsm.Prelude.Tests.{leb, if◌then◌else◌}

module _ {ℓ} {A : Type ℓ} where
  abbrev pub length : List A → ℕ
  length [] = 0
  length (x ∷ xs) = suc (length xs)

  abbrev pub get_elem? : List A → ℕ → Option A
  get_elem? [] i = none
  get_elem? (x ∷ xs) zero = some x
  get_elem? (x ∷ xs) (suc i) = get_elem? xs i

  abbrev pub is_empty : List A → Bool
  is_empty [] = true
  is_empty (x ∷ xs) = false

  abbrev pub take : ℕ → List A → List A
  take zero xs = []
  take (suc n) [] = []
  take (suc n) (x ∷ xs) = x ∷ take n xs

  abbrev pub drop : ℕ → List A → List A
  drop zero xs = xs
  drop (suc n) [] = []
  drop (suc n) (x ∷ xs) = drop n xs

  pub length-append : (xs ys : List A) → length (xs ++ ys) ≡ length xs + length ys
  length-append [] ys = omega arith
  length-append (x ∷ xs) ys = omega (arith, length-append xs ys)

  -- The elements that pass a Boolean test, in order.
  abbrev pub filter : (A → Bool) → List A → List A
  filter p [] = []
  filter p (x ∷ xs) = elim (p x) [ true ↦ x ∷ filter p xs | false ↦ filter p xs ]

  -- A sort by a measure, which keeps the order of equal ones.
  unfoldable pub place : (A → ℕ) → A → List A → List A
  place measure x [] = x ∷ []
  place measure x (y ∷ ys) =
      let later = place measure x ys in
      if leb (measure x) (measure y) then x ∷ y ∷ ys else y ∷ later

  unfoldable pub sort_by : (A → ℕ) → List A → List A
  unfolding place
  sort_by measure [] = []
  sort_by measure (x ∷ xs) = place measure x (sort_by measure xs)

  length-place :
      (measure : A → ℕ) (x : A) (xs : List A) → length (place measure x xs) ≡ suc (length xs)
  unfolding place
  length-place measure x [] = refl
  length-place measure x (y ∷ ys) = ground (arith, length-place measure x ys)

  pub length-sort_by : (measure : A → ℕ) (xs : List A) → length (sort_by measure xs) ≡ length xs
  unfolding sort_by
  length-sort_by measure [] = refl
  length-sort_by measure (x ∷ xs) =
      ground (arith, length-place measure x (sort_by measure xs), length-sort_by measure xs)

pub length-map {ℓ κ} :
    {A : Type ℓ} {B : Type κ} (f : A → B) (xs : List A) → length (map f xs) ≡ length xs
length-map f [] = omega arith
length-map f (x ∷ xs) = omega (arith, length-map f xs)
