-- ===== src/Prelude/Maps.antt =====
-- Go's `map[string]V` as an association list with distinct keys, and its laws.
use Prim.Native.Nat.{suc, ◌≤◌, ◌<◌}
use Prim.Native.String.{String}
use mathlib.Core.Path.{◌≡◌, refl, subst}
use mathlib.Core.Logic.{◌≢◌, inl, inr}
use mathlib.Core.Bool.{Bool, true, false}
use mathlib.Core.List.{List, [], ◌∷◌}
use mathlib.Core.Option.{Option, none, some}
use native.Mathlib.Omega.{arith}
use text.Mathlib.TextEquality.{eq_iff}
use m365_copilot2api_dsm.Prelude.Tests.{str_eq, if◌then◌else◌, Bool-cases}
use m365_copilot2api_dsm.Prelude.Lists.{length}

abbrev pub Dict {ℓ} : Type ℓ → Type ℓ
Dict V = List (String × V)

-- The zero value that Go gives for a missing key.
abbrev pub value_or {ℓ} : {V : Type ℓ} → V → Option V → V
value_or d none = d
value_or d (some v) = v

abbrev pub is_some {ℓ} : {V : Type ℓ} → Option V → Bool
is_some none = false
is_some (some v) = true

module _ {ℓ} {V : Type ℓ} where
  unfoldable pub lookup : String → Dict V → Option V
  lookup key [] = none
  lookup key ((k, held) ∷ rest) = if str_eq k key then some held else lookup key rest

  unfoldable pub delete : String → Dict V → Dict V
  delete key [] = []
  delete key ((k, held) ∷ rest) =
      let others = delete key rest in if str_eq k key then others else (k, held) ∷ others

  unfoldable pub insert : String → V → Dict V → Dict V
  insert key value [] = (key, value) ∷ []
  insert key value ((k, held) ∷ rest) =
      if str_eq k key then (key, value) ∷ rest else (k, held) ∷ insert key value rest

  pub lookup-empty : (key : String) → lookup key [] ≡ none
  unfolding lookup
  lookup-empty key = refl

  pub lookup-delete :
      (key asked : String) (d : Dict V)
      → lookup asked (delete key d) ≡ (if str_eq key asked then none else lookup asked d)
  unfolding lookup delete
  lookup-delete key asked [] = ground arith
  lookup-delete key asked ((k, held) ∷ rest) =
      ground (arith, lookup-delete key asked rest, eq_iff key asked, eq_iff k asked, eq_iff k key)

  pub lookup-insert :
      (key asked : String) (value : V) (d : Dict V)
      → lookup asked (insert key value d)
        ≡ (if str_eq key asked then some value else lookup asked d)
  unfolding lookup insert
  lookup-insert key asked value [] = refl
  lookup-insert key asked value ((k, held) ∷ rest) =
      ground
        (arith, lookup-insert key asked value rest, eq_iff key asked, eq_iff k asked, eq_iff k key)

  pub length-delete-le : (k : String) (m : Dict V) → length (delete k m) ≤ length m
  unfolding delete
  length-delete-le k [] = omega arith
  length-delete-le k ((j, w) ∷ m) = ground (arith, length-delete-le k m)

  -- Deleting a key that is present shrinks the map.
  pub length-delete-lt :
      (k : String) (m : Dict V) → lookup k m ≢ none → length (delete k m) < length m
  unfolding delete lookup
  length-delete-lt k [] h = absurd (h refl)
  length-delete-lt k ((j, w) ∷ m) h = ground (arith, length-delete-le k m, length-delete-lt k m)

  pub length-insert-le : (k : String) (v : V) (m : Dict V) → length (insert k v m) ≤ suc (length m)
  unfolding insert
  length-insert-le k v [] = omega arith
  length-insert-le k v ((j, w) ∷ m) = ground (arith, length-insert-le k v m)

  -- Writing a key that is present keeps the size.
  pub length-insert_old :
      (k : String) (v : V) (m : Dict V) → lookup k m ≢ none → length (insert k v m) ≡ length m
  unfolding insert lookup
  length-insert_old k v [] h = absurd (h refl)
  length-insert_old k v ((j, w) ∷ m) h = ground (arith, length-insert_old k v m)

  -- No key stands twice: every Go map.
  abbrev pub Distinct : Dict V → Type ℓ
  Distinct [] = Unit {ℓ}
  Distinct ((k, held) ∷ rest) = (lookup k rest ≡ none) × Distinct rest

  pub delete-Distinct : (key : String) (d : Dict V) → Distinct d → Distinct (delete key d)
  unfolding delete
  delete-Distinct key [] h = tt
  delete-Distinct key ((k, held) ∷ rest) h =
      ground (arith, h, delete-Distinct key rest h.1, lookup-delete key k rest)

  pub insert-Distinct :
      (key : String) (value : V) (d : Dict V) → Distinct d → Distinct (insert key value d)
  unfolding insert
  insert-Distinct key value [] h = (lookup-empty key, tt)
  insert-Distinct key value ((k, held) ∷ rest) h = elim (Bool-cases (str_eq k key)) [
    | inl q ↦ rw q (subst (λ x. lookup x rest ≡ none) ((eq_iff k key).0 q) h.0, h.1)
    | inr q ↦ rw q (
      ground (arith, q, h.0, lookup-insert key k value rest, eq_iff k key, eq_iff key k),
      insert-Distinct key value rest h.1,
    )
  ]
