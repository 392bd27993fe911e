-- ===== src/Map.antt =====
-- Ordered maps with keys that are naturals: `BTreeMap`, and a storage map of the contracts. Entries
-- stand by rising key.
pub mod Sums
use democratized_prime_smart.Prelude.{
  Bool, List, Option, [], false, get_or, if◌then◌else◌, ltb, none, some, true, ℕ, ◌==◌, ◌∷◌,
}

abbrev pub Map {ℓ} : Type ℓ → Type ℓ
Map V = List (ℕ × V)

module _ {ℓ} {V : Type ℓ} where
  abbrev pub lookup : ℕ → Map V → Option V
  lookup k [] = none
  lookup k ((j, v) ∷ m) = if ltb k j then none else if k == j then some v else lookup k m

  abbrev pub contains : ℕ → Map V → Bool
  contains k m = elim (lookup k m) [ none ↦ false | some _ ↦ true ]

  abbrev pub insert : ℕ → V → Map V → Map V
  insert k v [] = (k, v) ∷ []
  insert k v ((j, w) ∷ m) =
      if ltb k j then (k, v) ∷ (j, w) ∷ m else if k == j then (k, v) ∷ m else (j, w) ∷ insert k v m

  abbrev pub remove : ℕ → Map V → Map V
  remove k [] = []
  remove k ((j, w) ∷ m) = if ltb k j then (j, w) ∷ m else if k == j then m else (j, w) ∷ remove k m

  abbrev pub is_empty : Map V → Bool
  is_empty [] = true
  is_empty (_ ∷ _) = false

-- `get(k).unwrap_or(0)`
abbrev pub get : ℕ → Map ℕ → ℕ
get k m = get_or 0 (lookup k m)

-- An amount is stored unless it is zero; a zero removes the entry.
abbrev pub store : ℕ → ℕ → Map ℕ → Map ℕ
store k v m = if v == 0 then remove k m else insert k v m
