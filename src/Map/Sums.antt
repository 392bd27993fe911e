-- ===== src/Map/Sums.antt =====
-- Sums over a map, and what an update does to them and to the other entries.
use democratized_prime_smart.Map
use democratized_prime_smart.Map.{Map}
use democratized_prime_smart.Prelude.{
  [], arith, if◌then◌else◌, none, refl, some, ℕ, ◌+◌, ◌<◌, ◌==◌, ◌∷◌, ◌≡◌, ◌≤◌,
}

abbrev pub sum : Map ℕ → ℕ
sum [] = 0
sum ((_, v) ∷ m) = v + sum m

-- Keys stand in rising order, above `low`.
abbrev pub IsSortedAbove {ℓ} : {V : Type ℓ} → ℕ → Map V → Type 0
IsSortedAbove low [] = Unit
IsSortedAbove low ((k, _) ∷ m) = (low ≤ k) × IsSortedAbove (k + 1) m

pub sum-insert : (k v : ℕ) (m : Map ℕ) → sum (Map.insert k v m) + Map.get k m ≡ sum m + v
sum-insert k v [] = omega arith
sum-insert k v ((j, w) ∷ m) = ground (arith, sum-insert k v m)

pub sum-remove : (k : ℕ) (m : Map ℕ) → sum (Map.remove k m) + Map.get k m ≡ sum m
sum-remove k [] = omega arith
sum-remove k ((j, w) ∷ m) = ground (arith, sum-remove k m)

pub sum-store : (k v : ℕ) (m : Map ℕ) → sum (Map.store k v m) + Map.get k m ≡ sum m + v
sum-store k v m = ground (arith, sum-insert k v m, sum-remove k m)

pub get-le-sum : (k : ℕ) (m : Map ℕ) → Map.get k m ≤ sum m
get-le-sum k [] = omega arith
get-le-sum k ((j, w) ∷ m) = ground (arith, get-le-sum k m)

module _ {ℓ} {V : Type ℓ} where
  pub lookup-insert :
      (k j : ℕ) (v : V) (m : Map V)
      → Map.lookup j (Map.insert k v m) ≡ (if j == k then some v else Map.lookup j m)
  lookup-insert k j v [] = ground arith
  lookup-insert k j v ((i, w) ∷ m) = ground (arith, lookup-insert k j v m)

  lookup-below : (k low : ℕ) (m : Map V) → k < low → IsSortedAbove low m → Map.lookup k m ≡ none
  lookup-below k low [] h s = refl
  lookup-below k low ((i, w) ∷ m) h s = ground arith

  pub lookup-remove :
      (k j low : ℕ) (m : Map V)
      → IsSortedAbove low m
      → Map.lookup j (Map.remove k m) ≡ (if j == k then none else Map.lookup j m)
  lookup-remove k j low [] s = ground arith
  lookup-remove k j low ((i, w) ∷ m) s =
      ground (arith, lookup-remove k j (i + 1) m s.1, lookup-below j (i + 1) m)

  pub insert-IsSortedAbove :
      (k low : ℕ) (v : V) (m : Map V)
      → low ≤ k
      → IsSortedAbove low m
      → IsSortedAbove low (Map.insert k v m)
  insert-IsSortedAbove k low v [] h s = omega arith
  insert-IsSortedAbove k low v ((i, w) ∷ m) h s = ground (arith, insert-IsSortedAbove k (i + 1) v m)

  pub weaken : (low high : ℕ) (m : Map V) → low ≤ high → IsSortedAbove high m → IsSortedAbove low m
  weaken low high [] h s = tt
  weaken low high ((i, w) ∷ m) h s = ground arith

  pub remove-IsSortedAbove :
      (k low : ℕ) (m : Map V) → IsSortedAbove low m → IsSortedAbove low (Map.remove k m)
  remove-IsSortedAbove k low [] s = tt
  remove-IsSortedAbove k low ((i, w) ∷ m) s =
      ground (arith, remove-IsSortedAbove k (i + 1) m s.1, weaken low (i + 1) m)

pub get-store :
    (k v j low : ℕ) (m : Map ℕ)
    → IsSortedAbove low m
    → Map.get j (Map.store k v m) ≡ (if j == k then v else Map.get j m)
get-store k v j low m s = ground (arith, lookup-insert k j v m, lookup-remove k j low m s)

pub store-IsSortedAbove :
    (k v : ℕ) (m : Map ℕ) → IsSortedAbove 0 m → IsSortedAbove 0 (Map.store k v m)
store-IsSortedAbove k v m s =
    ground (arith, insert-IsSortedAbove k 0 v m, remove-IsSortedAbove k 0 m s)

pub get-insert :
    (k v j : ℕ) (m : Map ℕ) → Map.get j (Map.insert k v m) ≡ (if j == k then v else Map.get j m)
get-insert k v j m = ground (arith, lookup-insert k j v m)
