-- ===== src/DirectedSale/Offers.antt =====
-- What a fill leaves of an offer: `is_seize_within_offer` and `subtract_seize` of
-- contracts/pool_v2/src/model/directed_sale.rs.
use democratized_prime_smart.Map
use democratized_prime_smart.Collateral.{coins_of}
use democratized_prime_smart.Collateral.Totals.{amount_of, amount_of-below, amount_of-coins_of}
use democratized_prime_smart.DirectedSale.{
  all_within, is_seize_within_offer, normalize_seize_map, subtract_all, subtract_seize,
}
use democratized_prime_smart.Map.{Map}
use democratized_prime_smart.Map.Sums.{IsSortedAbove, get-store, store-IsSortedAbove, weaken}
use democratized_prime_smart.Prelude.{
  Option-cases, [], arith, inl, inr, refl, true, ℕ, ◌+◌, ◌-◌, ◌∷◌, ◌≡◌, ◌≤◌,
}

pub amount_of-normalize_seize_map :
    (asset : ℕ) (m : Map ℕ)
    → amount_of asset (coins_of (normalize_seize_map m)) ≡ amount_of asset (coins_of m)
unfolding normalize_seize_map
amount_of-normalize_seize_map asset [] = refl
amount_of-normalize_seize_map asset ((k, v) ∷ m) =
    ground (arith, amount_of-normalize_seize_map asset m)

normalize_seize_map-IsSortedAbove :
    (low : ℕ) (m : Map ℕ) → IsSortedAbove low m → IsSortedAbove low (normalize_seize_map m)
unfolding normalize_seize_map
normalize_seize_map-IsSortedAbove low [] s = tt
normalize_seize_map-IsSortedAbove low ((j, v) ∷ m) s = ground (
  arith,
  normalize_seize_map-IsSortedAbove (j + 1) m s.1,
  weaken low (j + 1) (normalize_seize_map m),
)

subtract_all_eq :
    (k : ℕ) (remaining seize : Map ℕ)
    → IsSortedAbove 0 remaining
    → Map.get k (subtract_all remaining seize) ≡ Map.get k remaining - amount_of k (coins_of seize)
unfolding subtract_all
subtract_all_eq k remaining [] s = omega arith
subtract_all_eq k remaining ((j, amount) ∷ seize) s = elim (Option-cases (Map.lookup j remaining)) [
  | inl missing ↦ ground (arith, subtract_all_eq k remaining seize s)
  | inr (have, held_eq) ↦ ground (
    arith,
    subtract_all_eq k (Map.store j (have - amount) remaining) seize
        (store-IsSortedAbove j (have - amount) remaining s),
    get-store j (have - amount) k 0 remaining s,
  )
]

all_within_le :
    (offer seize : Map ℕ) (k low : ℕ)
    → IsSortedAbove low seize
    → all_within offer seize ≡ true
    → amount_of k (coins_of seize) ≤ Map.get k offer
unfolding all_within
all_within_le offer [] k low s h = omega arith
all_within_le offer ((j, amount) ∷ seize) k low s h = elim (Option-cases (Map.lookup j offer)) [
  | inl missing ↦ ground arith
  | inr (have, held_eq) ↦
      ground (arith, all_within_le offer seize k (j + 1) s.1, amount_of-below k (j + 1) seize)
]

-- A fill of an offer leaves of every asset just what was offered less what is seized, if the maps stand by
-- rising asset and the seizure is within the offer.
pub fill_shrinks_offer :
    (offer seize : Map ℕ) (k : ℕ)
    → IsSortedAbove 0 offer
    → IsSortedAbove 0 seize
    → is_seize_within_offer offer seize ≡ true
    → Map.get k (subtract_seize offer seize) + Map.get k seize ≡ Map.get k offer
unfolding subtract_seize is_seize_within_offer
fill_shrinks_offer offer seize k so ss h =
    let seize' = normalize_seize_map seize in
    let within : all_within offer seize' ≡ true = ground arith in
    omega (
      arith,
      subtract_all_eq k offer seize' so,
      all_within_le offer seize' k 0 (normalize_seize_map-IsSortedAbove 0 seize ss) within,
      amount_of-normalize_seize_map k seize,
      amount_of-coins_of k 0 seize ss,
    )
