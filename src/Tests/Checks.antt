-- ===== src/Tests/Checks.antt =====
-- The theorems about prices, health, funds and permissions at concrete values.
use democratized_prime_smart.Cosmwasm.{decimal_one}
use democratized_prime_smart.Fixtures.{contract, price, reference, reference-IsCosmwasm, value_of}
use democratized_prime_smart.Health.{
  calculate_borrow_value_usd, calculate_ltv, calculate_total_collateral_value_usd,
  get_health_from_ltv, haircut_percentage, validate_borrower_is_healthy,
}
use democratized_prime_smart.Health.Bounds.{healthy_iff, ltv_within}
use democratized_prime_smart.Host.{AssetPrice}
use democratized_prime_smart.Map.{Map}
use democratized_prime_smart.Prelude.{[], arith, ok, refl, ℕ, ◌*◌, ◌+◌, ◌<◌, ◌↔◌, ◌∷◌, ◌≡◌, ◌≤◌}
use democratized_prime_smart.Price.{amount_from_usd_haircutted, value_usd}
use democratized_prime_smart.Price.Inverse.{haircutted_amount_least}

abbrev seized : ℕ
seized = value_of 0 (amount_from_usd_haircutted price 1_000_000_000_001 900_000_000_000_000_000)

seized_run : amount_from_usd_haircutted price 1_000_000_000_001 900_000_000_000_000_000 ≡ ok seized
unfolding amount_from_usd_haircutted
seized_run = refl

two_run : value_usd price 2 ≡ ok 2_000_000_000_000
unfolding value_usd
two_run = refl

haircutted_amount_least_example : (seized ≤ 2) ↔ (1_000_000_000_001 ≤ 1_800_000_000_000)
haircutted_amount_least_example =
    haircutted_amount_least reference-IsCosmwasm price 1_000_000_000_001 900_000_000_000_000_000 2
      (omega arith) seized_run two_run refl

abbrev quotes : Map AssetPrice
quotes = (1, price) ∷ (2, price) ∷ []

borrow_value_run : calculate_borrow_value_usd 700_000 1 quotes ≡ ok 700_000_000_000_000_000
unfolding calculate_borrow_value_usd value_usd
borrow_value_run = refl

collateral_value_run :
    calculate_total_collateral_value_usd
      ((2, 1_000_000) ∷ [])
      quotes
      contract.supported_collateral_assets
    ≡ ok 900_000_000_000_000_000
unfolding calculate_total_collateral_value_usd value_usd haircut_percentage
collateral_value_run = refl

ltv_run :
    calculate_ltv contract contract.supported_collateral_assets quotes ((2, 1_000_000) ∷ []) 700_000
    ≡ ok 777_777_777_777_777_777
unfolding calculate_ltv calculate_borrow_value_usd calculate_total_collateral_value_usd value_usd
    haircut_percentage
ltv_run = refl

ltv_within_example :
    700_000_000_000_000_000 * decimal_one
    ≤ 800_000_000_000_000_000 * 900_000_000_000_000_000 + 900_000_000_000_000_000
ltv_within_example =
    ltv_within reference-IsCosmwasm contract contract.supported_collateral_assets quotes
      ((2, 1_000_000) ∷ []) 700_000 800_000_000_000_000_000 borrow_value_run collateral_value_run
      ltv_run (omega arith) (omega arith)

abbrev half : ℕ
half = 500_000_000_000_000_000

healthy_iff_example :
    (validate_borrower_is_healthy (get_health_from_ltv contract half) half contract ≡ ok tt)
    ↔ ((half < 900_000_000_000_000_000) × (half ≤ 800_000_000_000_000_000))
healthy_iff_example = healthy_iff contract half
