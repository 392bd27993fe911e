-- ===== src/Tests/Curves.antt =====
-- The theorems about rates at concrete parameters.
use democratized_prime_smart.Cosmwasm.{decimal_one}
use democratized_prime_smart.Fixtures.{params, reference, reference-IsCosmwasm, value_of}
use democratized_prime_smart.Prelude.{arith, ok, refl, ℕ, ◌*◌, ◌+◌, ◌≡◌, ◌≤◌}
use democratized_prime_smart.RateParams.{validate, validate-IsValid}
use democratized_prime_smart.Rates.{
  borrower_rate_from_utilization, lender_rate_from_utilization, protocol_fee_rate,
}
use democratized_prime_smart.Rates.Curve.{curve, rate_bounds, rate_mono, rate_total}
use democratized_prime_smart.Rates.Split.{interest_split}

params_run : validate params ≡ ok tt
unfolding validate
params_run = refl

abbrev half : ℕ
half = 500_000_000_000_000_000

abbrev half_rate : ℕ
half_rate = value_of 0 (borrower_rate_from_utilization params half)

half_run : borrower_rate_from_utilization params half ≡ ok half_rate
unfolding borrower_rate_from_utilization
half_run = refl

abbrev high_rate : ℕ
high_rate = value_of 0 (borrower_rate_from_utilization params (half + half))

high_run : borrower_rate_from_utilization params (half + half) ≡ ok high_rate
unfolding borrower_rate_from_utilization
high_run = refl

rate_bounds_example : (10_000_000_000_000_000 ≤ half_rate) × (half_rate ≤ 300_000_000_000_000_000)
rate_bounds_example =
    rate_bounds reference-IsCosmwasm params half (validate-IsValid params params_run) half_run

rate_mono_example : half_rate ≤ high_rate
rate_mono_example =
    rate_mono reference-IsCosmwasm params half (half + half) (validate-IsValid params params_run)
      (omega arith) half_run high_run

rate_total_example : borrower_rate_from_utilization params half ≡ ok (curve params half)
rate_total_example =
    rate_total reference-IsCosmwasm params half (validate-IsValid params params_run) (omega arith)

abbrev lenders_rate : ℕ
lenders_rate = value_of 0 (lender_rate_from_utilization params half half_rate)

lenders_rate_run : lender_rate_from_utilization params half half_rate ≡ ok lenders_rate
unfolding lender_rate_from_utilization borrower_rate_from_utilization
lenders_rate_run = refl

abbrev fee : ℕ
fee = value_of 0 (protocol_fee_rate params half_rate)

fee_run : protocol_fee_rate params half_rate ≡ ok fee
unfolding protocol_fee_rate borrower_rate_from_utilization
fee_run = refl

interest_split_example :
    (lenders_rate * decimal_one + fee * half ≤ half_rate * half)
    × (half_rate * half ≤ lenders_rate * decimal_one + fee * half + half_rate + half + decimal_one)
interest_split_example =
    interest_split reference-IsCosmwasm params half half_rate lenders_rate_run fee_run
