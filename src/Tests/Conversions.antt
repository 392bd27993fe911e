-- ===== src/Tests/Conversions.antt =====
-- The theorems about conversions and haircuts at concrete values.
use democratized_prime_smart.Cosmwasm.{decimal_one}
use democratized_prime_smart.Fixtures.{reference, reference-IsCosmwasm, reserve, value_of}
use democratized_prime_smart.Haircut.{apply_pro_rata_liquidity_index_haircut}
use democratized_prime_smart.Haircut.Loss.{claims, haircut_refused, haircut_takes_loss}
use democratized_prime_smart.Prelude.{
  [], arith, err, if◌then◌else◌, illegal_state, leb, ok, refl, ℕ, ◌*◌, ◌+◌, ◌-◌, ◌<◌, ◌∷◌, ◌≡◌, ◌≢◌,
  ◌≤◌,
}
use democratized_prime_smart.Reserve.{ReserveState, total_liquidity}
use democratized_prime_smart.Scaling.{
  scaled_to_underlying_borrow, scaled_to_underlying_borrow_ceil, scaled_to_underlying_liquidity,
  underlying_to_scaled_borrow_ceil, underlying_to_scaled_liquidity,
}
use democratized_prime_smart.Scaling.Rounding.{
  borrow_falls_short, borrow_shortfall, lend_rounds_down, payoffs_cover_total,
}

abbrev index : ℕ
index = 1_100_000_000_000_000_001

three_run : scaled_to_underlying_borrow_ceil 3 index ≡ ok 4
unfolding scaled_to_underlying_borrow_ceil
three_run = refl

five_run : scaled_to_underlying_borrow_ceil 5 index ≡ ok 6
unfolding scaled_to_underlying_borrow_ceil
five_run = refl

eight_run : scaled_to_underlying_borrow 8 index ≡ ok 8
unfolding scaled_to_underlying_borrow
eight_run = refl

payoffs_cover_total_example : 8 ≤ 10
payoffs_cover_total_example =
    payoffs_cover_total reference-IsCosmwasm index ((3, 4) ∷ (5, 6) ∷ [])
      (three_run, (five_run, tt)) eight_run

minted_run : underlying_to_scaled_liquidity 100 index ≡ ok 90
unfolding underlying_to_scaled_liquidity
minted_run = refl

worth_run : scaled_to_underlying_liquidity 90 index ≡ ok 99
unfolding scaled_to_underlying_liquidity
worth_run = refl

lend_rounds_down_example : (99 ≤ 100) × (100 * decimal_one < 91 * index)
lend_rounds_down_example = lend_rounds_down reference-IsCosmwasm 100 index minted_run worth_run

-- A debt recorded one unit short: the index is one and 10^-18.
short_run : underlying_to_scaled_borrow_ceil decimal_one (decimal_one + 1) ≡ ok (decimal_one - 1)
unfolding underlying_to_scaled_borrow_ceil
short_run = refl

short_debt_run :
    scaled_to_underlying_borrow (decimal_one - 1) (decimal_one + 1) ≡ ok (decimal_one - 1)
unfolding scaled_to_underlying_borrow
short_debt_run = refl

borrow_falls_short_example :
    (decimal_one - 1 ≡ decimal_one - 1) × (decimal_one - 1 + 1 ≡ decimal_one)
borrow_falls_short_example =
    borrow_falls_short reference-IsCosmwasm (decimal_one - 1) decimal_one (decimal_one + 1) refl
      (omega arith) short_run short_debt_run

borrow_shortfall_example :
    (decimal_one ≤ decimal_one - 1 + (if leb (decimal_one + 1) decimal_one then 0 else 1))
    × ((decimal_one - 1) * (decimal_one + 1) < decimal_one * decimal_one + (decimal_one + 1))
borrow_shortfall_example =
    borrow_shortfall reference-IsCosmwasm decimal_one (decimal_one + 1) short_run short_debt_run
      (omega arith)

abbrev cut : ReserveState
cut = value_of reserve (apply_pro_rata_liquidity_index_haircut reserve 1_000)

cut_run : apply_pro_rata_liquidity_index_haircut reserve 1_000 ≡ ok cut
unfolding apply_pro_rata_liquidity_index_haircut total_liquidity
cut_run = refl

haircut_takes_loss_example :
    (cut ≡ record reserve { liquidity_index = cut.liquidity_index })
    × (cut.liquidity_index ≢ 0)
    × (claims cut + 1_000 * decimal_one ≤ claims reserve)
    × (claims reserve < claims cut + 1_000 * decimal_one + 1_000_000)
haircut_takes_loss_example =
    haircut_takes_loss reference-IsCosmwasm reserve 1_000 (omega arith) (omega arith) cut_run

haircut_refused_example :
    apply_pro_rata_liquidity_index_haircut reserve 2_000_000 ≡ err illegal_state
haircut_refused_example =
    haircut_refused reference-IsCosmwasm reserve 2_000_000 (omega arith) (omega arith) (omega arith)
      (omega arith) (omega arith)
