-- ===== src/Reserve.antt =====
-- The state of the reserve: contracts/pool_v2/src/model/reserve.rs. Indexes are `Decimal256` atomics,
-- amounts are base units of the lending denom, times are nanoseconds.
use democratized_prime_smart.Cosmwasm.{Cosmwasm}
use democratized_prime_smart.Prelude.{
  Result, checked_from_ratio, get_or, if◌then◌else◌, ok, or_err, overflow_error, panicked, ℕ, ◌==◌,
  ◌>>=◌,
}

pub record ReserveState : Type 0 where
  pub liquidity_index : ℕ
  pub borrow_index : ℕ
  pub last_updated_at : ℕ
  pub total_scaled_liquidity : ℕ
  pub total_scaled_borrow : ℕ
  pub accrued_reserve : ℕ
  pub deficit_underlying : ℕ

module _ ⦃c : Cosmwasm⦄ where
  open c use {from_atomics, from_ratio, checked_mul, checked_div, saturating_sub}

  unfoldable pub total_liquidity : ReserveState → Result ℕ
  total_liquidity r =
      let scaled = get_or 0 (from_atomics r.total_scaled_liquidity 0) in
      or_err (checked_mul scaled r.liquidity_index) overflow_error

  unfoldable pub total_borrow : ReserveState → Result ℕ
  total_borrow r =
      let scaled = get_or 0 (from_atomics r.total_scaled_borrow 0) in
      or_err (checked_mul scaled r.borrow_index) overflow_error

  unfoldable pub cash : ReserveState → Result ℕ
  cash r = do
    deficit ← or_err (from_ratio r.deficit_underlying 1) panicked
    liquidity ← total_liquidity r
    borrow ← total_borrow r
    ok (saturating_sub (saturating_sub liquidity borrow) deficit)

  unfoldable pub utilization : ReserveState → Result ℕ
  utilization r = do
    liquidity ← total_liquidity r
    if liquidity == 0
        then ok 0
        else (do borrow ← total_borrow r; or_err (checked_div borrow liquidity) checked_from_ratio)
