-- ===== src/Rates/Split.antt =====
-- How borrower interest is divided between lenders and the protocol.
use native.Mathlib.Nat.{mul-le-mul_left}
use democratized_prime_smart.Cosmwasm.{Cosmwasm, IsCosmwasm, decimal_one}
use democratized_prime_smart.Cosmwasm.Laws.{mul_eq, sub_eq}
use democratized_prime_smart.Prelude.{
  >>=-eq-ok, ap, arith, ok, or_err, or_err-eq-ok, overflow_error, ℕ, ◌*◌, ◌+◌, ◌/◌, ◌<◌, ◌≡◌, ◌≤◌,
  ◌⊎◌,
}
use democratized_prime_smart.RateParams.{FeeModel, RateParams, flat_borrow_spread, reserve_factor}
use democratized_prime_smart.Rates.{
  fee_rate, index_growth_factor, lender_rate, lender_rate_from_utilization, protocol_fee_rate,
}

-- the sizes of two truncated products, for the arithmetic of the reserve factor
factor_split :
    (br u rf kept mult lr fr : ℕ)
    → kept + rf ≡ decimal_one
    → mult ≡ u * kept / decimal_one
    → lr ≡ br * mult / decimal_one
    → fr ≡ br * rf / decimal_one
    → (lr * decimal_one + fr * u ≤ br * u)
      × (br * u ≤ lr * decimal_one + fr * u + br + u + decimal_one)
factor_split br u rf kept mult lr fr k m l f =
    let one : br * u * kept + br * u * rf ≡ br * u * decimal_one =
      omega (arith, ap (λ (x : ℕ). br * u * x) k) in
    let mult_lo : mult * decimal_one ≤ u * kept = omega arith in
    let mult_hi : u * kept ≤ mult * decimal_one + decimal_one = omega arith in
    let fr_lo : fr * decimal_one ≤ br * rf = omega arith in
    let fr_hi : br * rf ≤ fr * decimal_one + decimal_one = omega arith in
    let a = mul-le-mul_left br mult_lo in
    let b = mul-le-mul_left br mult_hi in
    let d = mul-le-mul_left u fr_lo in let e = mul-le-mul_left u fr_hi in (omega arith, omega arith)

module _ ⦃c : Cosmwasm⦄ (laws : IsCosmwasm c) where
  -- by the fee model
  lender_rate_split :
      (m : FeeModel) (p : RateParams) (u br : ℕ) {lr fr : ℕ}
      → lender_rate m p u br ≡ ok lr
      → fee_rate m p br ≡ ok fr
      → (lr * decimal_one + fr * u ≤ br * u)
        × (br * u ≤ lr * decimal_one + fr * u + br + u + decimal_one)
  unfolding lender_rate fee_rate
  lender_rate_split reserve_factor p u br hl hf =
      let (kept, ek, h1) =
        >>=-eq-ok (or_err (c.checked_sub decimal_one p.reserve_factor) overflow_error) _ hl in
      let (mult, em, h2) = >>=-eq-ok (or_err (c.checked_mul u kept) overflow_error) _ h1 in
      factor_split br u p.reserve_factor kept mult _ _
        (sub_eq laws decimal_one p.reserve_factor (or_err-eq-ok _ _ ek))
        (mul_eq laws u kept (or_err-eq-ok _ _ em)) (mul_eq laws br mult (or_err-eq-ok _ _ h2))
        (mul_eq laws br p.reserve_factor (or_err-eq-ok _ _ hf))
  lender_rate_split flat_borrow_spread p u br {fr} hl hf =
      let (spread, es, h1) =
        >>=-eq-ok (or_err (c.checked_sub br p.flat_fee_apr) overflow_error) _ hl in
      let s = sub_eq laws br p.flat_fee_apr (or_err-eq-ok _ _ es) in
      let l = mul_eq laws spread u (or_err-eq-ok _ _ h1) in
      let f : p.flat_fee_apr ≡ fr = cc in
      let product = ap (λ (x : ℕ). x * u) s in rw (← f) (omega arith, omega arith)

  -- What lenders earn for each unit of liquidity and the protocol for each unit borrowed, at utilization
  -- `u`, is never more than what borrowers pay, and falls short of it only by the truncations.
  pub interest_split :
      (p : RateParams) (u br : ℕ) {lr fr : ℕ}
      → lender_rate_from_utilization p u br ≡ ok lr
      → protocol_fee_rate p br ≡ ok fr
      → (lr * decimal_one + fr * u ≤ br * u)
        × (br * u ≤ lr * decimal_one + fr * u + br + u + decimal_one)
  unfolding lender_rate_from_utilization protocol_fee_rate
  interest_split p = lender_rate_split p.fee_model p

  -- An index never shrinks: its growth factor is at least one, and exactly one if no time has passed.
  pub growth_factor_bounds :
      (rate elapsed year : ℕ) {g : ℕ}
      → index_growth_factor rate elapsed year ≡ ok g
      → (decimal_one ≤ g) × ((0 < elapsed) ⊎ (g ≡ decimal_one))
  unfolding index_growth_factor
  growth_factor_bounds rate elapsed year h = ground (
    arith,
    laws.from_ratio_law elapsed year,
    laws.mul_law rate (elapsed * decimal_one / year),
    laws.add_law decimal_one (rate * (elapsed * decimal_one / year) / decimal_one),
  )
