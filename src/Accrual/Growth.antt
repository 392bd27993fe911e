-- ===== src/Accrual/Growth.antt =====
-- What accrual changes, and in which direction.
use democratized_prime_smart.U128
use native.Mathlib.Nat.{mul-le-mul_left}
use democratized_prime_smart.Accrual.{accrue, compute_effective_reserve, fee_of, utilization_of}
use democratized_prime_smart.Cosmwasm.{Cosmwasm, IsCosmwasm, decimal_one, u128_size}
use democratized_prime_smart.Cosmwasm.Laws.{mul_eq}
use democratized_prime_smart.Prelude.{
  Bool-cases, Ensures, Ensures->>=, Ensures-ok, Ensures-or_err, arith, inl, inr, ok, refl, some, ℕ,
  ◌*◌, ◌/◌, ◌<◌, ◌==◌, ◌≡◌, ◌≤◌,
}
use democratized_prime_smart.RateParams.{RateParams, seconds_per_year}
use democratized_prime_smart.Rates.{
  borrower_rate_from_utilization, index_growth_factor, lender_rate_from_utilization,
  time_elapsed_seconds,
}
use democratized_prime_smart.Rates.Split.{growth_factor_bounds}
use democratized_prime_smart.Reserve.{ReserveState, total_borrow, total_liquidity}

-- The later state of the reserve: indexes and the booked reserve have not shrunk, and scaled totals and
-- the deficit are as before.
pub record Grows (r r' : ReserveState) : Type 0 where
  pub liquidity_index_le : r.liquidity_index ≤ r'.liquidity_index
  pub borrow_index_le : r.borrow_index ≤ r'.borrow_index
  pub accrued_reserve_le : r.accrued_reserve ≤ r'.accrued_reserve
  pub accrued_reserve_bound : r'.accrued_reserve < u128_size
  pub same_scaled_liquidity : r'.total_scaled_liquidity ≡ r.total_scaled_liquidity
  pub same_scaled_borrow : r'.total_scaled_borrow ≡ r.total_scaled_borrow
  pub same_deficit : r'.deficit_underlying ≡ r.deficit_underlying

grown : (i f : ℕ) → decimal_one ≤ f → i ≤ i * f / decimal_one
grown i f h = omega (arith, mul-le-mul_left i h)

-- the state that an accrual writes
abbrev advance : ReserveState → ℕ → ℕ → ℕ → ℕ → ReserveState
advance r t li bi fee = record r {
  liquidity_index = li;
  borrow_index = bi;
  last_updated_at = t;
  accrued_reserve = U128.saturating_add r.accrued_reserve fee;
}

advance-Grows :
    (r : ReserveState) (t li bi fee : ℕ)
    → r.accrued_reserve < u128_size
    → r.liquidity_index ≤ li
    → r.borrow_index ≤ bi
    → Grows r (advance r t li bi fee) × (t ≡ t)
advance-Grows r t li bi fee small l b = (ground arith, refl)

module _ ⦃c : Cosmwasm⦄ (laws : IsCosmwasm c) where
  grown_index :
      (i rate elapsed year : ℕ) {f j : ℕ}
      → index_growth_factor rate elapsed year ≡ ok f
      → c.checked_mul i f ≡ some j
      → i ≤ j
  grown_index i rate elapsed year {f} hf hj =
      rw (mul_eq laws i f hj) (grown i f (growth_factor_bounds laws rate elapsed year hf).0)

  accrue-Grows :
      (r : ReserveState) (t : ℕ) (p : RateParams) (elapsed : ℕ)
      → r.accrued_reserve < u128_size
      → Ensures (λ r'. Grows r r' × (r'.last_updated_at ≡ t)) (accrue r t p elapsed)
  unfolding accrue
  accrue-Grows r t p elapsed small = Ensures->>= (total_liquidity r) _ λ liquidity _.
      Ensures->>= (total_borrow r) _ λ before _.
        Ensures->>= (utilization_of liquidity before) _ λ u _.
          Ensures->>= (borrower_rate_from_utilization p u) _ λ br _.
            Ensures->>= (lender_rate_from_utilization p u br) _ λ lr _.
              Ensures->>= (index_growth_factor lr elapsed seconds_per_year) _ λ lf el.
                Ensures->>= (index_growth_factor br elapsed seconds_per_year) _ λ bf eb.
                  Ensures-or_err (c.checked_mul r.liquidity_index lf) _ _ λ li eli.
                    Ensures-or_err (c.checked_mul r.borrow_index bf) _ _ λ bi ebi.
                      Ensures->>= (fee_of p before br elapsed) _ λ fee _.
                        Ensures-ok (advance r t li bi fee) (
                          advance-Grows r t li bi fee small
                            (grown_index r.liquidity_index lr elapsed seconds_per_year el eli)
                            (grown_index r.borrow_index br elapsed seconds_per_year eb ebi))

  -- Accrual never lowers an index or the booked reserve, and leaves the scaled totals and the deficit as
  -- they are.
  pub accrual-Grows :
      (r : ReserveState) (t : ℕ) (p : RateParams) {r' : ReserveState}
      → r.accrued_reserve < u128_size
      → compute_effective_reserve r t p ≡ ok r'
      → Grows r r'
  unfolding compute_effective_reserve
  accrual-Grows r t p {r'} small h =
      let elapsed = time_elapsed_seconds r.last_updated_at t in
      elim (Bool-cases (elapsed == 0)) [
        | inl still ↦ let same : r ≡ r' = ground arith in rw (← same) (ground arith)
        | inr moved ↦ ((accrue-Grows r t p elapsed small).at r' (rw moved at h)).0
      ]

  -- A second accrual at the same time changes nothing.
  pub accrual_idempotent :
      (r : ReserveState) (t : ℕ) (p : RateParams) {r' : ReserveState}
      → r.accrued_reserve < u128_size
      → compute_effective_reserve r t p ≡ ok r'
      → compute_effective_reserve r' t p ≡ ok r'
  unfolding compute_effective_reserve time_elapsed_seconds
  accrual_idempotent r t p {r'} small h =
      let elapsed = time_elapsed_seconds r.last_updated_at t in
      elim (Bool-cases (elapsed == 0)) [
        | inl still ↦ let same : r ≡ r' = ground arith in rw (← same) (rw still)
        | inr moved ↦
            let now = ((accrue-Grows r t p elapsed small).at r' (rw moved at h)).1 in ground arith
      ]
