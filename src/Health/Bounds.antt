-- ===== src/Health/Bounds.antt =====
-- What the health of a borrower says of its loan-to-value ratio, and that of its debt and collateral.
use native.Mathlib.Nat.{mul-le-mul_right, lt-div-mul-add}
use democratized_prime_smart.Contract.{CollateralAsset, ContractState}
use democratized_prime_smart.Cosmwasm.{Cosmwasm, IsCosmwasm, decimal_one}
use democratized_prime_smart.Cosmwasm.Laws.{div_eq}
use democratized_prime_smart.Health.{
  calculate_borrow_value_usd, calculate_ltv, calculate_total_collateral_value_usd,
  get_health_from_ltv, validate_borrower_is_healthy,
}
use democratized_prime_smart.Host.{AssetPrice}
use democratized_prime_smart.Map.{Map}
use democratized_prime_smart.Prelude.{
  Ensures, Ensures-if, Ensures-ok, List, arith, checked_from_ratio, inl, inr, ok, or_err-eq-ok, ℕ,
  ◌&&◌, ◌*◌, ◌+◌, ◌/◌, ◌<◌, ◌==◌, ◌↔◌, ◌≡◌, ◌≢◌, ◌≤◌, ◌⊎◌,
}

module _ ⦃c : Cosmwasm⦄ where
  -- The check of a borrower's health passes exactly below the liquidation rate and within the margin rate.
  pub healthy_iff :
      (contract : ContractState) (ltv : ℕ)
      → (validate_borrower_is_healthy (get_health_from_ltv contract ltv) ltv contract ≡ ok tt)
        ↔ ((ltv < contract.liquidation_rate) × (ltv ≤ contract.margin_rate))
  unfolding validate_borrower_is_healthy get_health_from_ltv
  healthy_iff contract ltv = ground arith

module _ ⦃c : Cosmwasm⦄ (laws : IsCosmwasm c) where
  ltv_bounds : (b v m : ℕ) → v ≢ 0 → b * decimal_one / v ≤ m → b * decimal_one ≤ m * v + v
  ltv_bounds b v m ne h =
      omega
        (arith, mul-le-mul_right v h, lt-div-mul-add {a = b * decimal_one} {b = v} (omega arith))

  ltv_eq :
      (contract : ContractState) (assets : List CollateralAsset) (prices : Map AssetPrice)
      (collateral : Map ℕ) (debt : ℕ) {b v : ℕ}
      → calculate_borrow_value_usd debt contract.lending_denom.name prices ≡ ok b
      → calculate_total_collateral_value_usd collateral prices assets ≡ ok v
      → Ensures
          (λ ltv.
            ((v ≡ 0) × (b ≡ 0))
            ⊎ ((v ≡ 0) × (ltv ≡ decimal_one))
            ⊎ ((v ≢ 0) × (ltv ≡ b * decimal_one / v)))
          (calculate_ltv contract assets prices collateral debt)
  unfolding calculate_ltv
  ltv_eq contract assets prices collateral debt {b} {v} eb ev =
      rw (eb, ev)
        (Ensures-if (b == 0 && v == 0) _ _ (λ h. Ensures-ok 0 (inl (ground arith)))
          λ h.
            Ensures-if (v == 0) _ _ (λ z. Ensures-ok decimal_one (inr (inl (ground arith))))
              λ z. record {
                at = λ ltv e. inr (
                    inr (
                      ground arith,
                      div_eq laws b v (or_err-eq-ok (c.checked_div b v) checked_from_ratio e),
                    ));
              })

  -- A loan-to-value ratio within a rate below one bounds the debt by the haircutted collateral: the value of
  -- the debt is at most the rate, and one atomic, times the value of the collateral.
  pub ltv_within :
      (contract : ContractState) (assets : List CollateralAsset) (prices : Map AssetPrice)
      (collateral : Map ℕ) (debt m : ℕ) {b v ltv : ℕ}
      → calculate_borrow_value_usd debt contract.lending_denom.name prices ≡ ok b
      → calculate_total_collateral_value_usd collateral prices assets ≡ ok v
      → calculate_ltv contract assets prices collateral debt ≡ ok ltv
      → ltv ≤ m
      → m < decimal_one
      → b * decimal_one ≤ m * v + v
  ltv_within contract assets prices collateral debt m {b} {v} {ltv} eb ev el le small =
      elim ((ltv_eq contract assets prices collateral debt eb ev).at ltv el) [
        | inl (z, nothing) ↦ omega arith
        | inr (inl (z, full)) ↦ omega arith
        | inr (inr (ne, e)) ↦ ltv_bounds b v m ne (rw e at le)
      ]
