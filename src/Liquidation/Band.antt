-- ===== src/Liquidation/Band.antt =====
-- What the checks of a seizure establish: sections 6 to 7b of `liquidate` in
-- contracts/pool_v2/src/execute/liquidate.rs.
use democratized_prime_smart.Map
use democratized_prime_smart.Borrowing.{repay}
use democratized_prime_smart.Collateral.{coins_of, is_supported}
use democratized_prime_smart.Collateral.Totals.{amount_of}
use democratized_prime_smart.Contract.{CollateralAsset, ContractState}
use democratized_prime_smart.Cosmwasm.{Cosmwasm, IsCosmwasm, decimal_one}
use democratized_prime_smart.Cosmwasm.Laws.{mul_eq}
use democratized_prime_smart.DirectedSale.{normalize_seize_map}
use democratized_prime_smart.Health.{
  calculate_ltv, calculate_total_collateral_value_usd, get_borrower_health, get_health_from_ltv,
  is_healthy,
}
use democratized_prime_smart.Host.{AssetPrice, Host, MessageInfo}
use democratized_prime_smart.Liquidation.Payment.{Payment, Position}
use democratized_prime_smart.Liquidation.Seizure.{
  Seizure, check_post_state, check_seizure, dry_run, holds_priceable, priced_value_from,
  require_owner_for_unpriceable, restored, seized_value_from,
}
use democratized_prime_smart.Map.{Map}
use democratized_prime_smart.Pool.{Pool}
use democratized_prime_smart.Prelude.{
  >>=-eq-ok, Bool, Bool-cases, Ensures, Ensures->>=, Ensures-ensure, Ensures-err, Ensures-if,
  Ensures-ok, Ensures-or_err, List, [], arith, false, inl, inr, leb, leb→le, ltb, not, ok, refl,
  true, ℕ, ◌&&◌, ◌*◌, ◌/◌, ◌<◌, ◌==◌, ◌||◌, ◌∷◌, ◌≡◌, ◌≤◌, ◌⊎◌,
}
use democratized_prime_smart.Price.{value_usd}
use democratized_prime_smart.PriceFeed.{LiquidationPrices, mem}
use democratized_prime_smart.Reserve.{ReserveState}
use democratized_prime_smart.Scaling.{scaled_to_underlying_borrow}

pub record Seizes ⦃c : Cosmwasm⦄ (host : Host) (pool : Pool) (sender : ℕ) (reserve : ReserveState)
    (position : Position) (payment : Payment) (collateral_to_seize : Map ℕ) (seizure : Seizure)
    : Type 0 where
  pub repay_value_eq :
      value_usd position.price_lending payment.actual_repay ≡ ok seizure.repay_value
  pub seized_value_eq :
      seized_value_from pool.contract.supported_collateral_assets position.collateral
        position.quoted 0 collateral_to_seize
      ≡ ok seizure.seized_value
  pub seizable :
      (id : ℕ)
      → (amount_of id (coins_of collateral_to_seize) ≡ 0)
        ⊎ ((is_supported pool.contract.supported_collateral_assets id ≡ true)
            × (mem id position.quoted.unpriceable ≡ false))
  pub capped :
      seizure.seized_value
      ≤ seizure.repay_value * pool.contract.liquidation_bonus_rate / decimal_one
  pub covered :
      (seizure.repay_value ≤ seizure.seized_value)
      ⊎ ((seizure.bad_debt ≡ true) ⊎ ((payment.new_scaled_debt ≡ 0) × (seizure.seized_value ≡ 0)))
  pub dry :
      dry_run position.collateral (normalize_seize_map collateral_to_seize)
      ≡ ok seizure.post_collateral
  pub post_value : ℕ
  pub post_value_eq :
      calculate_total_collateral_value_usd seizure.post_collateral position.quoted.prices
        pool.contract.supported_collateral_assets
      ≡ ok post_value
  pub bad_debt_eq : seizure.bad_debt ≡ (ltb 0 payment.new_scaled_debt && post_value == 0)
  pub owner_gate :
      require_owner_for_unpriceable host pool sender position seizure.bad_debt
        seizure.post_collateral
      ≡ ok tt
  pub insolvent :
      (seizure.bad_debt ≡ false)
      ⊎ ((priced : ℕ) × (payoff : ℕ) × (priced_value_from position.quoted 0 position.collateral
            ≡ ok priced)
          × (value_usd position.price_lending position.debt_payoff ≡ ok payoff)
          × (priced < payoff))
  pub restores :
      (seizure.bad_debt ≡ true)
      ⊎ ((payment.new_scaled_debt ≡ 0)
          ⊎ ((debt : ℕ) × (ltv : ℕ) × (scaled_to_underlying_borrow payment.new_scaled_debt
                  reserve.borrow_index
                ≡ ok debt)
              × (calculate_ltv pool.contract pool.contract.supported_collateral_assets
                    position.quoted.prices seizure.post_collateral debt
                  ≡ ok ltv)
              × (ltv < pool.contract.liquidation_rate)
              × (ltv ≤ pool.contract.margin_rate)))

healthy_eq :
    (contract : ContractState) (ltv : ℕ)
    → is_healthy (get_health_from_ltv contract ltv) ≡ true
    → (ltv < contract.liquidation_rate) × (ltv ≤ contract.margin_rate)
unfolding get_health_from_ltv
healthy_eq contract ltv h = ground arith

covered_eq :
    (bad_debt : Bool) (left seized repay : ℕ)
    → ((bad_debt || (left == 0 && seized == 0)) || leb repay seized) ≡ true
    → (repay ≤ seized) ⊎ ((bad_debt ≡ true) ⊎ ((left ≡ 0) × (seized ≡ 0)))
covered_eq true left seized repay h = inr (inl refl)
covered_eq false left seized repay h = elim (Bool-cases (leb repay seized)) [
  | inl enough ↦ inl (leb→le repay seized enough)
  | inr less ↦ inr (inr (ground arith))
]

module _ ⦃c : Cosmwasm⦄ (laws : IsCosmwasm c) where
  seizable_eq :
      (assets : List CollateralAsset) (holdings : Map ℕ) (quoted : LiquidationPrices) (total : ℕ)
      (seize : Map ℕ)
      → Ensures
          (λ _.
            (id : ℕ)
            → (amount_of id (coins_of seize) ≡ 0)
              ⊎ ((is_supported assets id ≡ true) × (mem id quoted.unpriceable ≡ false)))
          (seized_value_from assets holdings quoted total seize)
  unfolding seized_value_from
  seizable_eq assets holdings quoted total [] = Ensures-ok total λ id. inl refl
  seizable_eq assets holdings quoted total ((k, amount) ∷ seize) =
      Ensures-if (amount == 0) _ _
        (λ nothing. record {
          at = λ v h id.
              let e = (seizable_eq assets holdings quoted total seize).at v h id in ground arith;
        })
        (λ something. Ensures-ensure (is_supported assets k) _ _ λ supported.
          Ensures-ensure (leb amount (Map.get k holdings)) _ _ λ _.
            Ensures-ensure (not (mem k quoted.unpriceable)) _ _ λ priced.
              Ensures-or_err (Map.lookup k quoted.prices) _ _ λ price _.
                Ensures->>= (value_usd price amount) _ λ value _.
                  Ensures-or_err (c.checked_add total value) _ _ λ total' _. record {
                    at = λ v h id. elim (Bool-cases (id == k)) [
                      | inl same ↦
                          let e : id ≡ k = ground arith in rw e (inr (supported, ground arith))
                      | inr other ↦
                          let e = (seizable_eq assets holdings quoted total' seize).at v h id in
                          elim e [ inl none_of ↦ inl (ground arith) | inr priced' ↦ inr priced' ]
                    ];
                  })

  check_post_state_eq :
      (contract : ContractState) (reserve : ReserveState) (prices : Map AssetPrice) (left : ℕ)
      (bad_debt : Bool) (post : Map ℕ)
      → Ensures
          (λ _.
            (bad_debt ≡ true)
            ⊎ ((left ≡ 0)
                ⊎ ((debt : ℕ) × (ltv : ℕ) × (scaled_to_underlying_borrow left reserve.borrow_index
                      ≡ ok debt)
                    × (calculate_ltv contract contract.supported_collateral_assets prices post debt
                        ≡ ok ltv)
                    × (ltv < contract.liquidation_rate)
                    × (ltv ≤ contract.margin_rate))))
          (check_post_state contract reserve prices left bad_debt post)
  unfolding check_post_state restored get_borrower_health
  check_post_state_eq contract reserve prices left bad_debt post =
      Ensures-if (ltb 0 left && not bad_debt) _ _
        (λ stays. Ensures->>= (scaled_to_underlying_borrow left reserve.borrow_index) _ λ debt ed.
          Ensures->>=
            (get_borrower_health contract contract.supported_collateral_assets prices post debt) _
            λ (health, ltv) eh.
              Ensures-if (is_healthy health) _ _
                (λ well.
                  let (ltv', er, same) =
                    >>=-eq-ok
                      (calculate_ltv contract contract.supported_collateral_assets prices post debt)
                      _ eh in
                  let health_eq : get_health_from_ltv contract ltv' ≡ health = cc in
                  let bounds = healthy_eq contract ltv' (rw health_eq well) in
                  Ensures-ok tt (inr (inr (debt, ltv', ed, er, bounds.0, bounds.1))))
                (λ ill. Ensures-or_err (c.checked_mul ltv (100 * decimal_one)) _ _ λ _ _.
                  Ensures-or_err (c.checked_mul contract.margin_rate (100 * decimal_one)) _ _
                    λ _ _. Ensures-err _))
        (λ goes. Ensures-ok tt (elim (Bool-cases bad_debt) [
          | inl written_off ↦ inl written_off
          | inr kept ↦ inr (inl (ground arith))
        ]))

  pub check_seizure-Seizes :
      (host : Host) (pool : Pool) (info : MessageInfo) (reserve : ReserveState)
      (position : Position) (payment : Payment) (seize : Map ℕ)
      → Ensures
          (Seizes host pool info.sender reserve position payment seize)
          (check_seizure host pool info reserve position payment seize)
  unfolding check_seizure
  check_seizure-Seizes host pool info reserve position payment seize =
      let contract = pool.contract in
      let assets = contract.supported_collateral_assets in
      let quoted = position.quoted in
      let holdings = position.collateral in
      let to_seize = normalize_seize_map seize in
      let price = position.price_lending in
      let left = payment.new_scaled_debt in
      let allow_empty =
        not (holds_priceable quoted.unpriceable holdings) && Map.is_empty to_seize in
      Ensures->>= (value_usd price payment.actual_repay) _ λ repay_value ev.
        Ensures-or_err (c.checked_mul repay_value contract.liquidation_bonus_rate) _ _ λ most em.
          Ensures-ensure (allow_empty || not (Map.is_empty seize)) _ _ λ _.
            Ensures->>= (seized_value_from assets holdings quoted 0 seize) _ λ seized es.
              Ensures-ensure (allow_empty || not (Map.is_empty to_seize)) _ _ λ _.
                Ensures->>= (dry_run holdings to_seize) _ λ post ed.
                  Ensures->>= (calculate_total_collateral_value_usd post quoted.prices assets) _
                    λ post_value ep.
                      let bad_debt = ltb 0 left && post_value == 0 in
                      Ensures->>=
                        (require_owner_for_unpriceable host pool info.sender position bad_debt post)
                        _
                        λ _ eo. Ensures->>= (priced_value_from quoted 0 holdings) _ λ priced er.
                          Ensures->>= (value_usd price position.debt_payoff) _ λ payoff ef.
                            Ensures-ensure (not (bad_debt && leb payoff priced)) _ _ λ insolvent.
                              Ensures-ensure
                                ((bad_debt || (left == 0 && seized == 0)) || leb repay_value seized)
                                _ _
                                λ floor. Ensures-ensure (leb seized most) _ _ λ cap.
                                  Ensures-ensure
                                    (not (
                                      bad_debt
                                      && leb position.debt_underlying payment.sent
                                      && ltb payment.sent position.debt_payoff))
                                    _ _
                                    λ _.
                                      Ensures->>=
                                        (check_post_state contract reserve quoted.prices left
                                          bad_debt post)
                                        _
                                        λ _ ec. Ensures-ok _ (record {
                                          repay_value_eq = ev;
                                          seized_value_eq = es;
                                          seizable =
                                              (seizable_eq assets holdings quoted 0 seize).at seized
                                                es;
                                          capped =
                                              rw
                                                (mul_eq laws repay_value
                                                  contract.liquidation_bonus_rate em)
                                                at (leb→le seized most cap);
                                          covered =
                                              covered_eq bad_debt left seized repay_value floor;
                                          dry = ed;
                                          post_value = post_value;
                                          post_value_eq = ep;
                                          bad_debt_eq = refl;
                                          owner_gate = eo;
                                          insolvent = elim (Bool-cases bad_debt) [
                                            | inl written_off ↦
                                                inr (priced, payoff, er, ef, ground arith)
                                            | inr kept ↦ inl kept
                                          ];
                                          restores =
                                              (check_post_state_eq contract reserve quoted.prices
                                                  left bad_debt post).at
                                                tt ec;
                                        })
