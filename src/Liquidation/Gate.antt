-- ===== src/Liquidation/Gate.antt =====
-- What the checks of a liquidation establish: sections 1 to 5 of `liquidate` in
-- contracts/pool_v2/src/execute/liquidate.rs.
use democratized_prime_smart.Map
use democratized_prime_smart.U128
use democratized_prime_smart.Attributes.{single_coin_iff, validate_single_coin_denom}
use democratized_prime_smart.Borrowing.{scaled_repayment}
use democratized_prime_smart.Borrowing.Repayment.{scaled_repayment_eq}
use democratized_prime_smart.Contract.{ContractState}
use democratized_prime_smart.Cosmwasm.{Cosmwasm, IsCosmwasm, decimal_one}
use democratized_prime_smart.DirectedSale.{get_directed_sale_offer}
use democratized_prime_smart.Health.{
  calculate_ltv, get_borrower_health, get_health_from_ltv, is_liquidatable,
}
use democratized_prime_smart.Host.{Env, Host, MessageInfo}
use democratized_prime_smart.Lending.{lending_coins}
use democratized_prime_smart.Liquidation.Payment.{
  Payment, Position, fills, find_position, take_payment,
}
use democratized_prime_smart.Map.{Map}
use democratized_prime_smart.Pool.{Pool, get_borrower_collateral, get_scaled_borrow}
use democratized_prime_smart.Prelude.{
  >>=-eq-ok, Bool-cases, Ensures, Ensures->>=, Ensures-ensure, Ensures-ok, Ensures-or_err, arith,
  inl, inr, ltb, ltb→lt, min, not, ok, refl, some, true, ℕ, ◌*◌, ◌+◌, ◌<◌, ◌||◌, ◌≡◌, ◌≤◌, ◌⊎◌,
}
use democratized_prime_smart.Price.{is_zero_price}
use democratized_prime_smart.PriceFeed.{get_asset_prices_for_liquidation}
use democratized_prime_smart.Reserve.{ReserveState}
use democratized_prime_smart.Scaling.{scaled_to_underlying_borrow, scaled_to_underlying_borrow_ceil}
use democratized_prime_smart.U128.Laws.{u128_sub_eq}

pub record Positioned ⦃c : Cosmwasm⦄ (host : Host) (pool : Pool) (env : Env)
    (reserve : ReserveState) (borrower : ℕ) (collateral_to_seize : Map ℕ) (position : Position)
    : Type 0 where
  pub debt_eq : position.scaled_debt ≡ get_scaled_borrow pool borrower
  pub underlying_eq :
      scaled_to_underlying_borrow position.scaled_debt reserve.borrow_index
      ≡ ok position.debt_underlying
  pub underlying_some : 0 < position.debt_underlying
  pub payoff_eq :
      scaled_to_underlying_borrow_ceil position.scaled_debt reserve.borrow_index
      ≡ ok position.debt_payoff
  pub collateral_eq : position.collateral ≡ get_borrower_collateral pool borrower
  pub quoted_eq :
      get_asset_prices_for_liquidation host env.block_time pool.contract position.collateral
      ≡ ok position.quoted
  pub offer_eq : position.stored_offer ≡ get_directed_sale_offer pool borrower
  pub fill_eq :
      position.directed_fill ≡ fills position.stored_offer env.block_time collateral_to_seize
  pub ltv : ℕ
  pub ltv_eq :
      calculate_ltv pool.contract pool.contract.supported_collateral_assets position.quoted.prices
        position.collateral position.debt_underlying
      ≡ ok ltv
  pub gate : (position.directed_fill ≡ true) ⊎ (pool.contract.liquidation_rate ≤ ltv)
  pub price_eq :
      Map.lookup pool.contract.lending_denom.name position.quoted.prices
      ≡ some position.price_lending

pub record Paid (info : MessageInfo) (contract : ContractState) (reserve : ReserveState)
    (position : Position) (payment : Payment) : Type 0 where
  pub funds : info.funds ≡ lending_coins contract payment.sent
  pub actual_eq : payment.actual_repay ≡ min payment.sent position.debt_payoff
  pub repaid_some : 0 < payment.scaled_repay
  pub debt_falls : payment.new_scaled_debt + payment.scaled_repay ≡ position.scaled_debt
  pub entitled :
      ((position.debt_payoff ≤ payment.sent) × (payment.scaled_repay ≡ position.scaled_debt))
      ⊎ ((payment.sent < position.debt_payoff)
          × (payment.scaled_repay * reserve.borrow_index ≤ payment.sent * decimal_one)
          × (payment.sent * decimal_one < (payment.scaled_repay + 1) * reserve.borrow_index))

liquidatable_eq :
    (contract : ContractState) (ltv : ℕ)
    → is_liquidatable (get_health_from_ltv contract ltv) ≡ true
    → contract.liquidation_rate ≤ ltv
unfolding get_health_from_ltv
liquidatable_eq contract ltv h = ground arith

module _ ⦃c : Cosmwasm⦄ (host : Host) where
  pub find_position-Positioned :
      (pool : Pool) (env : Env) (reserve : ReserveState) (borrower : ℕ) (seize : Map ℕ)
      → Ensures
          (Positioned host pool env reserve borrower seize)
          (find_position host pool env reserve borrower seize)
  unfolding find_position get_borrower_health
  find_position-Positioned pool env reserve borrower seize =
      let contract = pool.contract in
      let assets = contract.supported_collateral_assets in
      let debt = get_scaled_borrow pool borrower in
      let collateral = get_borrower_collateral pool borrower in
      let offer = get_directed_sale_offer pool borrower in
      let directed = fills offer env.block_time seize in
      Ensures-ensure (ltb 0 debt) _ _ λ _.
        Ensures->>= (scaled_to_underlying_borrow debt reserve.borrow_index) _ λ underlying eu.
          Ensures->>= (scaled_to_underlying_borrow_ceil debt reserve.borrow_index) _ λ payoff ep.
            Ensures-ensure (ltb 0 underlying) _ _ λ owed.
              Ensures-ensure (not (Map.is_empty collateral)) _ _ λ _.
                Ensures->>=
                  (get_asset_prices_for_liquidation host env.block_time contract collateral) _
                  λ quoted eq.
                    Ensures->>=
                      (get_borrower_health contract assets quoted.prices collateral underlying) _
                      λ (health, ltv) eh.
                        Ensures-ensure (directed || is_liquidatable health) _ _ λ gate.
                          Ensures-or_err (Map.lookup contract.lending_denom.name quoted.prices) _ _
                            λ price el. Ensures-ensure (not (is_zero_price price)) _ _ λ _.
                              let (ltv', er, same) =
                                >>=-eq-ok
                                  (calculate_ltv contract assets quoted.prices collateral
                                    underlying)
                                  _ eh in
                              let health_eq : get_health_from_ltv contract ltv' ≡ health = cc in
                              Ensures-ok _ (record {
                                debt_eq = refl;
                                underlying_eq = eu;
                                underlying_some = ltb→lt 0 underlying owed;
                                payoff_eq = ep;
                                collateral_eq = refl;
                                quoted_eq = eq;
                                offer_eq = refl;
                                fill_eq = refl;
                                ltv = ltv';
                                ltv_eq = er;
                                gate = elim (Bool-cases directed) [
                                  | inl filled ↦ inl filled
                                  | inr unfilled ↦ inr (
                                      liquidatable_eq contract ltv'
                                        (rw health_eq (rw unfilled at gate)))
                                ];
                                price_eq = el;
                              })

module _ ⦃c : Cosmwasm⦄ (laws : IsCosmwasm c) where
  pub take_payment-Paid :
      (info : MessageInfo) (contract : ContractState) (reserve : ReserveState) (position : Position)
      → Ensures (Paid info contract reserve position) (take_payment info contract reserve position)
  unfolding take_payment
  take_payment-Paid info contract reserve position =
      let payoff = position.debt_payoff in
      let debt = position.scaled_debt in
      Ensures->>= (validate_single_coin_denom info contract.lending_denom 1) _ λ sent coin.
        Ensures->>= (scaled_repayment (min sent payoff) payoff debt reserve.borrow_index) _
          λ repaid es. Ensures-ensure (ltb 0 repaid) _ _ λ some_repaid.
            Ensures-or_err (U128.checked_sub debt repaid) _ _ λ left ed. Ensures-ok _ (record {
              funds = ((single_coin_iff info contract.lending_denom 1 sent).0 coin).0;
              actual_eq = refl;
              repaid_some = ltb→lt 0 repaid some_repaid;
              debt_falls = u128_sub_eq debt repaid ed;
              entitled =
                  (scaled_repayment_eq laws sent payoff debt reserve.borrow_index).at repaid es;
            })
