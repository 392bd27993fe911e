-- ===== src/Collateral/Effects.antt =====
-- What a deposit and a withdrawal of collateral change: `add_collateral` and `remove_collateral` of
-- contracts/pool_v2/src/execute.
use democratized_prime_smart.Map
use democratized_prime_smart.Accrual.{compute_effective_reserve}
use democratized_prime_smart.Attributes.{validate_account_attrs}
use democratized_prime_smart.Borrowing.{check_health}
use democratized_prime_smart.Borrowing.Effects.{check_health_eq}
use democratized_prime_smart.Collateral.{
  add_amounts, add_collateral, add_totals, check_coins, check_remaining, coins_of, is_nil,
  new_denoms, remove_amounts, remove_collateral, subtract_totals,
  validate_borrower_collateral_type_limit,
}
use democratized_prime_smart.Collateral.Settling.{CollateralMoved, settle, settle-IsValid}
use democratized_prime_smart.Collateral.Totals.{
  add_amounts-Changed, add_totals-Moved, remove_amounts-Changed, subtract_totals-Moved,
}
use democratized_prime_smart.Contract.{ContractState}
use democratized_prime_smart.Cosmwasm.{Cosmwasm, IsCosmwasm}
use democratized_prime_smart.Health.{calculate_ltv}
use democratized_prime_smart.Host.{AssetPrice, Env, Host, MessageInfo, Msg, bank_send, no_funds}
use democratized_prime_smart.Map.{Map}
use democratized_prime_smart.Pool.{
  Pool, get_borrower_collateral, get_borrower_require_commit, get_scaled_borrow,
  set_borrower_collateral, set_reserve_state,
}
use democratized_prime_smart.Pool.Collateral.{
  get-set_borrower_collateral, get_borrower_collateral-IsSortedAbove,
}
use democratized_prime_smart.Pool.Invariant.{
  Ensures-attach_rates, Ensures-update, IsValid, accrual-IsValid,
}
use democratized_prime_smart.Prelude.{
  Bool-cases, Ensures, Ensures->>=, Ensures-ensure, Ensures-ok, List, [], ap, arith, inl, inr, ltb,
  none, not, ok, refl, ℕ, ◌<◌, ◌∙◌, ◌∷◌, ◌≡◌, ◌≤◌, ◌⊎◌,
}
use democratized_prime_smart.PriceFeed.{get_asset_prices_for_borrower, require_fresh_asset_prices}
use democratized_prime_smart.Reserve.{ReserveState}
use democratized_prime_smart.Responses.{Response, commit_if}
use democratized_prime_smart.Responses.Commits.{IsCommit, commit_if-IsCommit}
use democratized_prime_smart.Scaling.{scaled_to_underlying_borrow}

module _ ⦃c : Cosmwasm⦄ (laws : IsCosmwasm c) (host : Host) where
  add_collateral-Ensures :
      (pool : Pool) (env : Env) (info : MessageInfo)
      → IsValid pool
      → Ensures
          (λ out.
            CollateralMoved pool out.0 info.sender info.funds []
            × IsValid out.0
            × (out.1.messages ≡ []))
          (add_collateral host pool env info)
  unfolding add_collateral
  add_collateral-Ensures pool env info v =
      let contract = pool.contract in
      let borrower = info.sender in
      let current = get_borrower_collateral pool borrower in
      Ensures->>= (validate_account_attrs host borrower contract.borrower_required_attrs) _ λ _ _.
        Ensures-ensure (not (is_nil info.funds)) _ _ λ _.
          Ensures->>= (check_coins contract.supported_collateral_assets info.funds) _ λ _ _.
            Ensures->>=
              (require_fresh_asset_prices host env.block_time contract.price_oracle_address
                (new_denoms current info.funds))
              _
              λ _ _.
                Ensures->>=
                  (validate_borrower_collateral_type_limit info.funds current
                    contract.max_borrower_collateral_types)
                  _
                  λ _ _. Ensures->>= (add_amounts current info.funds) _ λ amounts ea.
                    Ensures->>=
                      (add_totals (set_borrower_collateral pool borrower amounts) info.funds) _
                      λ pool' et.
                        let changed =
                          (add_amounts-Changed laws current info.funds (
                              get_borrower_collateral-IsSortedAbove pool borrower
                                v.holdings_sorted)).at
                            amounts ea in
                        let e =
                          (add_totals-Moved (set_borrower_collateral pool borrower amounts)
                              info.funds v.totals_sorted).at
                            pool' et in
                        Ensures-ok (pool', record { messages = []; rates = none })
                          (
                            settle borrower info.funds [] v changed e,
                            settle-IsValid borrower info.funds [] v changed e,
                            refl,
                          )

  -- A deposit of collateral into a valid pool that goes through adds to the borrower's holding of each
  -- asset, and to the total of the asset, just what was sent of it. It leaves every other borrower's
  -- holdings and the rest of the pool as they are, keeps the pool valid, and sends nothing.
  pub add_collateral-CollateralMoved :
      (pool : Pool) (env : Env) (info : MessageInfo) {out : Pool × Response}
      → IsValid pool
      → add_collateral host pool env info ≡ ok out
      → CollateralMoved pool out.0 info.sender info.funds [] × IsValid out.0 × (out.1.messages ≡ [])
  add_collateral-CollateralMoved pool env info {out} v h =
      (add_collateral-Ensures pool env info v).at out h

  check_remaining_eq :
      (env : Env) (contract : ContractState) (collateral : Map ℕ) (debt : ℕ) {u : Unit {0}}
      → check_remaining host env contract collateral debt ≡ ok u
      → (debt ≡ 0)
        ⊎ ((prices : Map AssetPrice) × (ltv : ℕ) × (get_asset_prices_for_borrower host
                env.block_time contract collateral
              ≡ ok prices)
            × (calculate_ltv contract contract.supported_collateral_assets prices collateral debt
                ≡ ok ltv)
            × (ltv < contract.liquidation_rate)
            × (ltv ≤ contract.margin_rate))
  unfolding check_remaining check_health
  check_remaining_eq env contract collateral debt {u} h = elim (Bool-cases (ltb 0 debt)) [
    | inl owed ↦ inr (check_health_eq host env contract collateral debt {u = u} (rw owed at h))
    | inr none_owed ↦ inl (ground arith)
  ]

  pub record CollateralRemoved (pool : Pool) (env : Env) (borrower : ℕ) (to_remove : Map ℕ)
      (out : Pool × Response) : Type 0 where
    pub accrued : ReserveState
    pub accrues :
        compute_effective_reserve pool.reserve env.block_time pool.contract.rate_params ≡ ok accrued
    pub moved :
        CollateralMoved (set_reserve_state pool accrued) out.0 borrower [] (coins_of to_remove)
    pub valid : IsValid out.0
    pub debt : ℕ
    pub debt_eq :
        scaled_to_underlying_borrow (get_scaled_borrow pool borrower) accrued.borrow_index ≡ ok debt
    pub healthy :
        (debt ≡ 0)
        ⊎ ((prices : Map AssetPrice) × (ltv : ℕ) × (get_asset_prices_for_borrower host
                env.block_time pool.contract
                (get_borrower_collateral out.0 borrower)
              ≡ ok prices)
            × (calculate_ltv pool.contract pool.contract.supported_collateral_assets prices
                  (get_borrower_collateral out.0 borrower)
                  debt
                ≡ ok ltv)
            × (ltv < pool.contract.liquidation_rate)
            × (ltv ≤ pool.contract.margin_rate))
    pub commit : List Msg
    pub commits :
        IsCommit
          (get_borrower_require_commit pool borrower)
          pool.contract
          env.contract_address
          borrower
          (coins_of to_remove)
          commit
    pub sends : out.1.messages ≡ bank_send borrower (coins_of to_remove) ∷ commit

  remove_collateral-Ensures :
      (pool : Pool) (env : Env) (info : MessageInfo) (to_remove : Map ℕ)
      → IsValid pool
      → Ensures
          (CollateralRemoved pool env info.sender to_remove)
          (remove_collateral host pool env info to_remove)
  unfolding remove_collateral
  remove_collateral-Ensures pool env info to_remove v =
      let contract = pool.contract in
      let borrower = info.sender in
      let current = get_borrower_collateral pool borrower in
      let coins = coins_of to_remove in
      Ensures-ensure (no_funds info) _ _ λ _.
        Ensures->>= (validate_account_attrs host borrower contract.borrower_required_attrs) _ λ _ _.
          Ensures-ensure (not (Map.is_empty to_remove)) _ _ λ _.
            Ensures->>= (remove_amounts contract.supported_collateral_assets current to_remove) _
              λ amounts ea. Ensures-update pool env contract.rate_params _ λ r er.
                let pool1 = set_reserve_state pool r in
                Ensures->>=
                  (scaled_to_underlying_borrow (get_scaled_borrow pool borrower) r.borrow_index) _
                  λ debt ed. Ensures->>= (check_remaining host env contract amounts debt) _ λ _ eh.
                    Ensures->>=
                      (subtract_totals (set_borrower_collateral pool1 borrower amounts) to_remove) _
                      λ pool' et.
                        Ensures->>=
                          (commit_if (get_borrower_require_commit pool borrower) contract
                            env.contract_address borrower coins)
                          _
                          λ commit ec.
                            Ensures-attach_rates pool' (bank_send borrower coins ∷ commit) r
                              contract.rate_params
                              λ rates.
                                let v1 =
                                  accrual-IsValid laws pool env.block_time contract.rate_params v
                                    er in
                                let changed =
                                  (remove_amounts-Changed contract.supported_collateral_assets
                                      current to_remove
                                      (get_borrower_collateral-IsSortedAbove pool borrower
                                        v.holdings_sorted)).at
                                    amounts ea in
                                let e =
                                  (subtract_totals-Moved
                                      (set_borrower_collateral pool1 borrower amounts) to_remove
                                      v.totals_sorted).at
                                    pool' et in
                                let holds : get_borrower_collateral pool' borrower ≡ amounts =
                                  ap (λ (x : Pool). get_borrower_collateral x borrower) e.same
                                  ∙ get-set_borrower_collateral pool1 borrower amounts borrower
                                      v.borrowers_sorted
                                  ∙ ground arith in
                                record {
                                  accrued = r;
                                  accrues = er;
                                  moved = settle borrower [] coins v1 changed e;
                                  valid = settle-IsValid borrower [] coins v1 changed e;
                                  debt = debt;
                                  debt_eq = ed;
                                  healthy =
                                      rw holds (check_remaining_eq env contract amounts debt eh);
                                  commit = commit;
                                  commits =
                                      (commit_if-IsCommit
                                          (get_borrower_require_commit pool borrower) contract
                                          env.contract_address borrower coins).at
                                        commit ec;
                                  sends = refl;
                                }

  -- A withdrawal of collateral from a valid pool that goes through takes from the borrower's holding of
  -- each asset, and from the total of the asset, just what one message sends to the borrower, followed by
  -- the request to commit these coins if the borrower requires it, and by nothing if not. It leaves every
  -- other borrower's holdings and the rest of the accrued pool as they are. The pool stays valid. A borrower that
  -- still owes something is left, at the fetched prices, below the liquidation rate and within the margin.
  pub remove_collateral-CollateralRemoved :
      (pool : Pool) (env : Env) (info : MessageInfo) (to_remove : Map ℕ) {out : Pool × Response}
      → IsValid pool
      → remove_collateral host pool env info to_remove ≡ ok out
      → CollateralRemoved pool env info.sender to_remove out
  remove_collateral-CollateralRemoved pool env info to_remove {out} v h =
      (remove_collateral-Ensures pool env info to_remove v).at out h
