-- ===== src/Borrowing/Effects.antt =====
-- What a loan and a repayment change: `borrow` and `repay` of contracts/pool_v2/src/execute.
use democratized_prime_smart.Map
use democratized_prime_smart.U128
use democratized_prime_smart.Accrual.{compute_effective_reserve}
use democratized_prime_smart.Attributes.{validate_account_attrs}
use democratized_prime_smart.Borrowing.{borrow, check_health}
use democratized_prime_smart.Contract.{ContractState}
use democratized_prime_smart.Cosmwasm.{Cosmwasm, IsCosmwasm, u128_size}
use democratized_prime_smart.Health.{calculate_ltv, get_borrower_health}
use democratized_prime_smart.Health.Bounds.{healthy_iff}
use democratized_prime_smart.Host.{AssetPrice, Env, Host, MessageInfo, Msg, bank_send, no_funds}
use democratized_prime_smart.Lending.{lending_coins}
use democratized_prime_smart.Map.{Map}
use democratized_prime_smart.Pool.{
  Pool, get_borrower_collateral, get_borrower_require_commit, get_scaled_borrow, set_reserve_state,
  set_scaled_borrow,
}
use democratized_prime_smart.Pool.Invariant.{
  Ensures-attach_rates, Ensures-update, IsValid, accrual-IsValid, set_scaled_borrow-IsValid,
}
use democratized_prime_smart.Prelude.{
  >>=-eq-ok, Ensures, Ensures->>=, Ensures-ensure, Ensures-ok, Ensures-or_err, List, arith, leb,
  leb→le, not, ok, refl, ℕ, ◌+◌, ◌<◌, ◌==◌, ◌∷◌, ◌≡◌, ◌≤◌,
}
use democratized_prime_smart.PriceFeed.{get_asset_prices_for_borrower}
use democratized_prime_smart.Rates.Curve.{below}
use democratized_prime_smart.Reserve.{ReserveState, total_borrow}
use democratized_prime_smart.Responses.{Response, commit_if}
use democratized_prime_smart.Responses.Commits.{IsCommit, commit_if-IsCommit}
use democratized_prime_smart.Scaling.{
  debt_after_borrow, reserve_totals_and_cash_u128, scaled_to_underlying_borrow,
  underlying_to_scaled_borrow_ceil,
}
use democratized_prime_smart.U128.Laws.{u128_add_eq}

pub record Borrowed ⦃c : Cosmwasm⦄ (host : Host) (pool : Pool) (env : Env) (borrower amount : ℕ)
    (out : Pool × Response) : Type 0 where
  pub accrued : ReserveState
  pub accrues :
      compute_effective_reserve pool.reserve env.block_time pool.contract.rate_params ≡ ok accrued
  pub totals : ℕ × ℕ × ℕ
  pub totals_eq : reserve_totals_and_cash_u128 accrued ≡ ok totals
  pub within_cash : amount ≤ totals.2
  pub min_borrow_le : pool.contract.min_borrow ≤ amount
  pub delta : ℕ
  pub records : underlying_to_scaled_borrow_ceil amount accrued.borrow_index ≡ ok delta
  pub debt : ℕ
  pub debt_eq :
      scaled_to_underlying_borrow (get_scaled_borrow pool borrower + delta) accrued.borrow_index
      ≡ ok debt
  pub prices : Map AssetPrice
  pub prices_eq :
      get_asset_prices_for_borrower host env.block_time pool.contract
        (get_borrower_collateral pool borrower)
      ≡ ok prices
  pub ltv : ℕ
  pub ltv_eq :
      calculate_ltv pool.contract pool.contract.supported_collateral_assets prices
        (get_borrower_collateral pool borrower)
        debt
      ≡ ok ltv
  pub below_liquidation : ltv < pool.contract.liquidation_rate
  pub within_margin : ltv ≤ pool.contract.margin_rate
  pub debt_bound : get_scaled_borrow pool borrower + delta < u128_size
  pub total_bound : accrued.total_scaled_borrow + delta < u128_size
  pub writes :
      out.0
      ≡ set_reserve_state
          (set_scaled_borrow pool borrower (get_scaled_borrow pool borrower + delta))
          (record accrued { total_scaled_borrow = accrued.total_scaled_borrow + delta })
  pub commit : List Msg
  pub commits :
      IsCommit
        (get_borrower_require_commit pool borrower)
        pool.contract
        env.contract_address
        borrower
        (lending_coins pool.contract amount)
        commit
  pub sends : out.1.messages ≡ bank_send borrower (lending_coins pool.contract amount) ∷ commit

module _ ⦃c : Cosmwasm⦄ where
  debt_after_borrow_eq :
      (current amount index : ℕ)
      → Ensures
          (λ r.
            (underlying_to_scaled_borrow_ceil amount index ≡ ok r.0)
            × (r.1 ≡ current + r.0)
            × (r.1 < u128_size)
            × (scaled_to_underlying_borrow r.1 index ≡ ok r.2))
          (debt_after_borrow current amount index)
  unfolding debt_after_borrow
  debt_after_borrow_eq current amount index =
      Ensures->>= (underlying_to_scaled_borrow_ceil amount index) _ λ delta ed.
        Ensures-or_err (U128.checked_add current delta) _ _ λ new en.
          Ensures->>= (scaled_to_underlying_borrow new index) _ λ debt eb.
            let (e, b) = u128_add_eq current delta en in
            Ensures-ok (delta, new, debt) (ed, e, b, eb)

module _ ⦃c : Cosmwasm⦄ (host : Host) where
  -- what the check of a loan rests on
  pub check_health_eq :
      (env : Env) (contract : ContractState) (collateral : Map ℕ) (debt : ℕ) {u : Unit {0}}
      → check_health host env contract collateral debt ≡ ok u
      → (prices : Map AssetPrice) × (ltv : ℕ) × (get_asset_prices_for_borrower host env.block_time
            contract collateral
          ≡ ok prices)
        × (calculate_ltv contract contract.supported_collateral_assets prices collateral debt
            ≡ ok ltv)
        × (ltv < contract.liquidation_rate)
        × (ltv ≤ contract.margin_rate)
  unfolding check_health get_borrower_health
  check_health_eq env contract collateral debt h =
      let (prices, ep, h1) =
        >>=-eq-ok (get_asset_prices_for_borrower host env.block_time contract collateral) _ h in
      let (health, eh, h2) =
        >>=-eq-ok
          (get_borrower_health contract contract.supported_collateral_assets prices collateral debt)
          _ h1 in
      let (ltv, el, h3) =
        >>=-eq-ok
          (calculate_ltv contract contract.supported_collateral_assets prices collateral debt) _
          eh in
      let bounds = (healthy_iff contract ltv).0 cc in (prices, ltv, ep, el, bounds.0, bounds.1)

  borrow-Ensures :
      (pool : Pool) (env : Env) (info : MessageInfo) (amount : ℕ)
      → Ensures (Borrowed host pool env info.sender amount) (borrow host pool env info amount)
  unfolding borrow
  borrow-Ensures pool env info amount =
      let contract = pool.contract in
      let borrower = info.sender in
      let commit_funds = get_borrower_require_commit pool borrower in
      let collateral = get_borrower_collateral pool borrower in
      let current = get_scaled_borrow pool borrower in
      Ensures-ensure (not (amount == 0)) _ _ λ _.
        Ensures-ensure (leb contract.min_borrow amount) _ _ λ least.
          Ensures-ensure (no_funds info) _ _ λ _.
            Ensures->>= (validate_account_attrs host borrower contract.borrower_required_attrs) _
              λ _ _. Ensures-update pool env contract.rate_params _ λ r er.
                Ensures->>= (reserve_totals_and_cash_u128 r) _ λ totals et.
                  Ensures-ensure (leb amount totals.2) _ _ λ enough.
                    Ensures-ensure (not (Map.is_empty collateral)) _ _ λ _.
                      Ensures->>= (debt_after_borrow current amount r.borrow_index) _ λ after ea.
                        Ensures->>= (check_health host env contract collateral after.2) _ λ _ eh.
                          Ensures-or_err (U128.checked_add r.total_scaled_borrow after.0) _ _
                            λ total es.
                              let r' = record r { total_scaled_borrow = total } in
                              Ensures->>= (total_borrow r') _ λ _ _.
                                let coins = lending_coins contract amount in
                                Ensures->>=
                                  (commit_if commit_funds contract env.contract_address borrower
                                    coins)
                                  _
                                  λ commit ec.
                                    let pool2 =
                                      set_scaled_borrow (set_reserve_state pool r) borrower
                                        after.1 in
                                    Ensures-attach_rates (set_reserve_state pool2 r')
                                      (bank_send borrower coins ∷ commit) r' contract.rate_params
                                      λ rates.
                                        let (records, new, new_bound, debt_eq) =
                                          (debt_after_borrow_eq current amount r.borrow_index).at
                                            after ea in
                                        let (sum_eq, small) =
                                          u128_add_eq r.total_scaled_borrow after.0 es in
                                        let (prices, ltv, ep, el, below, within) =
                                          check_health_eq env contract collateral after.2 eh in
                                        record {
                                          accrued = r;
                                          accrues = er;
                                          totals = totals;
                                          totals_eq = et;
                                          within_cash = leb→le amount totals.2 enough;
                                          min_borrow_le = leb→le contract.min_borrow amount least;
                                          delta = after.0;
                                          records = records;
                                          debt = after.2;
                                          debt_eq = rw (← new) debt_eq;
                                          prices = prices;
                                          prices_eq = ep;
                                          ltv = ltv;
                                          ltv_eq = el;
                                          below_liquidation = below;
                                          within_margin = within;
                                          debt_bound = rw (← new) new_bound;
                                          total_bound = rw (← sum_eq) small;
                                          writes = rw (new, sum_eq) refl;
                                          commit = commit;
                                          commits =
                                              (commit_if-IsCommit commit_funds contract
                                                  env.contract_address borrower coins).at
                                                commit ec;
                                          sends = refl;
                                        }

  -- A loan that goes through is at least the minimum and within the accrued reserve's cash, at an LTV,
  -- taken after it at the fetched prices, below the liquidation rate and within the margin rate. It adds
  -- the same scaled debt to the borrower and to the reserve's total, and changes nothing else of the accrued
  -- pool. It sends one payment of just the amount to the borrower, followed by the request to commit these
  -- coins if the borrower requires it, and by nothing if not.
  pub borrow-Borrowed :
      (pool : Pool) (env : Env) (info : MessageInfo) (amount : ℕ) {out : Pool × Response}
      → borrow host pool env info amount ≡ ok out
      → Borrowed host pool env info.sender amount out
  borrow-Borrowed pool env info amount {out} h = (borrow-Ensures pool env info amount).at out h

  pub borrow-IsValid :
      (laws : IsCosmwasm c) (pool : Pool) (env : Env) (info : MessageInfo) (amount : ℕ)
      {out : Pool × Response}
      → IsValid pool
      → borrow host pool env info amount ≡ ok out
      → IsValid out.0
  borrow-IsValid laws pool env info amount {out} v h =
      let e = borrow-Borrowed pool env info amount h in
      let r = e.accrued in
      let pool1 = set_reserve_state pool r in
      let a = accrual-IsValid laws pool env.block_time pool.contract.rate_params v e.accrues in
      let new = get_scaled_borrow pool info.sender + e.delta in
      let r' = record r { total_scaled_borrow = r.total_scaled_borrow + e.delta } in
      rw (e.writes) (
        set_scaled_borrow-IsValid pool1 info.sender new r' a (omega arith) e.total_bound
          a.liquidity_bound a.accrued_bound a.deficit_bound)
