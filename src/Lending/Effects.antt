-- ===== src/Lending/Effects.antt =====
-- What the lenders' handlers do to the reserve, and what they mint, burn and pay.
use democratized_prime_smart.U128
use democratized_prime_smart.Accrual.{compute_effective_reserve}
use democratized_prime_smart.Attributes.{
  single_coin_iff, validate_account_attrs, validate_single_coin_denom,
}
use democratized_prime_smart.Contract.{repo_token_addr}
use democratized_prime_smart.Cosmwasm.{Cosmwasm, IsCosmwasm, decimal_one, u128_size}
use democratized_prime_smart.Host.{Env, Host, MessageInfo, mint}
use democratized_prime_smart.Lending.{lend, lending_coins}
use democratized_prime_smart.Pool.{Pool, set_reserve_state}
use democratized_prime_smart.Pool.Invariant.{
  Ensures-attach_rates, Ensures-update, IsValid, accrual-IsValid, set_reserve_state-IsValid,
}
use democratized_prime_smart.Prelude.{
  Ensures, Ensures->>=, Ensures-ensure, Ensures-or_err, [], ap, arith, ltb, ltb→lt, ok, refl, ℕ,
  ◌*◌, ◌+◌, ◌<◌, ◌∷◌, ◌≡◌, ◌≤◌,
}
use democratized_prime_smart.Reserve.{ReserveState, total_liquidity}
use democratized_prime_smart.Responses.{Response}
use democratized_prime_smart.Scaling.{underlying_to_scaled_liquidity}
use democratized_prime_smart.Scaling.Exact.{underlying_to_scaled_liquidity_eq}
use democratized_prime_smart.Scaling.Rounding.{quotient_bounds}
use democratized_prime_smart.U128.Laws.{u128_add_eq}

pub record Lent ⦃c : Cosmwasm⦄ (pool : Pool) (env : Env) (info : MessageInfo)
    (out : Pool × Response) : Type 0 where
  pub amount : ℕ
  pub minted : ℕ
  pub repo_token : ℕ
  pub accrued : ReserveState
  pub accrues :
      compute_effective_reserve pool.reserve env.block_time pool.contract.rate_params ≡ ok accrued
  pub funds : info.funds ≡ lending_coins pool.contract amount
  pub min_lend_le : pool.contract.min_lend ≤ amount
  pub mints_some : 0 < minted
  pub rounds_down :
      (minted * accrued.liquidity_index ≤ amount * decimal_one)
      × (amount * decimal_one < (minted + 1) * accrued.liquidity_index)
  pub writes :
      out.0
      ≡ set_reserve_state pool
          (record accrued { total_scaled_liquidity = accrued.total_scaled_liquidity + minted })
  pub sends : out.1.messages ≡ mint repo_token info.sender minted ∷ []
  pub fits : accrued.total_scaled_liquidity + minted < u128_size

module _ ⦃c : Cosmwasm⦄ (laws : IsCosmwasm c) where
  pub scaled_bounds :
      (u i : ℕ) {s : ℕ}
      → underlying_to_scaled_liquidity u i ≡ ok s
      → (s * i ≤ u * decimal_one) × (u * decimal_one < (s + 1) * i)
  scaled_bounds u i h =
      let (ne, e, _) = underlying_to_scaled_liquidity_eq laws u i h in
      let (lo, hi) = quotient_bounds (u * decimal_one) ne in rw e (omega arith, omega arith)

module _ ⦃c : Cosmwasm⦄ (laws : IsCosmwasm c) (host : Host) where
  lend-Ensures :
      (pool : Pool) (env : Env) (info : MessageInfo)
      → Ensures (Lent pool env info) (lend host pool env info)
  unfolding lend
  lend-Ensures pool env info =
      let contract = pool.contract in
      Ensures->>= (repo_token_addr contract) _ λ repo_token _.
        Ensures->>= (validate_account_attrs host info.sender contract.lender_required_attrs) _
          λ _ _.
            Ensures->>= (validate_single_coin_denom info contract.lending_denom contract.min_lend) _
              λ amount coin. Ensures-update pool env contract.rate_params _ λ r er.
                Ensures->>= (underlying_to_scaled_liquidity amount r.liquidity_index) _ λ minted em.
                  Ensures-ensure (ltb 0 minted) _ _ λ some_minted.
                    Ensures-or_err (U128.checked_add r.total_scaled_liquidity minted) _ _
                      λ total et.
                        let (sum_eq, small) = u128_add_eq r.total_scaled_liquidity minted et in
                        let r' = record r { total_scaled_liquidity = total } in
                        Ensures->>= (total_liquidity r') _ λ _ _.
                          Ensures-attach_rates (set_reserve_state (set_reserve_state pool r) r')
                            (mint repo_token info.sender minted ∷ []) r' contract.rate_params
                            λ rates.
                              let (paid, least) =
                                (single_coin_iff info contract.lending_denom contract.min_lend
                                    amount).0
                                  coin in
                              record {
                                amount = amount;
                                minted = minted;
                                repo_token = repo_token;
                                accrued = r;
                                accrues = er;
                                funds = paid;
                                min_lend_le = least;
                                mints_some = ltb→lt 0 minted some_minted;
                                rounds_down = scaled_bounds laws amount r.liquidity_index em;
                                writes =
                                    ap
                                      (λ (x : ℕ).
                                        set_reserve_state pool
                                          (record r { total_scaled_liquidity = x }))
                                      sum_eq;
                                sends = refl;
                                fits = rw (← sum_eq) small;
                              }

  -- A deposit that goes through is the one coin sent, of the lending denom and at least the minimum. It
  -- mints repo tokens for the sender, worth at most the deposit at the accrued index where one unit more
  -- would be worth more than it, and adds just these to the scaled liquidity of the accrued reserve.
  pub lend-Lent :
      (pool : Pool) (env : Env) (info : MessageInfo) {out : Pool × Response}
      → lend host pool env info ≡ ok out
      → Lent pool env info out
  lend-Lent pool env info {out} h = (lend-Ensures pool env info).at out h

  pub lend-IsValid :
      (pool : Pool) (env : Env) (info : MessageInfo) {out : Pool × Response}
      → IsValid pool
      → lend host pool env info ≡ ok out
      → IsValid out.0
  lend-IsValid pool env info {out} v h =
      let e = lend-Lent pool env info h in
      let r = e.accrued in
      let a = accrual-IsValid laws pool env.block_time pool.contract.rate_params v e.accrues in
      rw (e.writes) (
        set_reserve_state-IsValid (set_reserve_state pool r)
          (record r { total_scaled_liquidity = r.total_scaled_liquidity + e.minted }) a refl e.fits
          a.accrued_bound a.deficit_bound)
