-- ===== src/Lending/Withdrawals.antt =====
-- What a withdrawal burns, pays and leaves in the reserve: `execute_withdraw` and
-- `execute_withdraw_cw20` of contracts/pool_v2/src/execute/withdraw.rs.
use democratized_prime_smart.Access.{assert_owner}
use democratized_prime_smart.Contract.{repo_token_addr}
use democratized_prime_smart.Cosmwasm.{Cosmwasm, IsCosmwasm}
use democratized_prime_smart.Host.{
  Env, Host, MessageInfo, Msg, bank_send, burn, burn_from, no_funds,
}
use democratized_prime_smart.Lending.{
  execute_withdraw, execute_withdraw_cw20, is_some_true, lending_coins, owner_payout,
  received_payout, refund_of,
}
use democratized_prime_smart.Lending.Burning.{Withdrawn, Withdrawn-IsValid, deducted}
use democratized_prime_smart.Lending.Payouts.{
  exact_burns, owner_payout-IsPayout, received_payout-IsPayout, refund_eq, refund_msgs,
}
use democratized_prime_smart.Pool.{Pool, get_lender_require_commit_on_exit, set_reserve_state}
use democratized_prime_smart.Pool.Invariant.{Ensures-attach_rates, Ensures-update, IsValid}
use democratized_prime_smart.Prelude.{
  Bool, Ensures, Ensures->>=, Ensures-ensure, Ensures-or_err, List, Option, ap, arith, ltb, not, ok,
  refl, some, true, ℕ, ◌++◌, ◌+◌, ◌-◌, ◌||◌, ◌∷◌, ◌≡◌,
}
use democratized_prime_smart.Responses.{Response, commit_if}
use democratized_prime_smart.Responses.Commits.{IsCommit, commit_if-IsCommit}
use democratized_prime_smart.Scaling.{reserve_totals_and_cash_u128}

-- a withdrawal for the lender that the owner names: only the commit that was asked for follows the payout
pub record OwnerWithdrawn ⦃c : Cosmwasm⦄ (host : Host) (pool : Pool) (env : Env) (lender : ℕ)
    (commit_funds : Option Bool) (out : Pool × Response) : Type 0 where
  pub account : ℕ
  pub account_eq : host.addr_validate (host.trim lender) ≡ some account
  pub balance : ℕ
  pub withdrawn : Withdrawn pool env account balance (λ token. burn_from token account) out
  pub balance_eq : host.scaled_balance withdrawn.repo_token account ≡ some balance
  pub commits :
      IsCommit
        (is_some_true commit_funds)
        pool.contract
        env.contract_address
        account
        (lending_coins pool.contract withdrawn.payout.underlying_to_send)
        withdrawn.rest

module _ ⦃c : Cosmwasm⦄ (laws : IsCosmwasm c) where
  module _ (host : Host) where
    withdraw-Ensures :
        (pool : Pool) (env : Env) (info : MessageInfo) (lender : ℕ) (amount : Option ℕ)
        (commit_funds : Option Bool)
        → Ensures
            (OwnerWithdrawn host pool env lender commit_funds)
            (execute_withdraw host pool env info lender amount commit_funds)
    unfolding execute_withdraw
    withdraw-Ensures pool env info lender amount commit_funds =
        let contract = pool.contract in
        Ensures->>= (repo_token_addr contract) _ λ repo_token ek.
          Ensures->>= (assert_owner host pool info.sender) _ λ _ _.
            Ensures-ensure (no_funds info) _ _ λ _.
              Ensures-or_err (host.addr_validate (host.trim lender)) _ _ λ account ea.
                Ensures-update pool env contract.rate_params _ λ r er.
                  Ensures->>= (reserve_totals_and_cash_u128 r) _ λ totals et.
                    Ensures-or_err (host.scaled_balance repo_token account) _ _ λ balance eb.
                      Ensures-ensure (ltb 0 balance) _ _ λ _.
                        Ensures->>= (owner_payout amount balance totals.2 r) _ λ payout ep.
                          deducted (set_reserve_state pool r) r payout.scaled_to_burn _ λ left el.
                            let coins = lending_coins contract payout.underlying_to_send in
                            Ensures->>=
                              (commit_if (is_some_true commit_funds) contract env.contract_address
                                account coins)
                              _
                              λ commit ec.
                                let r' = record r { total_scaled_liquidity = left } in
                                Ensures-attach_rates (set_reserve_state pool r')
                                  (burn_from repo_token account payout.scaled_to_burn
                                    ∷ bank_send account coins
                                    ∷ commit)
                                  r' contract.rate_params
                                  λ rates. record {
                                    account = account;
                                    account_eq = ea;
                                    balance = balance;
                                    balance_eq = eb;
                                    commits =
                                        (commit_if-IsCommit (is_some_true commit_funds) contract
                                            env.contract_address account coins).at
                                          commit ec;
                                    withdrawn = record {
                                      payout = payout;
                                      repo_token = repo_token;
                                      token_eq = ek;
                                      accrued = r;
                                      accrues = er;
                                      totals = totals;
                                      totals_eq = et;
                                      paid =
                                          (owner_payout-IsPayout laws amount balance totals.2 r).at
                                            payout ep;
                                      left = left;
                                      burned = el;
                                      writes = refl;
                                      rest = commit;
                                      sends = refl;
                                    };
                                  }

    -- A withdrawal by the owner burns tokens of the lender, at most its balance, and pays the lender at
    -- most the cash and at most what the burned tokens are worth at the accrued index; the scaled
    -- liquidity of the accrued reserve falls by just the tokens burned, and nothing else of it changes. The
    -- messages are the burn, one payment to the lender, and the commit of these coins if it was asked for.
    pub withdraw-Withdrawn :
        (pool : Pool) (env : Env) (info : MessageInfo) (lender : ℕ) (amount : Option ℕ)
        (commit_funds : Option Bool) {out : Pool × Response}
        → execute_withdraw host pool env info lender amount commit_funds ≡ ok out
        → OwnerWithdrawn host pool env lender commit_funds out
    withdraw-Withdrawn pool env info lender amount commit_funds {out} h =
        (withdraw-Ensures pool env info lender amount commit_funds).at out h

  -- a withdrawal by repo tokens, and the tokens that it sends back
  pub record Redeemed (pool : Pool) (env : Env) (sender received : ℕ) (commit_funds : Option Bool)
      (out : Pool × Response) : Type 0 where
    pub withdrawn : Withdrawn pool env sender received burn out
    pub returned : ℕ
    pub all_used : returned + withdrawn.payout.scaled_to_burn ≡ received
    pub commit : List Msg
    pub commits :
        IsCommit
          (is_some_true commit_funds)
          pool.contract
          env.contract_address
          sender
          (lending_coins pool.contract withdrawn.payout.underlying_to_send)
          commit
    pub refunds : withdrawn.rest ≡ commit ++ refund_msgs withdrawn.repo_token sender returned

  redeem-Ensures :
      (host : Host) (pool : Pool) (env : Env) (sender received : ℕ) (amount : Option ℕ)
      (exact : Bool) (commit_funds : Option Bool)
      → Ensures
          (Redeemed pool env sender received commit_funds)
          (execute_withdraw_cw20 host pool env sender received amount exact commit_funds)
  unfolding execute_withdraw_cw20
  redeem-Ensures host pool env sender received amount exact commit_funds =
      let contract = pool.contract in
      Ensures-ensure (ltb 0 received) _ _ λ _.
        Ensures->>= (repo_token_addr contract) _ λ repo_token ek.
          Ensures-ensure
            (not (get_lender_require_commit_on_exit pool sender) || is_some_true commit_funds) _ _
            λ _. Ensures-update pool env contract.rate_params _ λ r er.
              Ensures->>= (reserve_totals_and_cash_u128 r) _ λ totals et.
                Ensures->>= (received_payout exact amount received totals.2 r) _ λ payout ep.
                  deducted (set_reserve_state pool r) r payout.scaled_to_burn _ λ left el.
                    let coins = lending_coins contract payout.underlying_to_send in
                    Ensures->>=
                      (commit_if (is_some_true commit_funds) contract env.contract_address sender
                        coins)
                      _
                      λ commit ec.
                        let paid =
                          (received_payout-IsPayout laws exact amount received totals.2 r).at payout
                            ep in
                        let all = λ (e : exact ≡ true).
                          exact_burns laws amount received totals.2 r {p = payout} (rw (← e) ep) in
                        Ensures->>=
                          (refund_of exact repo_token sender received payout.scaled_to_burn) _
                          λ refund ef.
                            let back =
                              (refund_eq laws exact repo_token sender received payout.scaled_to_burn
                                  all paid.within_balance).at
                                refund ef in
                            let r' = record r { total_scaled_liquidity = left } in
                            Ensures-attach_rates (set_reserve_state pool r')
                              (burn repo_token payout.scaled_to_burn
                                  ∷ bank_send sender coins
                                  ∷ commit
                                ++ refund)
                              r' contract.rate_params
                              λ rates. record {
                                withdrawn = record {
                                  payout = payout;
                                  repo_token = repo_token;
                                  token_eq = ek;
                                  accrued = r;
                                  accrues = er;
                                  totals = totals;
                                  totals_eq = et;
                                  paid = paid;
                                  left = left;
                                  burned = el;
                                  writes = refl;
                                  rest = commit ++ refund;
                                  sends = refl;
                                };
                                returned = received - payout.scaled_to_burn;
                                all_used = omega (arith, paid.within_balance);
                                commit = commit;
                                commits =
                                    (commit_if-IsCommit (is_some_true commit_funds) contract
                                        env.contract_address sender coins).at
                                      commit ec;
                                refunds = ap (λ (x : List Msg). commit ++ x) back;
                              }

  -- A withdrawal by repo tokens burns at most those received, and pays the sender at most the cash
  -- and at most what the burned tokens are worth at the accrued index; the scaled liquidity of the accrued
  -- reserve falls by just the tokens burned, and nothing else of it changes. The tokens received are just
  -- those burned and those sent back. The messages are the burn, one payment to the sender, the commit of
  -- these coins if it was asked for, and the return of the tokens left, if any.
  pub redeem-Redeemed :
      (host : Host) (pool : Pool) (env : Env) (sender received : ℕ) (amount : Option ℕ)
      (exact : Bool) (commit_funds : Option Bool) {out : Pool × Response}
      → execute_withdraw_cw20 host pool env sender received amount exact commit_funds ≡ ok out
      → Redeemed pool env sender received commit_funds out
  redeem-Redeemed host pool env sender received amount exact commit_funds {out} h =
      (redeem-Ensures host pool env sender received amount exact commit_funds).at out h

  pub withdraw-IsValid :
      (host : Host) (pool : Pool) (env : Env) (info : MessageInfo) (lender : ℕ) (amount : Option ℕ)
      (commit_funds : Option Bool) {out : Pool × Response}
      → IsValid pool
      → execute_withdraw host pool env info lender amount commit_funds ≡ ok out
      → IsValid out.0
  withdraw-IsValid host pool env info lender amount commit_funds v h =
      Withdrawn-IsValid laws v
        ((withdraw-Withdrawn host pool env info lender amount commit_funds h).withdrawn)
