-- ===== src/RepoToken/Delivery.antt =====
-- The pool and its repo token together: the messages of contracts/pool_v2/src/execute/lend.rs and
-- withdraw.rs, executed by contracts/repo_token_cw20/src/execute.rs.
use democratized_prime_smart.Accrual.Growth.{accrual-Grows}
use democratized_prime_smart.Cosmwasm.{Cosmwasm, IsCosmwasm}
use democratized_prime_smart.Host.{Env, Host, MessageInfo, Msg, burn_from, mint}
use democratized_prime_smart.Lending.{execute_withdraw, lend}
use democratized_prime_smart.Lending.Effects.{lend-Lent}
use democratized_prime_smart.Lending.Withdrawals.{withdraw-Withdrawn}
use democratized_prime_smart.Pool.{Pool}
use democratized_prime_smart.Pool.Invariant.{IsValid}
use democratized_prime_smart.Prelude.{Bool, List, Option, [], ap, arith, ok, sym, ℕ, ◌∙◌, ◌∷◌, ◌≡◌}
use democratized_prime_smart.RepoToken.{Cw20Receive, Token, burn_from_msg, execute_token, mint_msg}
use democratized_prime_smart.RepoToken.Supply.{
  IsBacked, execute_burn_from-IsBacked, execute_mint-IsBacked,
}
use democratized_prime_smart.Responses.{Response}

-- The tokens are backed by balances, and as many as the scaled liquidity of the pool.
pub record Agree (pool : Pool) (token : Token) : Type 0 where
  pub backed : IsBacked token
  pub supply : token.total_supply ≡ pool.reserve.total_scaled_liquidity

module _ ⦃c : Cosmwasm⦄ (laws : IsCosmwasm c) (host : Host) (pool : Pool) (token : Token)
    (env : Env) (info from_pool : MessageInfo) {out : Pool × Response}
    {minted : Token × List Cw20Receive} where
  -- A deposit to a valid pool, whose message the token then executes, keeps the supply of the token at the
  -- scaled liquidity of the pool.
  pub lend_then_mint :
      (address recipient amount : ℕ)
      → IsValid pool
      → Agree pool token
      → lend host pool env info ≡ ok out
      → out.1.messages ≡ mint address recipient amount ∷ []
      → execute_token host token env from_pool (mint_msg recipient amount) ≡ ok minted
      → Agree out.0 minted.0
  unfolding execute_token
  lend_then_mint address recipient amount v a h sent run =
      let e = lend-Lent laws host pool env info h in
      let grows =
        accrual-Grows laws pool.reserve env.block_time pool.contract.rate_params v.accrued_bound
          e.accrues in
      let (backed, supply) =
        (execute_mint-IsBacked laws host token from_pool recipient amount a.backed).at minted run in
      let messages : mint address recipient amount ∷ []
          ≡ mint e.repo_token info.sender e.minted ∷ [] =
        sym sent ∙ e.sends in
      let amount_eq : amount ≡ e.minted = cc in
      let liquidity = ap (λ (x : Pool). x.reserve.total_scaled_liquidity) e.writes in
      record {
        backed = backed;
        supply = omega (arith, supply, amount_eq, liquidity, a.supply, grows.same_scaled_liquidity);
      }

  -- A withdrawal by the owner from a valid pool, whose first message the token then executes, keeps the
  -- supply of the token at the scaled liquidity of the pool.
  pub withdraw_then_burn :
      (lender : ℕ) (limit : Option ℕ) (commit_funds : Option Bool) (address owner amount : ℕ)
      (rest : List Msg)
      → IsValid pool
      → Agree pool token
      → execute_withdraw host pool env info lender limit commit_funds ≡ ok out
      → out.1.messages ≡ burn_from address owner amount ∷ rest
      → execute_token host token env from_pool (burn_from_msg owner amount) ≡ ok minted
      → Agree out.0 minted.0
  unfolding execute_token
  withdraw_then_burn lender limit commit_funds address owner amount rest v a h sent run =
      let e = (withdraw-Withdrawn laws host pool env info lender limit commit_funds h).withdrawn in
      let grows =
        accrual-Grows laws pool.reserve env.block_time pool.contract.rate_params v.accrued_bound
          e.accrues in
      let (backed, supply) =
        (execute_burn_from-IsBacked laws host token from_pool owner amount a.backed).at minted
          run in
      let messages = sym sent ∙ e.sends in
      let amount_eq : amount ≡ e.payout.scaled_to_burn = cc in
      let liquidity = ap (λ (x : Pool). x.reserve.total_scaled_liquidity) e.writes in
      record {
        backed = backed;
        supply =
            omega (
              arith, supply, amount_eq, liquidity, a.supply, e.burned, grows.same_scaled_liquidity,
            );
      }
