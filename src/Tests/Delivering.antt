-- ===== src/Tests/Delivering.antt =====
-- A deposit and a withdrawal, with the repo token that executes their messages.
use democratized_prime_smart.Access.{assert_owner}
use democratized_prime_smart.Accrual.{compute_effective_reserve}
use democratized_prime_smart.Attributes.{validate_account_attrs, validate_single_coin_denom}
use democratized_prime_smart.Contract.{repo_token_addr}
use democratized_prime_smart.Fixtures.{
  calls, env, host, outcome, pool, pool-IsValid, reference, reference-IsCosmwasm, sends,
}
use democratized_prime_smart.Host.{Msg, bank_send, burn_from, mint}
use democratized_prime_smart.Lending.{
  deduct_scaled_liquidity_and_save, execute_withdraw, lend, owner_payout,
}
use democratized_prime_smart.Pool.{Pool}
use democratized_prime_smart.Prelude.{List, Result, [], err, none, ok, refl, some, ◌∷◌, ◌≡◌}
use democratized_prime_smart.Rates.{
  borrower_rate_from_utilization, index_growth_factor, lender_rate_from_utilization,
  protocol_fee_rate, time_elapsed_seconds,
}
use democratized_prime_smart.RepoToken.{
  Cw20Receive, Token, apply_burn, burn_from_msg, credit, debit, execute_burn_from, execute_mint,
  execute_token, mint_msg,
}
use democratized_prime_smart.RepoToken.Delivery.{Agree, lend_then_mint, withdraw_then_burn}
use democratized_prime_smart.Reserve.{total_borrow, total_liquidity, utilization}
use democratized_prime_smart.Responses.{
  Response, attach_rates, commit_if, lend_borrow_rate_attribute_values, update_reserve_indexes,
}
use democratized_prime_smart.Scaling.{
  decimal_floor_to_u128, reserve_totals_and_cash_u128, scaled_to_underlying_borrow,
  scaled_to_underlying_liquidity, underlying_to_scaled_liquidity,
}

abbrev lent : Pool × Response
lent = outcome (lend host pool env (sends 21 1_000))

lent_run : lend host pool env (sends 21 1_000) ≡ ok lent
unfolding lend validate_account_attrs validate_single_coin_denom repo_token_addr
    underlying_to_scaled_liquidity update_reserve_indexes attach_rates
    lend_borrow_rate_attribute_values utilization compute_effective_reserve total_liquidity
    total_borrow borrower_rate_from_utilization lender_rate_from_utilization protocol_fee_rate
    index_growth_factor time_elapsed_seconds decimal_floor_to_u128
lent_run = refl

lent_sends : lent.1.messages ≡ mint 5 21 952 ∷ []
unfolding lend validate_account_attrs validate_single_coin_denom repo_token_addr
    underlying_to_scaled_liquidity update_reserve_indexes attach_rates
    lend_borrow_rate_attribute_values utilization compute_effective_reserve total_liquidity
    total_borrow borrower_rate_from_utilization lender_rate_from_utilization protocol_fee_rate
    index_growth_factor time_elapsed_seconds decimal_floor_to_u128
lent_sends = refl

abbrev withdrawn : Pool × Response
withdrawn = outcome (execute_withdraw host pool env (calls 10) 21 (some 1_000) none)

withdrawn_run : execute_withdraw host pool env (calls 10) 21 (some 1_000) none ≡ ok withdrawn
unfolding execute_withdraw owner_payout deduct_scaled_liquidity_and_save assert_owner
    repo_token_addr reserve_totals_and_cash_u128 scaled_to_underlying_liquidity
    scaled_to_underlying_borrow underlying_to_scaled_liquidity commit_if update_reserve_indexes
    attach_rates lend_borrow_rate_attribute_values utilization compute_effective_reserve
    total_liquidity total_borrow borrower_rate_from_utilization lender_rate_from_utilization
    protocol_fee_rate index_growth_factor time_elapsed_seconds decimal_floor_to_u128
withdrawn_run = refl

abbrev paid : List Msg
paid = bank_send 21 (record { denom = 1; amount = 999 } ∷ []) ∷ []

withdrawn_sends : withdrawn.1.messages ≡ burn_from 5 21 952 ∷ paid
unfolding execute_withdraw owner_payout deduct_scaled_liquidity_and_save assert_owner
    repo_token_addr reserve_totals_and_cash_u128 scaled_to_underlying_liquidity
    scaled_to_underlying_borrow underlying_to_scaled_liquidity commit_if update_reserve_indexes
    attach_rates lend_borrow_rate_attribute_values utilization compute_effective_reserve
    total_liquidity total_borrow borrower_rate_from_utilization lender_rate_from_utilization
    protocol_fee_rate index_growth_factor time_elapsed_seconds decimal_floor_to_u128
withdrawn_sends = refl

-- the token of the pool: 30 is the pool and the minter
abbrev token : Token
token = record {
  total_supply = pool.reserve.total_scaled_liquidity;
  minter = 30;
  pool_address = some 30;
  balances = (21, pool.reserve.total_scaled_liquidity) ∷ [];
  ownership = record { owner = some 10; pending_owner = none };
}

abbrev token_outcome : Result (Token × List Cw20Receive) → Token × List Cw20Receive
token_outcome (ok out) = out
token_outcome (err _) = (token, [])

abbrev minted : Token × List Cw20Receive
minted = token_outcome (execute_token host token env (calls 30) (mint_msg 21 952))

minted_run : execute_token host token env (calls 30) (mint_msg 21 952) ≡ ok minted
unfolding execute_token execute_mint credit
minted_run = refl

abbrev burned : Token × List Cw20Receive
burned = token_outcome (execute_token host token env (calls 30) (burn_from_msg 21 952))

burned_run : execute_token host token env (calls 30) (burn_from_msg 21 952) ≡ ok burned
unfolding execute_token execute_burn_from apply_burn debit
burned_run = refl

token-Agree : Agree pool token
token-Agree = record { backed = refl; supply = refl }

lend_then_mint_example : Agree lent.0 minted.0
lend_then_mint_example =
    lend_then_mint reference-IsCosmwasm host pool token env (sends 21 1_000) (calls 30) 5 21 952
      pool-IsValid token-Agree lent_run lent_sends minted_run

withdraw_then_burn_example : Agree withdrawn.0 burned.0
withdraw_then_burn_example =
    withdraw_then_burn reference-IsCosmwasm host pool token env (calls 10) (calls 30) 21
      (some 1_000) none 5 21 952 paid pool-IsValid token-Agree withdrawn_run withdrawn_sends
      burned_run
