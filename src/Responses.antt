-- ===== src/Responses.antt =====
-- What a handler returns beside the new storage: contracts/pool_v2/src/response.rs and
-- utils/response_ext.rs. Of the event attributes the rates alone are kept, whose computation can fail.
pub mod Commits
use democratized_prime_smart.Accrual.{compute_effective_reserve}
use democratized_prime_smart.Contract.{ContractState}
use democratized_prime_smart.Cosmwasm.{Cosmwasm}
use democratized_prime_smart.Host.{Coin, Env, Msg, commit_funds_request}
use democratized_prime_smart.Pool.{Pool, set_reserve_state}
use democratized_prime_smart.Prelude.{
  Bool, List, Option, Result, [], false, illegal_argument, none, ok, or_err, some, true, ℕ, ◌>>=◌,
  ◌∷◌,
}
use democratized_prime_smart.RateParams.{RateParams}
use democratized_prime_smart.Rates.{borrower_rate_from_utilization, lender_rate_from_utilization}
use democratized_prime_smart.Reserve.{ReserveState, utilization}

pub record RateValues : Type 0 where
  pub lend_rate : ℕ
  pub borrow_rate : ℕ
  pub liquidity_index : ℕ
  pub borrow_index : ℕ
  pub utilization : ℕ

pub record Response : Type 0 where
  pub messages : List Msg
  pub rates : Option RateValues

-- a response with nothing to send
abbrev pub no_response : Response
no_response = record { messages = []; rates = none }

-- the outcome of a handler: an error reverts every write
abbrev pub Outcome : Type 0
Outcome = Result (Pool × Response)

module _ ⦃c : Cosmwasm⦄ where
  unfoldable pub lend_borrow_rate_attribute_values : ReserveState → RateParams → Result RateValues
  lend_borrow_rate_attribute_values reserve p = do
    u ← utilization reserve
    new_borrower_rate ← borrower_rate_from_utilization p u
    new_lender_rate ← lender_rate_from_utilization p u new_borrower_rate
    ok (record {
      lend_rate = new_lender_rate;
      borrow_rate = new_borrower_rate;
      liquidity_index = reserve.liquidity_index;
      borrow_index = reserve.borrow_index;
      utilization = u;
    })

  -- the end of a handler: `attach_rates` on the messages, with the storage written
  unfoldable pub attach_rates : Pool → List Msg → ReserveState → RateParams → Outcome
  attach_rates pool messages reserve p = do
    rates ← lend_borrow_rate_attribute_values reserve p
    ok (pool, record { messages = messages; rates = some rates })

unfoldable pub new_commit_message : ContractState → ℕ → ℕ → List Coin → Result Msg
new_commit_message contract contract_address account funds = do
  market_id ← or_err contract.commit_market_id illegal_argument
  ok (commit_funds_request contract_address market_id account funds)

-- the commit message where it is asked for
unfoldable pub commit_if : Bool → ContractState → ℕ → ℕ → List Coin → Result (List Msg)
unfolding new_commit_message
commit_if false contract contract_address account funds = ok []
commit_if true contract contract_address account funds = do
  msg ← new_commit_message contract contract_address account funds
  ok (msg ∷ [])

module _ ⦃c : Cosmwasm⦄ where
  -- `update_reserve_indexes`: accrue to the time of the block, and store
  unfoldable pub update_reserve_indexes : Pool → Env → RateParams → Result (Pool × ReserveState)
  update_reserve_indexes pool env p = do
    reserve ← compute_effective_reserve pool.reserve env.block_time p
    ok (set_reserve_state pool reserve, reserve)
