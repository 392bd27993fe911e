-- ===== src/Tests/Settings.antt =====
-- The start, the configuration, the paused pool and the repo token on concrete states, and the theorems about them
-- there.
use democratized_prime_smart.Access.{assert_custodian}
use democratized_prime_smart.Attributes.Patterns.{
  validate_required_attr_pattern, validate_required_attr_patterns,
}
use democratized_prime_smart.Configuration.{
  assert_owner_or_custodian, set_operational_state, validate_asset,
}
use democratized_prime_smart.Configuration.Effects.{SettingsOnly}
use democratized_prime_smart.Configuration.Soundness.{
  IsSound, Reconfigured, update_contract_config-Reconfigured,
}
use democratized_prime_smart.Configuration.Update.{
  UpdateContractConfigParams, allocation_of, check_config, nonzero_or, raised,
  update_contract_config, updated,
}
use democratized_prime_smart.Contract.{
  active, deferred_to_deficit, ensure_permissionless_config, liquidator_only, paused,
}
use democratized_prime_smart.Dispatch.{
  allowed_when_paused, disabled_when_frozen, dispatch, execute, set_operational_state_msg,
  update_contract_config_msg,
}
use democratized_prime_smart.Dispatch.Paused.{execute_paused}
use democratized_prime_smart.Fixtures.{
  calls, contract, env, host, outcome, params, pool, pool-IsValid, reference, reference-IsCosmwasm,
}
use democratized_prime_smart.Instantiation.{
  InstantiateMsg, RepoInstantiate, check_assets, check_rates, existing, instantiate_contract, reply,
  repo_token_of, validate_denom,
}
use democratized_prime_smart.Instantiation.Start.{Started, instantiate-Started}
use democratized_prime_smart.Pool.{Pool}
use democratized_prime_smart.Prelude.{
  List, Option, Result, [], arith, err, illegal_argument, illegal_state, inl, none, ok, refl, some,
  true, ℕ, ◌∷◌, ◌≡◌,
}
use democratized_prime_smart.RateParams.{validate}
use democratized_prime_smart.RepoToken.{
  Cw20Receive, Token, apply_burn, burn_from_msg, debit, execute_burn_from, execute_token,
}
use democratized_prime_smart.RepoToken.Supply.{IsBacked, execute_token-IsBacked}
use democratized_prime_smart.Responses.{Response}
use democratized_prime_smart.Steps.{executes, here, then_step}
use democratized_prime_smart.Steps.Soundness.{Reaches-IsSound}

abbrev no_params : UpdateContractConfigParams
no_params = record {
  margin_rate = none;
  liquidation_rate = none;
  liquidation_bonus_rate = none;
  price_oracle_address = none;
  min_lend = none;
  min_borrow = none;
  max_borrower_collateral_types = none;
  commit_market_id = none;
  bad_debt_loss_allocation = none;
  custodian = none;
  liquidator = none;
  max_liquidation_staleness_seconds = none;
  liquidation_access = none;
}

abbrev higher : UpdateContractConfigParams
higher = record no_params { liquidation_rate = some 950_000_000_000_000_000 }

abbrev reconfigured : Pool × Response
reconfigured = outcome (update_contract_config host pool (calls 11) higher)

reconfigured_run : update_contract_config host pool (calls 11) higher ≡ ok reconfigured
unfolding update_contract_config updated check_config raised nonzero_or allocation_of
    ensure_permissionless_config assert_custodian
reconfigured_run = refl

update_contract_config-Reconfigured_example : Reconfigured pool 11 reconfigured.0
update_contract_config-Reconfigured_example =
    update_contract_config-Reconfigured reference-IsCosmwasm host pool (calls 11) higher
      reconfigured_run

abbrev paused_pool : Pool
paused_pool = record pool { contract = record contract { operational_state = paused } }

abbrev resumed : Pool × Response
resumed = outcome (execute host paused_pool env (calls 11) (set_operational_state_msg active))

resumed_run :
    execute host paused_pool env (calls 11) (set_operational_state_msg active) ≡ ok resumed
unfolding execute dispatch allowed_when_paused disabled_when_frozen set_operational_state
    assert_owner_or_custodian assert_custodian
resumed_run = refl

execute_paused_example :
    (allowed_when_paused (set_operational_state_msg active) ≡ true)
    × SettingsOnly paused_pool env resumed
execute_paused_example =
    execute_paused host paused_pool env (calls 11) (set_operational_state_msg active) refl
      resumed_run

-- the pool, 30, is the minter
abbrev token : Token
token = record {
  total_supply = 900;
  minter = 30;
  pool_address = some 30;
  balances = (20, 400) ∷ (21, 500) ∷ [];
  ownership = record { owner = some 10; pending_owner = none };
}

abbrev token_outcome : Result (Token × List Cw20Receive) → Token × List Cw20Receive
token_outcome (ok out) = out
token_outcome (err _) = (token, [])

abbrev burned : Token × List Cw20Receive
burned = token_outcome (execute_token host token env (calls 30) (burn_from_msg 20 400))

burned_run : execute_token host token env (calls 30) (burn_from_msg 20 400) ≡ ok burned
unfolding execute_token execute_burn_from apply_burn debit
burned_run = refl

execute_token-IsBacked_example : IsBacked burned.0
execute_token-IsBacked_example =
    execute_token-IsBacked reference-IsCosmwasm host token env (calls 30) (burn_from_msg 20 400)
      refl burned_run

-- `*.kyb.pb`, and a star that stands elsewhere
abbrev wildcard : List ℕ
wildcard = b'*' ∷ b'.' ∷ b'k' ∷ b'.' ∷ b'p' ∷ []

wildcard_accepted : validate_required_attr_patterns (wildcard ∷ []) ≡ ok tt
unfolding validate_required_attr_patterns validate_required_attr_pattern
wildcard_accepted = refl

star_refused : validate_required_attr_patterns ((b'k' ∷ b'*' ∷ []) ∷ []) ≡ err illegal_argument
unfolding validate_required_attr_patterns validate_required_attr_pattern
star_refused = refl

abbrev start_msg : InstantiateMsg
start_msg = record {
  contract_name = 3;
  repo_token = existing 5;
  lending_denom = contract.lending_denom;
  rate_params = params;
  lender_required_attrs = wildcard ∷ [];
  borrower_required_attrs = [];
  price_oracle_address = 7;
  max_borrower_collateral_types = 3;
  margin_rate = 800_000_000_000_000_000;
  liquidation_rate = 900_000_000_000_000_000;
  liquidation_bonus_rate = 1_050_000_000_000_000_000;
  min_lend = 100;
  min_borrow = 100;
  supported_collateral_assets = contract.supported_collateral_assets;
  commit_market_id = none;
  bad_debt_loss_allocation = deferred_to_deficit;
  custodian = 11;
  liquidator = 9;
  max_liquidation_staleness_seconds = 3_600;
  liquidation_access = liquidator_only;
}

abbrev start_outcome : Result (Pool × Option RepoInstantiate) → Pool × Option RepoInstantiate
start_outcome (ok out) = out
start_outcome (err _) = (pool, none)

abbrev started : Pool × Option RepoInstantiate
started = start_outcome (instantiate_contract host env (calls 10) start_msg)

started_run : instantiate_contract host env (calls 10) start_msg ≡ ok started
unfolding instantiate_contract check_assets repo_token_of validate_denom validate check_rates
    validate_asset ensure_permissionless_config validate_required_attr_patterns
    validate_required_attr_pattern
started_run = refl

instantiate-Started_example : Started 10 started.0
instantiate-Started_example =
    instantiate-Started reference-IsCosmwasm host env (calls 10) start_msg started_run

-- the token that a pool is created with is bound once
bound_once : reply host pool 1 (some 6) ≡ err illegal_state
unfolding reply
bound_once = refl

pool-IsSound : IsSound pool.contract pool.reserve.deficit_underlying
pool-IsSound = record {
  margin_some = omega arith;
  margin_below = omega arith;
  liquidation_at_most_one = omega arith;
  bonus_above_one = omega arith;
  bonus_room = omega arith;
  staleness_bound = omega arith;
  access = inl refl;
}

reconfigured_step :
    execute host pool env (calls 11) (update_contract_config_msg higher) ≡ ok reconfigured
unfolding execute dispatch allowed_when_paused disabled_when_frozen
reconfigured_step = reconfigured_run

Reaches-IsSound_example : IsSound reconfigured.0.contract reconfigured.0.reserve.deficit_underlying
Reaches-IsSound_example =
    Reaches-IsSound reference-IsCosmwasm host pool-IsValid pool-IsSound (
      then_step here
        (executes env (calls 11) (update_contract_config_msg higher) reconfigured_step))
