-- ===== src/Fixtures.antt =====
-- Concrete numbers of `cosmwasm_std` by their documented behaviour, and a concrete chain and pool.
use democratized_prime_smart.Contract.{ContractState, active, deferred_to_deficit, liquidator_only}
use democratized_prime_smart.Cosmwasm.{Cosmwasm, IsCosmwasm, decimal_one, fit, nonzero, u128_size}
use democratized_prime_smart.Host.{
  AssetPrice, Env, Host, IsOwnable, MessageInfo, OwnershipCheck, allowed, no_owner, not_owner,
}
use democratized_prime_smart.Pool.{Pool}
use democratized_prime_smart.Pool.Invariant.{IsValid}
use democratized_prime_smart.Prelude.{
  Bool, Option, Result, [], arith, err, false, if◌then◌else◌, leb, ltb, none, ok, refl, some, true,
  ℕ, ◌%◌, ◌*◌, ◌+◌, ◌-◌, ◌/◌, ◌==◌, ◌^◌, ◌↔◌, ◌∷◌, ◌≡◌,
}
use democratized_prime_smart.RateParams.{FeeModel, RateParams}
use democratized_prime_smart.Reserve.{ReserveState}
use democratized_prime_smart.Responses.{Outcome, Response}

instance abbrev pub reference : Cosmwasm
reference = record {
  checked_add = λ a b. fit (a + b);
  checked_sub = λ a b. if leb b a then some (a - b) else none;
  checked_mul = λ a b. fit (a * b / decimal_one);
  checked_div = λ a b. nonzero b (fit (a * decimal_one / b));
  saturating_sub = λ a b. a - b;
  from_ratio = λ a b. nonzero b (fit (a * decimal_one / b));
  checked_from_ratio = λ a b. nonzero b (fit (a * decimal_one / b));
  from_atomics = λ a places. if places == 0 then fit (a * decimal_one) else none;
  uint_checked_add = λ a b. fit (a + b);
  uint_checked_mul = λ a b. fit (a * b);
  uint_checked_div = λ a b. nonzero b (some (a / b));
  uint_checked_rem = λ a b. nonzero b (some (a % b));
  uint_checked_pow = λ a b. fit (a ^ b);
  uint128_checked_add = λ a b. if ltb (a + b) u128_size then some (a + b) else none;
  uint128_checked_sub = λ a b. if leb b a then some (a - b) else none;
  seconds = λ t. t / 1_000_000_000;
}

pub reference-IsCosmwasm : IsCosmwasm reference
reference-IsCosmwasm = record {
  add_law = λ a b. refl;
  sub_law = λ a b. refl;
  mul_law = λ a b. refl;
  div_law = λ a b. refl;
  saturating_sub_law = λ a b. refl;
  from_ratio_law = λ a b. refl;
  checked_from_ratio_law = λ a b. refl;
  from_atomics_law = λ a. refl;
  uint_add_law = λ a b. refl;
  uint_mul_law = λ a b. refl;
  uint_div_law = λ a b. refl;
  uint_rem_law = λ a b. refl;
  uint_pow_law = λ a b. refl;
  uint128_add_law = λ a b. refl;
  uint128_sub_law = λ a b. refl;
  seconds_law = λ t. refl;
}

-- 1%, 8% at 80% utilization, 30%, and a tenth of the interest for the protocol
abbrev pub params : RateParams
params = record {
  target_rate = 80_000_000_000_000_000;
  min_rate = 10_000_000_000_000_000;
  max_rate = 300_000_000_000_000_000;
  kink_utilization = 800_000_000_000_000_000;
  reserve_factor = 100_000_000_000_000_000;
  fee_model = FeeModel.reserve_factor;
  flat_fee_apr = 0;
  seconds_per_year = 31_536_000;
}

abbrev pub contract : ContractState
contract = record {
  repo_token_cw20_address = some 5;
  lending_denom = record { name = 1; precision = 6 };
  rate_params = params;
  lender_required_attrs = [];
  borrower_required_attrs = [];
  price_oracle_address = 7;
  max_borrower_collateral_types = 3;
  margin_rate = 800_000_000_000_000_000;
  liquidation_rate = 900_000_000_000_000_000;
  liquidation_bonus_rate = 1_050_000_000_000_000_000;
  min_lend = 100;
  min_borrow = 100;
  supported_collateral_assets =
      record { asset_id = 2; haircut = some 900_000_000_000_000_000 } ∷ [];
  operational_state = active;
  commit_market_id = none;
  bad_debt_loss_allocation = deferred_to_deficit;
  custodian = some 11;
  liquidator = some 9;
  max_liquidation_staleness_seconds = 3_600;
  liquidation_access = liquidator_only;
}

abbrev pub reserve : ReserveState
reserve = record {
  liquidity_index = 1_050_000_000_000_000_000;
  borrow_index = 1_100_000_000_000_000_000;
  last_updated_at = 0;
  total_scaled_liquidity = 1_000_000;
  total_scaled_borrow = 200_000;
  accrued_reserve = 5_000;
  deficit_underlying = 0;
}

-- one borrower, 20, and the owner, 10
abbrev pub pool : Pool
pool = record {
  contract = contract;
  reserve = reserve;
  ownership = record { owner = some 10; pending_owner = none };
  scaled_borrow = (20, 200_000) ∷ [];
  borrower_collateral = (20, (2, 1_000_000) ∷ []) ∷ [];
  total_collateral_by_asset = (2, 1_000_000) ∷ [];
  borrower_require_commit = [];
  lender_require_commit = [];
  directed_sale_offer = [];
  directed_sale_version = [];
}

-- the same with a deficit
abbrev pub short_pool : Pool
short_pool = record pool { reserve = record reserve { deficit_underlying = 1_000 } }

-- a day later
abbrev pub env : Env
env = record { block_time = 86_400_000_000_000; contract_address = 30 }

-- one dollar for a million base units
abbrev dollar : AssetPrice
dollar = record {
  price_usd = 1_000_000_000_000;
  display_price_usd = 1_000_000_000_000_000_000;
  precision = 6;
  as_of_epoch_second = 80_000;
  expiration_epoch_seconds = 90_000;
}

abbrev pub price : AssetPrice
price = dollar

abbrev check_owner : Option ℕ → ℕ → OwnershipCheck
check_owner none sender = no_owner
check_owner (some owner) sender = if owner == sender then allowed else not_owner

abbrev owns : Option ℕ → ℕ → Bool
owns none sender = false
owns (some owner) sender = owner == sender

abbrev pub host : Host
host = record {
  trim = λ address. address;
  addr_validate = λ address. some address;
  is_blank = λ text. text == 0;
  assert_owner = λ o sender. check_owner o.owner sender;
  is_owner = λ o sender. some (owns o.owner sender);
  update_ownership = λ o env sender action. some o;
  attribute = λ account name. some [];
  scan = λ account suffix key. none;
  query_balance = λ account denom. some 900_000;
  scaled_balance = λ token account. some 500_000;
  get_prices_by_asset = λ oracle ids display. some ((1, dollar) ∷ (2, dollar) ∷ []);
}

check_owner_iff : (o : Option ℕ) (sender : ℕ) → (check_owner o sender ≡ allowed) ↔ (o ≡ some sender)
check_owner_iff none sender = ground arith
check_owner_iff (some owner) sender = ground arith

owns_iff :
    (o : Option ℕ) (sender : ℕ)
    → (◌≡◌ {A = Option Bool} (some (owns o sender)) (some true)) ↔ (o ≡ some sender)
owns_iff none sender = ground arith
owns_iff (some owner) sender = ground arith

pub host-IsOwnable : IsOwnable host
host-IsOwnable = record {
  allowed_iff = λ o sender. check_owner_iff o.owner sender;
  is_owner_iff = λ o sender. owns_iff o.owner sender;
}

abbrev pub sends : ℕ → ℕ → MessageInfo
sends sender amount = record { sender = sender; funds = record { denom = 1; amount = amount } ∷ [] }

abbrev pub calls : ℕ → MessageInfo
calls sender = record { sender = sender; funds = [] }

abbrev pub outcome : Outcome → Pool × Response
outcome (ok out) = out
outcome (err _) = (pool, record { messages = []; rates = none })

pub pool-IsValid : IsValid pool
pool-IsValid = record {
  borrow_total = refl;
  liquidity_bound = omega arith;
  borrow_bound = omega arith;
  accrued_bound = omega arith;
  deficit_bound = omega arith;
  collateral_total = λ asset. ground arith;
  debts_sorted = ground arith;
  totals_sorted = ground arith;
  borrowers_sorted = ground arith;
  holdings_sorted = ground arith;
}

pub short_pool-IsValid : IsValid short_pool
short_pool-IsValid = record {
  borrow_total = refl;
  liquidity_bound = omega arith;
  borrow_bound = omega arith;
  accrued_bound = omega arith;
  deficit_bound = omega arith;
  collateral_total = λ asset. ground arith;
  debts_sorted = ground arith;
  totals_sorted = ground arith;
  borrowers_sorted = ground arith;
  holdings_sorted = ground arith;
}

-- the value of a result, or another
abbrev pub value_of {ℓ} : {A : Type ℓ} → A → Result A → A
value_of d (ok a) = a
value_of d (err _) = d
