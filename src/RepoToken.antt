-- ===== src/RepoToken.antt =====
-- The repo token: contracts/repo_token_cw20/src/execute.rs and state.rs. Of `TokenInfo` the supply
-- is kept; a payload that is passed on is opaque.
pub mod Delivery
pub mod Supply
use democratized_prime_smart.Map
use democratized_prime_smart.Access.{of_check}
use democratized_prime_smart.Configuration.{is_renounce}
use democratized_prime_smart.Cosmwasm.{Cosmwasm}
use democratized_prime_smart.Host.{Env, Host, MessageInfo, Ownership, OwnershipAction, no_funds}
use democratized_prime_smart.Map.{Map}
use democratized_prime_smart.Prelude.{
  List, Option, Result, [], ensure, get_or, illegal_argument, invalid_funds, leb, none, not,
  not_authorized, ok, or_err, overflow_error, ownership, pool_not_configured, some, std, ℕ, ◌==◌,
  ◌>>=◌, ◌>>◌, ◌∷◌,
}

pub record Token : Type 0 where
  pub total_supply : ℕ
  pub minter : ℕ
  pub pool_address : Option ℕ
  pub balances : Map ℕ
  pub ownership : Ownership

-- the message that `Send` makes: the pool's `Receive`
pub record Cw20Receive : Type 0 where
  pub contract_addr : ℕ
  pub sender : ℕ
  pub amount : ℕ
  pub payload : ℕ

pub data TokenMsg : Type 0 where
  update_token_ownership_msg : OwnershipAction → TokenMsg
  mint_msg transfer_msg burn_from_msg : ℕ → ℕ → TokenMsg
  burn_msg : ℕ → TokenMsg
  send_msg : ℕ → ℕ → ℕ → TokenMsg
  update_config_msg : Option ℕ → Option ℕ → TokenMsg

abbrev TokenOutcome : Type 0
TokenOutcome = Result (Token × List Cw20Receive)

abbrev pub balance_of : Token → ℕ → ℕ
balance_of token account = Map.get account token.balances

only_minter : Token → ℕ → Result (Unit {0})
only_minter token sender = ensure (sender == token.minter) not_authorized

ensure_send_allowed : Token → ℕ → Result (Unit {0})
ensure_send_allowed token recipient = do
  pool ← or_err token.pool_address pool_not_configured
  ensure (recipient == pool) illegal_argument

ensure_transfer_allowed : Token → ℕ → ℕ → Result (Unit {0})
ensure_transfer_allowed token sender recipient = do
  pool ← or_err token.pool_address pool_not_configured
  ensure (sender == pool) illegal_argument
  ensure (not (recipient == pool)) illegal_argument

module _ ⦃c : Cosmwasm⦄ where
  open c use {uint128_checked_add, uint128_checked_sub}

  -- an amount leaves an account; an empty balance is removed
  unfoldable pub debit : Map ℕ → ℕ → ℕ → Result (Map ℕ)
  debit balances account amount = do
    let current = Map.get account balances
    ensure (leb amount current) illegal_argument
    updated_balance ← or_err (uint128_checked_sub current amount) overflow_error
    ok (Map.store account updated_balance balances)

  unfoldable pub credit : Map ℕ → ℕ → ℕ → Result (Map ℕ)
  credit balances account amount = do
    updated_balance ← or_err (uint128_checked_add (Map.get account balances) amount) overflow_error
    ok (Map.insert account updated_balance balances)

  unfoldable pub apply_burn : Token → ℕ → ℕ → Result Token
  apply_burn token owner amount = do
    balances ← debit token.balances owner amount
    supply ← or_err (uint128_checked_sub token.total_supply amount) overflow_error
    ok (record token { balances = balances; total_supply = supply })

  -- from one account to another
  unfoldable pub move_tokens : Token → ℕ → ℕ → ℕ → Result Token
  move_tokens token sender recipient amount = do
    debited ← debit token.balances sender amount
    credited ← credit debited recipient amount
    ok (record token { balances = credited })

module _ ⦃c : Cosmwasm⦄ (host : Host) where
  open c use {uint128_checked_add}

  unfoldable pub execute_mint : Token → MessageInfo → ℕ → ℕ → TokenOutcome
  unfolding only_minter
  execute_mint token info recipient amount = do
    only_minter token info.sender
    to ← or_err (host.addr_validate recipient) std
    ensure (not (amount == 0)) illegal_argument
    balances ← credit token.balances to amount
    supply ← or_err (uint128_checked_add token.total_supply amount) overflow_error
    ok (record token { balances = balances; total_supply = supply }, [])

  unfoldable pub execute_burn : Token → MessageInfo → ℕ → TokenOutcome
  unfolding only_minter
  execute_burn token info amount = do
    only_minter token info.sender
    ensure (not (amount == 0)) illegal_argument
    token' ← apply_burn token info.sender amount
    ok (token', [])

  unfoldable pub execute_burn_from : Token → MessageInfo → ℕ → ℕ → TokenOutcome
  unfolding only_minter
  execute_burn_from token info owner amount = do
    only_minter token info.sender
    ensure (not (amount == 0)) illegal_argument
    owner_addr ← or_err (host.addr_validate owner) std
    token' ← apply_burn token owner_addr amount
    ok (token', [])

  unfoldable pub execute_transfer : Token → MessageInfo → ℕ → ℕ → TokenOutcome
  unfolding ensure_transfer_allowed
  execute_transfer token info recipient amount = do
    ensure (not (amount == 0)) illegal_argument
    to ← or_err (host.addr_validate recipient) std
    ensure_transfer_allowed token info.sender to
    token' ← move_tokens token info.sender to amount
    ok (token', [])

  unfoldable pub execute_send : Token → MessageInfo → ℕ → ℕ → ℕ → TokenOutcome
  unfolding ensure_send_allowed
  execute_send token info contract amount payload = do
    ensure (not (amount == 0)) illegal_argument
    contract_addr ← or_err (host.addr_validate contract) std
    ensure_send_allowed token contract_addr
    token' ← move_tokens token info.sender contract_addr amount
    ok (
      token',
      record { contract_addr = contract; sender = info.sender; amount = amount; payload = payload }
          ∷ [],
    )

  -- an address that is set, or the one there was
  address_or : Option ℕ → Option ℕ → Result (Option ℕ)
  address_or none current = ok current
  address_or (some address) current = do a ← or_err (host.addr_validate address) std; ok (some a)

  unfoldable pub execute_update_config : Token → MessageInfo → Option ℕ → Option ℕ → TokenOutcome
  unfolding address_or
  execute_update_config token info minter pool_address = do
    of_check (host.assert_owner token.ownership info.sender)
    new_minter ← address_or minter (some token.minter)
    new_pool_address ← address_or pool_address token.pool_address
    ok (
      record token { minter = get_or token.minter new_minter; pool_address = new_pool_address },
      [],
    )

  -- `update_ownership` of packages/lib/src/common/ownership.rs
  update_token_ownership : Token → Env → MessageInfo → OwnershipAction → TokenOutcome
  unfolding is_renounce
  update_token_ownership token env info action = do
    ensure (no_funds info) invalid_funds
    ensure (not (is_renounce action)) illegal_argument
    ownership' ← or_err (host.update_ownership token.ownership env info.sender action) ownership
    ok (record token { ownership = ownership' }, [])

  unfoldable pub execute_token : Token → Env → MessageInfo → TokenMsg → TokenOutcome
  unfolding update_token_ownership
  execute_token token env info (update_token_ownership_msg action) =
      update_token_ownership token env info action
  execute_token token env info (mint_msg recipient amount) =
      execute_mint token info recipient amount
  execute_token token env info (burn_msg amount) = execute_burn token info amount
  execute_token token env info (burn_from_msg owner amount) =
      execute_burn_from token info owner amount
  execute_token token env info (transfer_msg recipient amount) =
      execute_transfer token info recipient amount
  execute_token token env info (send_msg contract amount payload) =
      execute_send token info contract amount payload
  execute_token token env info (update_config_msg minter pool_address) =
      execute_update_config token info minter pool_address
