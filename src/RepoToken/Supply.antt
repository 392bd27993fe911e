-- ===== src/RepoToken/Supply.antt =====
-- The supply of the repo token: contracts/repo_token_cw20/src/execute.rs.
use democratized_prime_smart.Map
use democratized_prime_smart.Access.{of_check}
use democratized_prime_smart.Configuration.{is_renounce}
use democratized_prime_smart.Cosmwasm.{Cosmwasm, IsCosmwasm}
use democratized_prime_smart.Host.{Env, Host, MessageInfo, no_funds}
use democratized_prime_smart.Map.{Map}
use democratized_prime_smart.Map.Sums.{sum, sum-insert, sum-store}
use democratized_prime_smart.Prelude.{
  Ensures, Ensures->>=, Ensures-ensure, Ensures-ok, Ensures-or_err, List, arith, leb, not, ok, some,
  ℕ, ◌+◌, ◌==◌, ◌≡◌,
}
use democratized_prime_smart.RepoToken.{
  Cw20Receive, Token, TokenMsg, address_or, apply_burn, burn_from_msg, burn_msg, credit, debit,
  ensure_send_allowed, ensure_transfer_allowed, execute_burn, execute_burn_from, execute_mint,
  execute_send, execute_token, execute_transfer, execute_update_config, mint_msg, move_tokens,
  send_msg, transfer_msg, update_config_msg, update_token_ownership_msg,
}

-- The balances sum to the supply.
abbrev pub IsBacked : Token → Type 0
IsBacked token = sum token.balances ≡ token.total_supply

module _ ⦃c : Cosmwasm⦄ (laws : IsCosmwasm c) where
  debit_sum :
      (balances : Map ℕ) (account amount : ℕ)
      → Ensures (λ m. sum m + amount ≡ sum balances) (debit balances account amount)
  unfolding debit
  debit_sum balances account amount =
      let current = Map.get account balances in
      Ensures-ensure (leb amount current) _ _ λ enough.
        Ensures-or_err (c.uint128_checked_sub current amount) _ _ λ left el.
          let left_eq : left + amount ≡ current =
            ground (arith, laws.uint128_sub_law current amount) in
          Ensures-ok _ (omega (arith, sum-store account left balances, left_eq))

  credit_sum :
      (balances : Map ℕ) (account amount : ℕ)
      → Ensures (λ m. sum m ≡ sum balances + amount) (credit balances account amount)
  unfolding credit
  credit_sum balances account amount =
      let current = Map.get account balances in
      Ensures-or_err (c.uint128_checked_add current amount) _ _ λ next en.
        let next_eq : next ≡ current + amount =
          ground (arith, laws.uint128_add_law current amount) in
        Ensures-ok _ (omega (arith, sum-insert account next balances, next_eq))

  move_tokens-IsBacked :
      (token : Token) (sender recipient amount : ℕ)
      → IsBacked token
      → Ensures IsBacked (move_tokens token sender recipient amount)
  unfolding move_tokens
  move_tokens-IsBacked token sender recipient amount b =
      Ensures->>= (debit token.balances sender amount) _ λ debited ed.
        Ensures->>= (credit debited recipient amount) _ λ credited ec. Ensures-ok _ (
          omega (
            arith,
            (debit_sum token.balances sender amount).at debited ed,
            (credit_sum debited recipient amount).at credited ec,
          ))

  apply_burn-IsBacked :
      (token : Token) (owner amount : ℕ)
      → IsBacked token
      → Ensures
          (λ t. IsBacked t × (t.total_supply + amount ≡ token.total_supply))
          (apply_burn token owner amount)
  unfolding apply_burn
  apply_burn-IsBacked token owner amount b =
      Ensures->>= (debit token.balances owner amount) _ λ debited ed.
        Ensures-or_err (c.uint128_checked_sub token.total_supply amount) _ _ λ supply es.
          let supply_eq : supply + amount ≡ token.total_supply =
            ground (arith, laws.uint128_sub_law token.total_supply amount) in
          Ensures-ok _ (
            omega (arith, (debit_sum token.balances owner amount).at debited ed, supply_eq),
            supply_eq,
          )

  module _ (host : Host) where
    pub execute_mint-IsBacked :
        (token : Token) (info : MessageInfo) (recipient amount : ℕ)
        → IsBacked token
        → Ensures
            (λ out. IsBacked out.0 × (out.0.total_supply ≡ token.total_supply + amount))
            (execute_mint host token info recipient amount)
    unfolding execute_mint
    execute_mint-IsBacked token info recipient amount b =
        Ensures-ensure (info.sender == token.minter) _ _ λ _.
          Ensures-or_err (host.addr_validate recipient) _ _ λ to _.
            Ensures-ensure (not (amount == 0)) _ _ λ _.
              Ensures->>= (credit token.balances to amount) _ λ credited ec.
                Ensures-or_err (c.uint128_checked_add token.total_supply amount) _ _ λ supply es.
                  let supply_eq : supply ≡ token.total_supply + amount =
                    ground (arith, laws.uint128_add_law token.total_supply amount) in
                  Ensures-ok _ (
                    omega (arith, (credit_sum token.balances to amount).at credited ec, supply_eq),
                    supply_eq,
                  )

    pub execute_burn_from-IsBacked :
        (token : Token) (info : MessageInfo) (owner amount : ℕ)
        → IsBacked token
        → Ensures
            (λ out. IsBacked out.0 × (out.0.total_supply + amount ≡ token.total_supply))
            (execute_burn_from host token info owner amount)
    unfolding execute_burn_from
    execute_burn_from-IsBacked token info owner amount b =
        Ensures-ensure (info.sender == token.minter) _ _ λ _.
          Ensures-ensure (not (amount == 0)) _ _ λ _.
            Ensures-or_err (host.addr_validate owner) _ _ λ owner_addr _.
              Ensures->>= (apply_burn token owner_addr amount) _ λ token' e.
                Ensures-ok _ ((apply_burn-IsBacked token owner_addr amount b).at token' e)

    execute_token-Ensures :
        (token : Token) (env : Env) (info : MessageInfo) (msg : TokenMsg)
        → IsBacked token
        → Ensures (λ out. IsBacked out.0) (execute_token host token env info msg)
    unfolding execute_token execute_burn execute_burn_from execute_transfer execute_send
        execute_update_config
    execute_token-Ensures token env info (mint_msg recipient amount) b = record {
      at = λ out h. ((execute_mint-IsBacked token info recipient amount b).at out h).0;
    }
    execute_token-Ensures token env info (burn_msg amount) b =
        Ensures-ensure (info.sender == token.minter) _ _ λ _.
          Ensures-ensure (not (amount == 0)) _ _ λ _.
            Ensures->>= (apply_burn token info.sender amount) _ λ token' e.
              Ensures-ok _ ((apply_burn-IsBacked token info.sender amount b).at token' e).0
    execute_token-Ensures token env info (burn_from_msg owner amount) b =
        Ensures-ensure (info.sender == token.minter) _ _ λ _.
          Ensures-ensure (not (amount == 0)) _ _ λ _.
            Ensures-or_err (host.addr_validate owner) _ _ λ owner_addr _.
              Ensures->>= (apply_burn token owner_addr amount) _ λ token' e.
                Ensures-ok _ ((apply_burn-IsBacked token owner_addr amount b).at token' e).0
    execute_token-Ensures token env info (transfer_msg recipient amount) b =
        Ensures-ensure (not (amount == 0)) _ _ λ _.
          Ensures-or_err (host.addr_validate recipient) _ _ λ to _.
            Ensures->>= (ensure_transfer_allowed token info.sender to) _ λ _ _.
              Ensures->>= (move_tokens token info.sender to amount) _ λ token' e.
                Ensures-ok _ ((move_tokens-IsBacked token info.sender to amount b).at token' e)
    execute_token-Ensures token env info (send_msg contract amount payload) b =
        Ensures-ensure (not (amount == 0)) _ _ λ _.
          Ensures-or_err (host.addr_validate contract) _ _ λ to _.
            Ensures->>= (ensure_send_allowed token to) _ λ _ _.
              Ensures->>= (move_tokens token info.sender to amount) _ λ token' e.
                Ensures-ok _ ((move_tokens-IsBacked token info.sender to amount b).at token' e)
    execute_token-Ensures token env info (update_config_msg minter pool_address) b =
        Ensures->>= (of_check (host.assert_owner token.ownership info.sender)) _ λ _ _.
          Ensures->>= (address_or host minter (some token.minter)) _ λ _ _.
            Ensures->>= (address_or host pool_address token.pool_address) _ λ _ _. Ensures-ok _ b
    execute_token-Ensures token env info (update_token_ownership_msg action) b =
        Ensures-ensure (no_funds info) _ _ λ _. Ensures-ensure (not (is_renounce action)) _ _ λ _.
          Ensures-or_err (host.update_ownership token.ownership env info.sender action) _ _
            λ o _. Ensures-ok _ b

    -- Whatever message goes through, if the balances sum to the supply before, they sum to it after.
    pub execute_token-IsBacked :
        (token : Token) (env : Env) (info : MessageInfo) (msg : TokenMsg)
        {out : Token × List Cw20Receive}
        → IsBacked token
        → execute_token host token env info msg ≡ ok out
        → IsBacked out.0
    execute_token-IsBacked token env info msg {out} b h =
        (execute_token-Ensures token env info msg b).at out h
