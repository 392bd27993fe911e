-- ===== src/Steps/Handled.antt =====
-- What a message comes down to: `execute` of contracts/pool_v2/src/contract.rs and the handlers behind
-- `receive` of contracts/pool_v2/src/execute/receive.rs.
use democratized_prime_smart.Accrual.{compute_effective_reserve}
use democratized_prime_smart.Attributes.{validate_account_attrs}
use democratized_prime_smart.Contract.{repo_token_addr}
use democratized_prime_smart.Cosmwasm.{Cosmwasm, IsCosmwasm}
use democratized_prime_smart.Dispatch.{
  ExecuteMsg, allowed_when_paused, disabled_when_frozen, dispatch, execute, is_frozen, is_paused,
}
use democratized_prime_smart.Host.{Env, Host, MessageInfo, burn, token_transfer}
use democratized_prime_smart.Lending.{
  ReceivePayload, dispatch_payload, execute_transfer_cw20, receive, refund_of, scaled_to_pass,
  transfer, transfer_exact, withdraw, withdraw_exact,
}
use democratized_prime_smart.Lending.Burning.{Withdrawn}
use democratized_prime_smart.Lending.Withdrawals.{redeem-Redeemed}
use democratized_prime_smart.Pool.{Pool, get_lender_require_commit_on_exit}
use democratized_prime_smart.Pool.Invariant.{Ensures-attach_rates}
use democratized_prime_smart.Prelude.{
  Bool, Ensures, Ensures->>=, Ensures-ensure, Ensures-or_err, Option, false, illegal_state, inl,
  inr, ltb, none, not, ok, refl, some, true, ℕ, ◌==◌, ◌||◌, ◌∷◌, ◌≡◌, ◌⊎◌,
}
use democratized_prime_smart.Responses.{Response}

module _ ⦃c : Cosmwasm⦄ where
  -- Repo tokens that are received either change nothing of the pool, or are withdrawn for their sender.
  abbrev pub Handled : Pool → Env → ℕ → ℕ → Pool × Response → Type 0
  Handled pool env sender received out =
      (out.0 ≡ pool) ⊎ Withdrawn pool env sender received burn out

module _ ⦃c : Cosmwasm⦄ (host : Host) where
  -- A message that goes through is one that its handler lets through.
  pub execute-dispatch :
      (pool : Pool) (env : Env) (info : MessageInfo) (msg : ExecuteMsg) {out : Pool × Response}
      → execute host pool env info msg ≡ ok out
      → dispatch host pool env info msg ≡ ok out
  unfolding execute
  execute-dispatch pool env info msg {out} h =
      let state = pool.contract.operational_state in
      (Ensures-ensure {P = λ o. dispatch host pool env info msg ≡ ok o}
          (allowed_when_paused msg || not (is_paused state)) illegal_state _
          λ _.
            Ensures-ensure (not (is_frozen state) || not (disabled_when_frozen msg)) _ _
              λ _. record { at = λ o k. k }).at
        out h

module _ ⦃c : Cosmwasm⦄ (laws : IsCosmwasm c) (host : Host) where
  transfer-same :
      (pool : Pool) (env : Env) (sender received recipient : ℕ) (amount : Option ℕ) (exact : Bool)
      → Ensures
          (λ out. out.0 ≡ pool)
          (execute_transfer_cw20 host pool env sender received recipient amount exact)
  unfolding execute_transfer_cw20
  transfer-same pool env sender received recipient amount exact =
      let contract = pool.contract in
      Ensures-ensure (ltb 0 received) _ _ λ _.
        Ensures-ensure (not (get_lender_require_commit_on_exit pool sender)) _ _ λ _.
          Ensures-or_err (host.addr_validate recipient) _ _ λ to _.
            Ensures-ensure (not (sender == to)) _ _ λ _.
              Ensures->>= (repo_token_addr contract) _ λ repo_token _.
                Ensures->>= (validate_account_attrs host to contract.lender_required_attrs) _ λ _ _.
                  Ensures->>=
                    (compute_effective_reserve pool.reserve env.block_time contract.rate_params) _
                    λ r _. Ensures->>= (scaled_to_pass exact amount received r) _ λ passed _.
                      Ensures->>= (refund_of exact repo_token sender received passed) _ λ refund _.
                        Ensures-attach_rates pool
                          (token_transfer repo_token recipient passed ∷ refund) r
                          contract.rate_params λ rates. refl

  dispatch_payload-Handled :
      (pool : Pool) (env : Env) (sender received : ℕ) (payload : ReceivePayload)
      {out : Pool × Response}
      → dispatch_payload host pool env sender received payload ≡ ok out
      → Handled pool env sender received out
  unfolding dispatch_payload
  dispatch_payload-Handled pool env sender received (withdraw amount commit_funds) h =
      inr
        (redeem-Redeemed laws host pool env sender received (some amount) false commit_funds
          h).withdrawn
  dispatch_payload-Handled pool env sender received (withdraw_exact commit_funds) h =
      inr (redeem-Redeemed laws host pool env sender received none true commit_funds h).withdrawn
  dispatch_payload-Handled pool env sender received (transfer recipient amount) {out} h =
      inl ((transfer-same pool env sender received recipient (some amount) false).at out h)
  dispatch_payload-Handled pool env sender received (transfer_exact recipient) {out} h =
      inl ((transfer-same pool env sender received recipient none true).at out h)

  pub receive-Handled :
      (pool : Pool) (env : Env) (info : MessageInfo) (cw20_sender amount : ℕ)
      (msg : Option ReceivePayload) {out : Pool × Response}
      → receive host pool env info cw20_sender amount msg ≡ ok out
      → (sender : ℕ) × Handled pool env sender amount out
  unfolding receive
  receive-Handled pool env info cw20_sender amount msg {out} h =
      (Ensures->>= {P = λ o. (sender : ℕ) × Handled pool env sender amount o}
          (repo_token_addr pool.contract) _
          λ repo_token _. Ensures-ensure (info.sender == repo_token) _ _ λ _.
            Ensures-or_err msg _ _ λ payload _.
              Ensures-or_err (host.addr_validate cw20_sender) _ _ λ sender _. record {
                at = λ o k. (sender, dispatch_payload-Handled pool env sender amount payload k);
              }).at
        out h
