-- ===== src/Responses/Commits.antt =====
-- What a commit adds to the messages of a payment: `new_commit_message` of
-- contracts/pool_v2/src/utils/response_ext.rs.
use democratized_prime_smart.Contract.{ContractState}
use democratized_prime_smart.Host.{Coin, Msg, commit_funds_request}
use democratized_prime_smart.Prelude.{
  >>=-eq-ok, Bool, Ensures, Ensures->>=, Ensures-ok, List, [], false, illegal_argument, inl, inr,
  or_err, or_err-eq-ok, refl, some, true, ℕ, ◌∷◌, ◌≡◌, ◌⊎◌,
}
use democratized_prime_smart.Responses.{commit_if, new_commit_message}

-- Where a commit is asked for, one message asks the market of the contract for the coins paid to the
-- account; else there is none.
abbrev pub IsCommit : Bool → ContractState → ℕ → ℕ → List Coin → List Msg → Type 0
IsCommit asked contract address account coins messages =
    ((asked ≡ false) × (messages ≡ []))
    ⊎ ((asked ≡ true)
        × (market : ℕ) × (contract.commit_market_id ≡ some market)
        × (messages ≡ commit_funds_request address market account coins ∷ []))

pub commit_if-IsCommit :
    (asked : Bool) (contract : ContractState) (address account : ℕ) (coins : List Coin)
    → Ensures
        (IsCommit asked contract address account coins)
        (commit_if asked contract address account coins)
unfolding commit_if new_commit_message
commit_if-IsCommit false contract address account coins = Ensures-ok [] (inl (refl, refl))
commit_if-IsCommit true contract address account coins =
    Ensures->>= (new_commit_message contract address account coins) _ λ msg h.
      let (market, em, same) = >>=-eq-ok (or_err contract.commit_market_id illegal_argument) _ h in
      let market_eq = or_err-eq-ok contract.commit_market_id illegal_argument em in
      Ensures-ok (msg ∷ []) (inr (refl, market, market_eq, cc))
