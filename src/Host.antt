-- ===== src/Host.antt =====
-- What a handler sees of the chain: the block, the message and its funds, other modules and contracts
-- by their queries, and the messages it returns. The functions of `Host` are not part of the contracts'
-- code: address validation, the test for a blank text, the bank, the attribute module, the price oracle and the repo token as
-- queried by address, and the crate `cw_ownable`. `none` is a query that fails.
use democratized_prime_smart.Map.{Map}
use democratized_prime_smart.Prelude.{Bool, List, Option, [], false, some, true, ℕ, ◌↔◌, ◌∷◌, ◌≡◌}

pub record Coin : Type 0 where
  pub denom : ℕ
  pub amount : ℕ

-- the price of an asset: packages/lib/src/price_oracle/model/price.rs
pub record AssetPrice : Type 0 where
  pub price_usd : ℕ
  pub display_price_usd : ℕ
  pub precision : ℕ
  pub as_of_epoch_second : ℕ
  pub expiration_epoch_seconds : ℕ

pub record Env : Type 0 where
  pub block_time : ℕ
  pub contract_address : ℕ

pub record MessageInfo : Type 0 where
  pub sender : ℕ
  pub funds : List Coin

-- the owner as `cw_ownable` stores it, and what its check of a sender answers
pub record Ownership : Type 0 where
  pub owner : Option ℕ
  pub pending_owner : Option ℕ

pub data OwnershipCheck : Type 0 where
  allowed not_owner no_owner other_error : OwnershipCheck

-- `cw_ownable::Action`, with the expiry of a transfer left out
pub data OwnershipAction : Type 0 where
  transfer_ownership : ℕ → OwnershipAction
  accept_ownership renounce_ownership : OwnershipAction

-- a page of attribute names, and the key of the next page
pub record ScanPage : Type 0 where
  pub attributes : List (List ℕ)
  pub next_key : Option (List ℕ)

pub record Host : Type 0 where
  pub trim : ℕ → ℕ
  pub addr_validate : ℕ → Option ℕ
  pub is_blank : ℕ → Bool
  pub assert_owner : Ownership → ℕ → OwnershipCheck
  pub is_owner : Ownership → ℕ → Option Bool
  pub update_ownership : Ownership → Env → ℕ → OwnershipAction → Option Ownership
  pub attribute : ℕ → List ℕ → Option (List (List ℕ))
  pub scan : ℕ → List ℕ → List ℕ → Option ScanPage
  pub query_balance : ℕ → ℕ → Option ℕ
  pub scaled_balance : ℕ → ℕ → Option ℕ
  pub get_prices_by_asset : ℕ → List ℕ → Bool → Option (Map AssetPrice)

pub data Msg : Type 0 where
  bank_send : ℕ → List Coin → Msg
  mint : ℕ → ℕ → ℕ → Msg
  burn : ℕ → ℕ → Msg
  burn_from : ℕ → ℕ → ℕ → Msg
  token_transfer : ℕ → ℕ → ℕ → Msg
  commit_funds_request : ℕ → ℕ → ℕ → List Coin → Msg

-- `info.funds.is_empty()`
abbrev pub no_funds : MessageInfo → Bool
no_funds info = elim info.funds [ [] ↦ true | _ ∷ _ ↦ false ]

-- What `cw_ownable` documents: exactly the stored owner passes.
pub record IsOwnable (host : Host) : Type 0 where
  pub allowed_iff :
      (o : Ownership) (sender : ℕ)
      → (host.assert_owner o sender ≡ allowed) ↔ (o.owner ≡ some sender)
  pub is_owner_iff :
      (o : Ownership) (sender : ℕ) → (host.is_owner o sender ≡ some true) ↔ (o.owner ≡ some sender)
