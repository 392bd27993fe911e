-- ===== src/Access.antt =====
-- Who may call: packages/lib/src/common/ownership.rs, contracts/pool_v2/src/utils/permission.rs and
-- ownership.rs.
-- the mapping of the errors of `cw_ownable::assert_owner`
use democratized_prime_smart.Contract.{ContractState}
use democratized_prime_smart.Host.{
  Host, IsOwnable, OwnershipCheck, allowed, no_owner, not_owner, other_error,
}
use democratized_prime_smart.Pool.{Pool}
use democratized_prime_smart.Prelude.{
  Option, Result, arith, ensure, err, illegal_state, not_authorized, ok, or_err, ownership, some, ℕ,
  ◌==◌, ◌>>=◌, ◌↔◌, ◌≡◌,
}

abbrev pub of_check : OwnershipCheck → Result (Unit {0})
of_check allowed = ok tt
of_check not_owner = err not_authorized
of_check no_owner = err not_authorized
of_check other_error = err ownership

unfoldable pub assert_owner : Host → Pool → ℕ → Result (Unit {0})
assert_owner host pool sender = of_check (host.assert_owner pool.ownership sender)

unfoldable pub current_owner : Pool → Result ℕ
current_owner pool = or_err pool.ownership.owner illegal_state

-- an account that must be configured, and be the sender
assert_account : Option ℕ → ℕ → Result (Unit {0})
assert_account account sender = do
  a ← or_err account not_authorized
  ensure (sender == a) not_authorized

unfoldable pub assert_custodian : ContractState → ℕ → Result (Unit {0})
unfolding assert_account
assert_custodian contract sender = assert_account contract.custodian sender

unfoldable pub assert_liquidator : ContractState → ℕ → Result (Unit {0})
unfolding assert_account
assert_liquidator contract sender = assert_account contract.liquidator sender

-- The sender passes exactly when it is the account that is configured.
pub assert_liquidator_iff :
    (contract : ContractState) (sender : ℕ)
    → (assert_liquidator contract sender ≡ ok tt) ↔ (contract.liquidator ≡ some sender)
unfolding assert_liquidator
assert_liquidator_iff contract sender = ground arith

pub assert_custodian_iff :
    (contract : ContractState) (sender : ℕ)
    → (assert_custodian contract sender ≡ ok tt) ↔ (contract.custodian ≡ some sender)
unfolding assert_custodian
assert_custodian_iff contract sender = ground arith

pub assert_owner_iff :
    (host : Host) (pool : Pool) (sender : ℕ)
    → IsOwnable host
    → (assert_owner host pool sender ≡ ok tt) ↔ (pool.ownership.owner ≡ some sender)
unfolding assert_owner
assert_owner_iff host pool sender h = ground (arith, h.allowed_iff pool.ownership sender)
