-- ===== src/Lending/Burning.antt =====
-- Tokens burned for a payout: what both withdrawals of contracts/pool_v2/src/execute/withdraw.rs share.
use democratized_prime_smart.U128
use democratized_prime_smart.Accrual.{compute_effective_reserve}
use democratized_prime_smart.Contract.{repo_token_addr}
use democratized_prime_smart.Cosmwasm.{Cosmwasm, IsCosmwasm}
use democratized_prime_smart.Host.{Env, Msg, bank_send}
use democratized_prime_smart.Lending.{Payout, deduct_scaled_liquidity_and_save, lending_coins}
use democratized_prime_smart.Lending.Payouts.{IsPayout}
use democratized_prime_smart.Pool.{Pool, set_reserve_state}
use democratized_prime_smart.Pool.Invariant.{IsValid, accrual-IsValid, set_reserve_state-IsValid}
use democratized_prime_smart.Prelude.{
  Ensures, Ensures-err, List, Option-cases, Result, arith, illegal_state, inl, inr, ok, refl, ℕ,
  ◌+◌, ◌>>=◌, ◌∷◌, ◌≡◌,
}
use democratized_prime_smart.Reserve.{ReserveState}
use democratized_prime_smart.Responses.{Response}
use democratized_prime_smart.Scaling.{reserve_totals_and_cash_u128}
use democratized_prime_smart.U128.Laws.{u128_sub_eq}

-- A payout from the accrued reserve, whose scaled liquidity falls by the tokens burned.
pub record Withdrawn ⦃c : Cosmwasm⦄ (pool : Pool) (env : Env) (account balance : ℕ)
    (burning : ℕ → ℕ → Msg) (out : Pool × Response) : Type 0 where
  pub payout : Payout
  pub repo_token : ℕ
  pub token_eq : repo_token_addr pool.contract ≡ ok repo_token
  pub accrued : ReserveState
  pub accrues :
      compute_effective_reserve pool.reserve env.block_time pool.contract.rate_params ≡ ok accrued
  pub totals : ℕ × ℕ × ℕ
  pub totals_eq : reserve_totals_and_cash_u128 accrued ≡ ok totals
  pub paid : IsPayout payout balance totals.2 accrued.liquidity_index
  pub left : ℕ
  pub burned : left + payout.scaled_to_burn ≡ accrued.total_scaled_liquidity
  pub writes : out.0 ≡ set_reserve_state pool (record accrued { total_scaled_liquidity = left })
  pub rest : List Msg
  pub sends :
      out.1.messages
      ≡ burning repo_token payout.scaled_to_burn
        ∷ bank_send account (lending_coins pool.contract payout.underlying_to_send)
        ∷ rest

module _ ⦃c : Cosmwasm⦄ where
  -- the rest of a handler after the tokens are deducted
  pub deducted :
      (pool : Pool) (r : ReserveState) (amount : ℕ) {B : Type 0} {P : B → Type 0}
      (f : Pool × ReserveState → Result B)
      → ((left : ℕ)
          → left + amount ≡ r.total_scaled_liquidity
          → Ensures P (
              f (
                set_reserve_state pool (record r { total_scaled_liquidity = left }),
                record r { total_scaled_liquidity = left },
              )))
      → Ensures P (deduct_scaled_liquidity_and_save pool r amount >>= f)
  unfolding deduct_scaled_liquidity_and_save
  deducted pool r amount f k =
      elim (Option-cases (U128.checked_sub r.total_scaled_liquidity amount)) [
        | inl e ↦ rw e (Ensures-err illegal_state)
        | inr (left, e) ↦ rw e (k left (u128_sub_eq r.total_scaled_liquidity amount e))
      ]

module _ ⦃c : Cosmwasm⦄ (laws : IsCosmwasm c) where
  pub Withdrawn-IsValid :
      {pool : Pool} {env : Env} {account balance : ℕ} {burning : ℕ → ℕ → Msg}
      {out : Pool × Response}
      → IsValid pool
      → Withdrawn pool env account balance burning out
      → IsValid out.0
  Withdrawn-IsValid {pool} {env} v w =
      let r = w.accrued in
      let a = accrual-IsValid laws pool env.block_time pool.contract.rate_params v w.accrues in
      rw (w.writes) (
        set_reserve_state-IsValid (set_reserve_state pool r)
          (record r { total_scaled_liquidity = w.left }) a refl
          (omega (arith, w.burned, a.liquidity_bound)) a.accrued_bound a.deficit_bound)
