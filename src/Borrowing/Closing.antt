-- ===== src/Borrowing/Closing.antt =====
-- A debt can always be paid off: contracts/pool_v2/src/execute/repay.rs.
use democratized_prime_smart.Accrual.{compute_effective_reserve}
use democratized_prime_smart.Attributes.{single_coin_iff}
use democratized_prime_smart.Borrowing.{refund_excess, repay, scaled_repayment}
use democratized_prime_smart.Cosmwasm.{Cosmwasm, IsCosmwasm}
use democratized_prime_smart.Host.{Env, MessageInfo}
use democratized_prime_smart.Lending.{lending_coins}
use democratized_prime_smart.Map.Sums.{get-le-sum}
use democratized_prime_smart.Pool.{Pool, get_scaled_borrow, set_reserve_state, set_scaled_borrow}
use democratized_prime_smart.Pool.Invariant.{IsValid, accrual-IsValid}
use democratized_prime_smart.Prelude.{
  [], arith, false, leb, ltb, min, ok, refl, some, true, ℕ, ◌-◌, ◌<◌, ◌≡◌, ◌≤◌,
}
use democratized_prime_smart.Reserve.{ReserveState}
use democratized_prime_smart.Responses.{
  RateValues, attach_rates, lend_borrow_rate_attribute_values, update_reserve_indexes,
}
use democratized_prime_smart.Scaling.{scaled_to_underlying_borrow_ceil}

module _ ⦃c : Cosmwasm⦄ (laws : IsCosmwasm c) where
  -- In a valid pool, a borrower with debt that sends just its payoff closes the debt, if accrual, the
  -- payoff and the new rates can be computed: the reserve's total falls by all of the debt, no check and
  -- no subtraction of the repayment fails, and nothing is sent back.
  pub payoff_closes :
      (pool : Pool) (env : Env) (info : MessageInfo) (payoff : ℕ) {r : ReserveState}
      {rates : RateValues}
      → IsValid pool
      → compute_effective_reserve pool.reserve env.block_time pool.contract.rate_params ≡ ok r
      → 0 < get_scaled_borrow pool info.sender
      → scaled_to_underlying_borrow_ceil (get_scaled_borrow pool info.sender) r.borrow_index
        ≡ ok payoff
      → 0 < payoff
      → info.funds ≡ lending_coins pool.contract payoff
      → lend_borrow_rate_attribute_values
          (record r {
            total_scaled_borrow = r.total_scaled_borrow - get_scaled_borrow pool info.sender;
          })
          pool.contract.rate_params
        ≡ ok rates
      → repay pool env info
        ≡ ok (
          set_reserve_state (set_scaled_borrow pool info.sender 0) (record r {
            total_scaled_borrow = r.total_scaled_borrow - get_scaled_borrow pool info.sender;
          }),
          record { messages = []; rates = some rates },
        )
  unfolding repay update_reserve_indexes scaled_repayment attach_rates refund_excess
  payoff_closes pool env info payoff {r} {rates} v er owes ep some_payoff paid erates =
      let debt = get_scaled_borrow (set_reserve_state pool r) info.sender in
      let coin =
        (single_coin_iff info pool.contract.lending_denom 1 payoff).1 (paid, omega arith) in
      let a = accrual-IsValid laws pool env.block_time pool.contract.rate_params v er in
      let covered : debt ≤ r.total_scaled_borrow =
        omega (arith, get-le-sum info.sender pool.scaled_borrow, a.borrow_total) in
      let part : min payoff payoff ≡ payoff = omega arith in
      let t1 : ltb 0 debt ≡ true = ground arith in
      let t2 : leb payoff payoff ≡ true = ground arith in
      let t3 : leb debt debt ≡ true = ground arith in
      let t4 : leb debt r.total_scaled_borrow ≡ true = ground arith in
      let t5 : ltb payoff payoff ≡ false = ground arith in
      let t6 : debt - debt ≡ 0 = omega arith in
      rw (coin, er, ep, part, t1, t2, t3, t4, t5, t6, t1, erates) refl
