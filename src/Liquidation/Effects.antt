-- ===== src/Liquidation/Effects.antt =====
-- What a liquidation that goes through does: `liquidate` in
-- contracts/pool_v2/src/execute/liquidate.rs.
use democratized_prime_smart.Access.{assert_liquidator_iff}
use democratized_prime_smart.Accrual.{compute_effective_reserve}
use democratized_prime_smart.Collateral.{coins_of}
use democratized_prime_smart.Collateral.Settling.{CollateralMoved, settle, settle-IsValid}
use democratized_prime_smart.Collateral.Totals.{Moved-set_borrower_collateral}
use democratized_prime_smart.Contract.{ContractState, is_permissionless, permissionless}
use democratized_prime_smart.Cosmwasm.{Cosmwasm, IsCosmwasm, u128_size}
use democratized_prime_smart.Host.{Coin, Env, Host, MessageInfo}
use democratized_prime_smart.Liquidation.{liquidate, require_liquidator}
use democratized_prime_smart.Liquidation.Band.{Seizes, check_seizure-Seizes}
use democratized_prime_smart.Liquidation.Gate.{
  Paid, Positioned, find_position-Positioned, take_payment-Paid,
}
use democratized_prime_smart.Liquidation.Outgoing.{send_out-SentOut}
use democratized_prime_smart.Liquidation.Payment.{
  Payment, Position, find_position, refund, take_payment,
}
use democratized_prime_smart.Liquidation.Seizure.{
  Seizure, bad_debt_underlying, check_seizure, debt_left, send_collateral, send_out, settle_reserve,
  shrink_offer, stored_collateral,
}
use democratized_prime_smart.Liquidation.Settling.{Settled, settle_reserve-Settled}
use democratized_prime_smart.Map.{Map}
use democratized_prime_smart.Pool.{
  Pool, get_borrower_collateral, get_scaled_borrow, set_borrower_collateral, set_reserve_state,
  set_scaled_borrow,
}
use democratized_prime_smart.Pool.Collateral.{
  get-set_borrower_collateral, get_borrower_collateral-IsSortedAbove,
}
use democratized_prime_smart.Pool.Invariant.{
  Ensures-attach_rates, Ensures-update, IsValid, accrual-IsValid, set_scaled_borrow-IsValid,
}
use democratized_prime_smart.Prelude.{
  Bool, Ensures, Ensures->>=, Ensures-if, Ensures-ok, Ensures-or_err, List, [], ap, arith, inl, inr,
  ok, refl, some, ℕ, ◌++◌, ◌+◌, ◌<◌, ◌∙◌, ◌≡◌, ◌⊎◌,
}
use democratized_prime_smart.Reserve.{ReserveState}
use democratized_prime_smart.Responses.{Response}

pub record Liquidated ⦃c : Cosmwasm⦄ (host : Host) (pool : Pool) (env : Env) (info : MessageInfo)
    (borrower : ℕ) (collateral_to_seize : Map ℕ) (out : Pool × Response) : Type 0 where
  pub authorized :
      (pool.contract.liquidation_access ≡ permissionless)
      ⊎ (pool.contract.liquidator ≡ some info.sender)
  pub address : ℕ
  pub address_eq : host.addr_validate (host.trim borrower) ≡ some address
  pub accrued : ReserveState
  pub accrues :
      compute_effective_reserve pool.reserve env.block_time pool.contract.rate_params ≡ ok accrued
  pub position : Position
  pub positioned :
      Positioned host
        (set_reserve_state pool accrued)
        env
        accrued
        address
        collateral_to_seize
        position
  pub payment : Payment
  pub paid : Paid info pool.contract accrued position payment
  pub seizure : Seizure
  pub seizes :
      Seizes host
        (set_reserve_state pool accrued)
        info.sender
        accrued
        position
        payment
        collateral_to_seize
        seizure
  pub loss : ℕ
  pub loss_eq :
      bad_debt_underlying seizure.bad_debt payment.new_scaled_debt accrued.borrow_index ≡ ok loss
  pub reserve' : ReserveState
  pub settled : Settled pool.contract accrued payment seizure.bad_debt loss reserve'
  pub coins : List Coin
  pub after : Pool
  pub moved :
      CollateralMoved
        (set_reserve_state
          (set_scaled_borrow pool address (debt_left payment seizure.bad_debt))
          reserve')
        after
        address
        []
        coins
  pub stored : get_borrower_collateral after address ≡ stored_collateral seizure
  pub after-IsValid : IsValid after
  pub writes : out.0 ≡ shrink_offer after address position collateral_to_seize
  pub sends :
      out.1.messages ≡ send_collateral info.sender coins ++ refund info.sender pool.contract payment

require_liquidator_eq :
    (contract : ContractState) (sender : ℕ)
    → Ensures
        (λ _. (contract.liquidation_access ≡ permissionless) ⊎ (contract.liquidator ≡ some sender))
        (require_liquidator contract sender)
unfolding require_liquidator
require_liquidator_eq contract sender =
    Ensures-if (is_permissionless contract.liquidation_access) _ _
      (λ anyone. Ensures-ok tt (inl (ground arith)))
      (λ _. record { at = λ u h. inr ((assert_liquidator_iff contract sender).0 h) })

Settled-bounds :
    (pool : Pool) (r : ReserveState) (contract : ContractState) (payment : Payment)
    (bad_debt : Bool) (loss : ℕ) {r' : ReserveState}
    → IsValid (set_reserve_state pool r)
    → Settled contract r payment bad_debt loss r'
    → (r'.total_scaled_liquidity < u128_size)
      × (r'.accrued_reserve < u128_size)
      × (r'.deficit_underlying < u128_size)
Settled-bounds pool r contract payment bad_debt loss {r'} v e = elim e.booked [
  | inl (_, same) ↦
      let l = ap (λ (x : ReserveState). x.total_scaled_liquidity) same in
      let a = ap (λ (x : ReserveState). x.accrued_reserve) same in
      let d = ap (λ (x : ReserveState). x.deficit_underlying) same in
      (rw l v.liquidity_bound, rw a v.accrued_bound, rw d v.deficit_bound)
  | inr (_, b) ↦
      let l = ap (λ (x : ReserveState). x.total_scaled_liquidity) b.rest in
      let a = ap (λ (x : ReserveState). x.accrued_reserve) b.rest in
      (rw l v.liquidity_bound, rw a v.accrued_bound, b.deficit_bound)
]

-- What a settled reserve keeps of the invariant.
Settled-IsValid :
    (pool : Pool) (r : ReserveState) (contract : ContractState) (payment : Payment)
    (bad_debt : Bool) (loss borrower : ℕ) {r' : ReserveState}
    → IsValid (set_reserve_state pool r)
    → payment.new_scaled_debt + payment.scaled_repay ≡ get_scaled_borrow pool borrower
    → Settled contract r payment bad_debt loss r'
    → IsValid (set_reserve_state (set_scaled_borrow pool borrower (debt_left payment bad_debt)) r')
Settled-IsValid pool r contract payment bad_debt loss borrower {r'} v falls e =
    let (liquidity, accrued, deficit) = Settled-bounds pool r contract payment bad_debt loss v e in
    set_scaled_borrow-IsValid (set_reserve_state pool r) borrower (debt_left payment bad_debt) r' v
      (ground (arith, e.total_falls)) (omega (arith, e.total_falls, v.borrow_bound)) liquidity
      accrued deficit

module _ ⦃c : Cosmwasm⦄ (laws : IsCosmwasm c) (host : Host) where
  liquidate-Ensures :
      (pool : Pool) (env : Env) (info : MessageInfo) (borrower : ℕ) (seize : Map ℕ)
      → IsValid pool
      → Ensures
          (Liquidated host pool env info borrower seize)
          (liquidate host pool env info borrower seize)
  unfolding liquidate
  liquidate-Ensures pool env info borrower seize v =
      let contract = pool.contract in
      Ensures->>= (require_liquidator contract info.sender) _ λ _ ea.
        Ensures-or_err (host.addr_validate (host.trim borrower)) _ _ λ address eb.
          Ensures-update pool env contract.rate_params _ λ r er.
            let pool1 = set_reserve_state pool r in
            Ensures->>= (find_position host pool1 env r address seize) _ λ position ep.
              Ensures->>= (take_payment info contract r position) _ λ payment ey.
                Ensures->>= (check_seizure host pool1 info r position payment seize) _ λ seizure es.
                  Ensures->>=
                    (bad_debt_underlying seizure.bad_debt payment.new_scaled_debt r.borrow_index) _
                    λ loss el.
                      Ensures->>= (settle_reserve contract r payment seizure.bad_debt loss) _
                        λ r' es'.
                          let left = debt_left payment seizure.bad_debt in
                          let pool2 = set_reserve_state (set_scaled_borrow pool address left) r' in
                          Ensures->>= (send_out pool2 seize seizure) _ λ (pool3, outgoing) eo.
                            let amounts = stored_collateral seizure in
                            let pool4 = set_borrower_collateral pool3 address amounts in
                            let coins = coins_of outgoing in
                            Ensures-attach_rates (shrink_offer pool4 address position seize)
                              (send_collateral info.sender coins
                                ++ refund info.sender contract payment)
                              r' contract.rate_params
                              λ rates.
                                let v1 =
                                  accrual-IsValid laws pool env.block_time contract.rate_params v
                                    er in
                                let placed =
                                  (find_position-Positioned host pool1 env r address seize).at
                                    position ep in
                                let paid =
                                  (take_payment-Paid laws info contract r position).at payment ey in
                                let seizes =
                                  (check_seizure-Seizes laws host pool1 info r position payment
                                      seize).at
                                    seizure es in
                                let settled =
                                  (settle_reserve-Settled laws contract r payment seizure.bad_debt
                                      loss v1.liquidity_bound v1.deficit_bound).at
                                    r' es' in
                                let v2 =
                                  Settled-IsValid pool r contract payment seizure.bad_debt loss
                                    address v1 (paid.debt_falls ∙ placed.debt_eq) settled in
                                let out =
                                  (send_out-SentOut pool2 (get_borrower_collateral pool address)
                                      seize seizure v.totals_sorted
                                      (get_borrower_collateral-IsSortedAbove pool address
                                        v.holdings_sorted)
                                      (rw (placed.collateral_eq) at seizes.dry)).at
                                    (pool3, outgoing) eo in
                                let e = Moved-set_borrower_collateral address amounts out.moved in
                                record {
                                  authorized =
                                      (require_liquidator_eq contract info.sender).at tt ea;
                                  address = address;
                                  address_eq = eb;
                                  accrued = r;
                                  accrues = er;
                                  position = position;
                                  positioned = placed;
                                  payment = payment;
                                  paid = paid;
                                  seizure = seizure;
                                  seizes = seizes;
                                  loss = loss;
                                  loss_eq = el;
                                  reserve' = r';
                                  settled = settled;
                                  coins = coins;
                                  after = pool4;
                                  moved = settle address [] coins v2 out.changed e;
                                  stored =
                                      ap (λ (x : Pool). get_borrower_collateral x address) e.same
                                      ∙ get-set_borrower_collateral pool2 address amounts address
                                          v.borrowers_sorted
                                      ∙ ground arith;
                                  after-IsValid = settle-IsValid address [] coins v2 out.changed e;
                                  writes = refl;
                                  sends = refl;
                                }

  -- In a valid pool, a liquidation that goes through comes from the liquidator unless anyone may liquidate;
  -- it fills a live offer of the borrower or finds the LTV, at the fetched prices, at or above the
  -- liquidation rate. It takes one coin of the lending denom, and lowers the scaled debt by some
  -- amount: all of it for the payoff, else what the coin is worth rounded down. The assets seized are
  -- supported and have a price, and are worth at most the bonus rate times the repayment; they are worth
  -- at least the repayment unless the rest is written off, or the debt is cleared and nothing of value
  -- seized. A debt that stays is below the liquidation rate and within the margin rate; one is
  -- written off only if the remaining collateral has no value and the priced collateral is worth less than
  -- the payoff. The pool stays valid.
  pub liquidate-Liquidated :
      (pool : Pool) (env : Env) (info : MessageInfo) (borrower : ℕ) (seize : Map ℕ)
      {out : Pool × Response}
      → IsValid pool
      → liquidate host pool env info borrower seize ≡ ok out
      → Liquidated host pool env info borrower seize out
  liquidate-Liquidated pool env info borrower seize {out} v h =
      (liquidate-Ensures pool env info borrower seize v).at out h
