-- ===== src/Treasury/Effects.antt =====
-- What the owner's withdrawals from the protocol's reserve pay and leave: `withdraw_reserve` of
-- contracts/pool_v2/src/execute/withdraw_reserve.rs.
use democratized_prime_smart.U128
use democratized_prime_smart.Access.{assert_owner}
use democratized_prime_smart.Accrual.{compute_effective_reserve}
use democratized_prime_smart.Cosmwasm.{Cosmwasm, IsCosmwasm}
use democratized_prime_smart.Host.{Env, Host, MessageInfo, bank_send, no_funds}
use democratized_prime_smart.Lending.{lending_coins}
use democratized_prime_smart.Pool.{Pool, set_reserve_state}
use democratized_prime_smart.Pool.Invariant.{
  Ensures-attach_rates, Ensures-update, IsValid, accrual-IsValid, set_reserve_state-IsValid,
}
use democratized_prime_smart.Prelude.{
  Ensures, Ensures->>=, Ensures-ensure, Ensures-or_err, Option, [], arith, ltb, ltb→lt, min, ok,
  refl, some, ℕ, ◌+◌, ◌-◌, ◌<◌, ◌==◌, ◌∷◌, ◌≡◌, ◌≤◌,
}
use democratized_prime_smart.Reserve.{ReserveState}
use democratized_prime_smart.Responses.{Response}
use democratized_prime_smart.Scaling.{reserve_totals_and_cash_u128}
use democratized_prime_smart.Treasury.{recipient_of, withdraw_reserve}
use democratized_prime_smart.U128.Laws.{u128_add_eq, u128_sub_eq}

pub record ReserveWithdrawn ⦃c : Cosmwasm⦄ (host : Host) (pool : Pool) (env : Env) (sender : ℕ)
    (out : Pool × Response) : Type 0 where
  pub authorized : assert_owner host pool sender ≡ ok tt
  pub accrued : ReserveState
  pub accrues :
      compute_effective_reserve pool.reserve env.block_time pool.contract.rate_params ≡ ok accrued
  pub no_deficit : accrued.deficit_underlying ≡ 0
  pub totals : ℕ × ℕ × ℕ
  pub totals_eq : reserve_totals_and_cash_u128 accrued ≡ ok totals
  pub bank_balance : ℕ
  pub bank_eq :
      host.query_balance env.contract_address pool.contract.lending_denom.name ≡ some bank_balance
  pub pay : ℕ
  pub left : ℕ
  pub pays_some : 0 < pay
  pub within_bank : pay ≤ bank_balance
  pub within_booked : pay + left ≤ accrued.accrued_reserve
  pub solvent : totals.0 + left ≤ (bank_balance - pay) + totals.1
  pub backed : pay + left ≡ min accrued.accrued_reserve (bank_balance + totals.1 - totals.0)
  pub as_much : pay ≡ min (pay + left) bank_balance
  pub recipient : ℕ
  pub writes : out.0 ≡ set_reserve_state pool (record accrued { accrued_reserve = left })
  pub sends : out.1.messages ≡ bank_send recipient (lending_coins pool.contract pay) ∷ []

module _ ⦃c : Cosmwasm⦄ (host : Host) where
  withdraw_reserve-Ensures :
      (pool : Pool) (env : Env) (info : MessageInfo) (recipient : Option ℕ)
      → Ensures
          (ReserveWithdrawn host pool env info.sender)
          (withdraw_reserve host pool env info recipient)
  unfolding withdraw_reserve
  withdraw_reserve-Ensures pool env info recipient =
      let contract = pool.contract in
      Ensures->>= (assert_owner host pool info.sender) _ λ _ owned.
        Ensures-ensure (no_funds info) _ _ λ _.
          Ensures->>= (recipient_of host recipient pool) _ λ to _.
            Ensures-update pool env contract.rate_params _ λ r er.
              Ensures-ensure (r.deficit_underlying == 0) _ _ λ whole.
                Ensures-ensure (ltb 0 r.accrued_reserve) _ _ λ _.
                  Ensures->>= (reserve_totals_and_cash_u128 r) _ λ totals et.
                    Ensures-or_err
                      (host.query_balance env.contract_address contract.lending_denom.name) _ _
                      λ bank_balance eb.
                        Ensures-or_err (U128.checked_add bank_balance totals.1) _ _ λ assets ea.
                          let booked = r.accrued_reserve in
                          let backed = min booked (assets - totals.0) in
                          let pay = min backed bank_balance in
                          Ensures-ensure (ltb 0 pay) _ _ λ some_pay.
                            Ensures-or_err (U128.checked_sub booked backed) _ _ λ writeoff ew.
                              Ensures-or_err (U128.checked_sub backed pay) _ _ λ left el.
                                let r' = record r { accrued_reserve = left } in
                                Ensures-attach_rates (set_reserve_state pool r')
                                  (bank_send to (lending_coins contract pay) ∷ []) r'
                                  contract.rate_params
                                  λ rates.
                                    let (sum_eq, _) = u128_add_eq bank_balance totals.1 ea in
                                    let rest = u128_sub_eq backed pay el in
                                    let positive = ltb→lt 0 pay some_pay in
                                    record {
                                      authorized = owned;
                                      accrued = r;
                                      accrues = er;
                                      no_deficit = ground arith;
                                      totals = totals;
                                      totals_eq = et;
                                      bank_balance = bank_balance;
                                      bank_eq = eb;
                                      pay = pay;
                                      left = left;
                                      pays_some = positive;
                                      within_bank = omega arith;
                                      within_booked = omega arith;
                                      solvent = omega arith;
                                      backed = omega arith;
                                      as_much = omega arith;
                                      recipient = to;
                                      writes = refl;
                                      sends = refl;
                                    }

  -- A withdrawal from the protocol's reserve happens only for a sender that passes the owner's check and
  -- without a deficit, and pays some of the booked
  -- reserve, at most the pool's bank balance. What the pool then holds, with what the borrowers owe, covers
  -- what the lenders are owed and the reserve that stays booked. The pay and what stays booked are as much
  -- of the booked reserve as that backs, and the pay is as much of it as the balance allows.
  pub withdraw_reserve-ReserveWithdrawn :
      (pool : Pool) (env : Env) (info : MessageInfo) (recipient : Option ℕ) {out : Pool × Response}
      → withdraw_reserve host pool env info recipient ≡ ok out
      → ReserveWithdrawn host pool env info.sender out
  withdraw_reserve-ReserveWithdrawn pool env info recipient {out} h =
      (withdraw_reserve-Ensures pool env info recipient).at out h

  pub withdraw_reserve-IsValid :
      (laws : IsCosmwasm c) (pool : Pool) (env : Env) (info : MessageInfo) (recipient : Option ℕ)
      {out : Pool × Response}
      → IsValid pool
      → withdraw_reserve host pool env info recipient ≡ ok out
      → IsValid out.0
  withdraw_reserve-IsValid laws pool env info recipient {out} v h =
      let e = withdraw_reserve-ReserveWithdrawn pool env info recipient h in
      let r = e.accrued in
      let a = accrual-IsValid laws pool env.block_time pool.contract.rate_params v e.accrues in
      rw (e.writes) (
        set_reserve_state-IsValid (set_reserve_state pool r) (record r { accrued_reserve = e.left })
          a refl a.liquidity_bound (omega (arith, e.within_booked, a.accrued_bound))
          a.deficit_bound)
