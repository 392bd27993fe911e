-- ===== src/Borrowing/Repayment.antt =====
-- What a repayment changes: `repay` of contracts/pool_v2/src/execute/repay.rs.
use democratized_prime_smart.U128
use democratized_prime_smart.Accrual.{compute_effective_reserve}
use democratized_prime_smart.Attributes.{single_coin_iff, validate_single_coin_denom}
use democratized_prime_smart.Borrowing.{refund_excess, repay, scaled_repayment}
use democratized_prime_smart.Contract.{ContractState}
use democratized_prime_smart.Cosmwasm.{Cosmwasm, IsCosmwasm, decimal_one}
use democratized_prime_smart.Host.{Env, MessageInfo, Msg, bank_send}
use democratized_prime_smart.Lending.{lending_coins}
use democratized_prime_smart.Pool.{
  Pool, get_borrower_require_commit, get_scaled_borrow, set_reserve_state, set_scaled_borrow,
}
use democratized_prime_smart.Pool.Invariant.{
  Ensures-attach_rates, Ensures-update, IsValid, accrual-IsValid, set_scaled_borrow-IsValid,
}
use democratized_prime_smart.Prelude.{
  Bool, Ensures, Ensures->>=, Ensures-ensure, Ensures-if, Ensures-ok, Ensures-or_err, List, [],
  arith, inl, inr, leb, ltb, ltb→lt, min, ok, refl, ℕ, ◌*◌, ◌+◌, ◌-◌, ◌<◌, ◌∷◌, ◌≡◌, ◌≤◌, ◌⊎◌,
}
use democratized_prime_smart.Reserve.{ReserveState}
use democratized_prime_smart.Responses.{Response, commit_if}
use democratized_prime_smart.Responses.Commits.{IsCommit, commit_if-IsCommit}
use democratized_prime_smart.Scaling.{scaled_to_underlying_borrow_ceil}
use democratized_prime_smart.Scaling.Exact.{underlying_to_scaled_borrow_eq}
use democratized_prime_smart.Scaling.Rounding.{quotient_bounds}
use democratized_prime_smart.U128.Laws.{u128_sub_eq}

-- What was sent beyond the payoff goes back, followed only by the commit that was asked for; without an
-- excess nothing is sent.
abbrev pub GivesBack : ContractState → Bool → ℕ → ℕ → ℕ → ℕ → List Msg → Type 0
GivesBack contract commit_funds here sender sent payoff messages =
    ((payoff < sent)
      × (commit : List Msg) × IsCommit commit_funds contract here sender
          (lending_coins contract (sent - payoff)) commit
      × (messages ≡ bank_send sender (lending_coins contract (sent - payoff)) ∷ commit))
    ⊎ ((sent ≤ payoff) × (messages ≡ []))

pub record Repaid ⦃c : Cosmwasm⦄ (pool : Pool) (env : Env) (info : MessageInfo)
    (out : Pool × Response) : Type 0 where
  pub accrued : ReserveState
  pub accrues :
      compute_effective_reserve pool.reserve env.block_time pool.contract.rate_params ≡ ok accrued
  pub sent : ℕ
  pub funds : info.funds ≡ lending_coins pool.contract sent
  pub payoff : ℕ
  pub payoff_eq :
      scaled_to_underlying_borrow_ceil (get_scaled_borrow pool info.sender) accrued.borrow_index
      ≡ ok payoff
  pub repaid : ℕ
  pub repaid_some : 0 < repaid
  pub entitled :
      ((payoff ≤ sent) × (repaid ≡ get_scaled_borrow pool info.sender))
      ⊎ ((sent < payoff)
          × (repaid * accrued.borrow_index ≤ sent * decimal_one)
          × (sent * decimal_one < (repaid + 1) * accrued.borrow_index))
  pub debt_left : ℕ
  pub debt_falls : debt_left + repaid ≡ get_scaled_borrow pool info.sender
  pub total_left : ℕ
  pub total_falls : total_left + repaid ≡ accrued.total_scaled_borrow
  pub writes :
      out.0
      ≡ set_reserve_state
          (set_scaled_borrow pool info.sender debt_left)
          (record accrued { total_scaled_borrow = total_left })
  pub sends :
      GivesBack pool.contract
        (get_borrower_require_commit pool info.sender)
        env.contract_address
        info.sender
        sent
        payoff
        out.1.messages

module _ ⦃c : Cosmwasm⦄ (laws : IsCosmwasm c) where
  refund_excess_eq :
      (commit_funds : Bool) (contract : ContractState) (here sender amount payoff : ℕ)
      → Ensures
          (GivesBack contract commit_funds here sender amount payoff)
          (refund_excess commit_funds contract here sender amount (min amount payoff))
  unfolding refund_excess
  refund_excess_eq commit_funds contract here sender amount payoff =
      Ensures-if (ltb (min amount payoff) amount) _ _
        (λ more.
          let over = ltb→lt (min amount payoff) amount more in
          let e : min amount payoff ≡ payoff = omega arith in
          Ensures-or_err (c.uint128_checked_sub amount (min amount payoff)) _ _ λ excess ex.
            let same : excess ≡ amount - payoff =
              ground (arith, laws.uint128_sub_law amount (min amount payoff)) in
            let coins = lending_coins contract excess in
            Ensures->>= (commit_if commit_funds contract here sender coins) _ λ commit ec.
              let asked =
                (commit_if-IsCommit commit_funds contract here sender coins).at commit ec in
              Ensures-ok (bank_send sender coins ∷ commit)
                (rw (← same) (inl (omega arith, commit, asked, refl))))
        (λ enough. Ensures-ok [] (inr (ground arith, refl)))

  pub scaled_repayment_eq :
      (amount payoff debt index : ℕ)
      → Ensures
          (λ s.
            ((payoff ≤ amount) × (s ≡ debt))
            ⊎ ((amount < payoff)
                × (s * index ≤ amount * decimal_one)
                × (amount * decimal_one < (s + 1) * index)))
          (scaled_repayment (min amount payoff) payoff debt index)
  unfolding scaled_repayment
  scaled_repayment_eq amount payoff debt index =
      Ensures-if (leb payoff (min amount payoff)) _ _ (λ all. Ensures-ok debt (inl (ground arith)))
        (λ part. record {
          at = λ s hs.
              let (ne, e, _) = underlying_to_scaled_borrow_eq laws (min amount payoff) index hs in
              let (lo, hi) = quotient_bounds (min amount payoff * decimal_one) ne in
              let less : amount < payoff = ground arith in
              inr (less, rw e (omega arith), rw e (omega arith));
        })

  repay-Ensures :
      (pool : Pool) (env : Env) (info : MessageInfo)
      → Ensures (Repaid pool env info) (repay pool env info)
  unfolding repay
  repay-Ensures pool env info =
      let contract = pool.contract in
      let debt = get_scaled_borrow pool info.sender in
      let commit_funds = get_borrower_require_commit pool info.sender in
      Ensures->>= (validate_single_coin_denom info contract.lending_denom 1) _ λ amount coin.
        Ensures-update pool env contract.rate_params _ λ r er. Ensures-ensure (ltb 0 debt) _ _ λ _.
          Ensures->>= (scaled_to_underlying_borrow_ceil debt r.borrow_index) _ λ payoff ep.
            let part = min amount payoff in
            Ensures->>= (scaled_repayment part payoff debt r.borrow_index) _ λ repaid es.
              Ensures-ensure (ltb 0 repaid) _ _ λ some_repaid.
                Ensures-or_err (U128.checked_sub debt repaid) _ _ λ debt_left ed.
                  Ensures-or_err (U128.checked_sub r.total_scaled_borrow repaid) _ _
                    λ total_left et.
                      Ensures->>=
                        (refund_excess commit_funds contract env.contract_address info.sender amount
                          part)
                        _
                        λ messages em.
                          let r' = record r { total_scaled_borrow = total_left } in
                          let pool2 =
                            set_scaled_borrow (set_reserve_state pool r) info.sender debt_left in
                          Ensures-attach_rates (set_reserve_state pool2 r') messages r'
                            contract.rate_params
                            λ rates.
                              let (paid, _) =
                                (single_coin_iff info contract.lending_denom 1 amount).0 coin in
                              let entitled =
                                (scaled_repayment_eq amount payoff debt r.borrow_index).at repaid
                                  es in
                              let sends =
                                (refund_excess_eq commit_funds contract env.contract_address
                                    info.sender amount payoff).at
                                  messages em in
                              record {
                                accrued = r;
                                accrues = er;
                                sent = amount;
                                funds = paid;
                                payoff = payoff;
                                payoff_eq = ep;
                                repaid = repaid;
                                repaid_some = ltb→lt 0 repaid some_repaid;
                                entitled = entitled;
                                debt_left = debt_left;
                                debt_falls = u128_sub_eq debt repaid ed;
                                total_left = total_left;
                                total_falls = u128_sub_eq r.total_scaled_borrow repaid et;
                                writes = refl;
                                sends = sends;
                              }

  -- A repayment that goes through is the one coin sent, of the lending denom. It takes the same scaled
  -- amount, which is not zero, from the sender's debt and from the reserve's total: all of the debt if the
  -- coin is at least the payoff, and else what the coin is worth at the accrued borrow index, rounded
  -- down. What was sent beyond the payoff goes back to the sender in one payment, followed by the request to
  -- commit these coins if the sender requires it, and by nothing if not; without an excess nothing
  -- is sent.
  pub repay-Repaid :
      (pool : Pool) (env : Env) (info : MessageInfo) {out : Pool × Response}
      → repay pool env info ≡ ok out
      → Repaid pool env info out
  repay-Repaid pool env info {out} h = (repay-Ensures pool env info).at out h

  pub repay-IsValid :
      (pool : Pool) (env : Env) (info : MessageInfo) {out : Pool × Response}
      → IsValid pool
      → repay pool env info ≡ ok out
      → IsValid out.0
  repay-IsValid pool env info {out} v h =
      let e = repay-Repaid pool env info h in
      let r = e.accrued in
      let pool1 = set_reserve_state pool r in
      let a = accrual-IsValid laws pool env.block_time pool.contract.rate_params v e.accrues in
      let r' = record r { total_scaled_borrow = e.total_left } in
      rw (e.writes) (
        set_scaled_borrow-IsValid pool1 info.sender e.debt_left r' a
          (omega (arith, e.debt_falls, e.total_falls))
          (omega (arith, e.total_falls, a.borrow_bound)) a.liquidity_bound a.accrued_bound
          a.deficit_bound)
