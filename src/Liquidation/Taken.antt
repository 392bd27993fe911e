-- ===== src/Liquidation/Taken.antt =====
-- The collateral and the debt after a liquidation: `liquidate` in
-- contracts/pool_v2/src/execute/liquidate.rs.
use democratized_prime_smart.Map
use democratized_prime_smart.Collateral.Totals.{amount_of}
use democratized_prime_smart.Cosmwasm.{Cosmwasm, IsCosmwasm, decimal_one}
use democratized_prime_smart.DirectedSale.{subtract_seize}
use democratized_prime_smart.Host.{Coin, Env, Host, MessageInfo, Msg}
use democratized_prime_smart.Liquidation.{liquidate}
use democratized_prime_smart.Liquidation.Effects.{Liquidated, liquidate-Liquidated}
use democratized_prime_smart.Liquidation.Payment.{Position, refund}
use democratized_prime_smart.Liquidation.Seizure.{
  bad_debt_underlying, debt_left, left_of_offer, shrink_offer, stored_collateral,
}
use democratized_prime_smart.Liquidation.Settling.{Booked, Settled}
use democratized_prime_smart.Liquidation.Tender.{
  Tender, excess, excess_of_min, pays, send_collateral_eq,
}
use democratized_prime_smart.Map.{Map}
use democratized_prime_smart.Pool.{Pool, get_borrower_collateral, get_scaled_borrow}
use democratized_prime_smart.Pool.Invariant.{IsValid, elsewhere-IsValid}
use democratized_prime_smart.Prelude.{
  Bool-cases, List, Option-cases, [], ap, arith, inl, inr, ok, refl, some, subst, sym, ℕ, ◌*◌, ◌++◌,
  ◌+◌, ◌<◌, ◌∙◌, ◌≡◌, ◌≤◌, ◌⊎◌,
}
use democratized_prime_smart.Reserve.{ReserveState}
use democratized_prime_smart.Responses.{Response}
use democratized_prime_smart.Scaling.{scaled_to_underlying_borrow_ceil}

-- Of a borrower's collateral, what left the pool went to the liquidator.
pub record CollateralTaken ⦃c : Cosmwasm⦄ (pool : Pool) (env : Env) (info : MessageInfo)
    (borrower : ℕ) (pool' : Pool) (messages : List Msg) : Type 0 where
  pub tender : Tender pool env info borrower
  pub coins : List Coin
  pub sends :
      messages
      ≡ pays info.sender coins ++ excess pool.contract info.sender tender.sent tender.payoff
  pub own :
      (asset : ℕ)
      → Map.get asset (get_borrower_collateral pool' borrower) + amount_of asset coins
        ≡ Map.get asset (get_borrower_collateral pool borrower)
  pub others :
      (j : ℕ) → (j ≡ borrower) ⊎ (get_borrower_collateral pool' j ≡ get_borrower_collateral pool j)
  pub totals :
      (asset : ℕ)
      → Map.get asset pool'.total_collateral_by_asset + amount_of asset coins
        ≡ Map.get asset pool.total_collateral_by_asset

-- The borrower's debt and the total fall by what is repaid; a rest that is written off is booked as a
-- loss, and nothing of the collateral is left.
pub record DebtTaken ⦃c : Cosmwasm⦄ (pool : Pool) (env : Env) (info : MessageInfo) (borrower : ℕ)
    (pool' : Pool) : Type 0 where
  pub tender : Tender pool env info borrower
  pub repaid : ℕ
  pub repaid_some : 0 < repaid
  pub entitled :
      ((tender.payoff ≤ tender.sent) × (repaid ≡ get_scaled_borrow pool borrower))
      ⊎ ((tender.sent < tender.payoff)
          × (repaid * tender.accrued.borrow_index ≤ tender.sent * decimal_one)
          × (tender.sent * decimal_one < (repaid + 1) * tender.accrued.borrow_index))
  pub rest : ℕ
  pub falls : rest + repaid ≡ get_scaled_borrow pool borrower
  pub outcome :
      ((pool'.scaled_borrow ≡ Map.store borrower rest pool.scaled_borrow)
        × (pool'.reserve.total_scaled_borrow + repaid ≡ tender.accrued.total_scaled_borrow)
        × (pool'.reserve
            ≡ record tender.accrued { total_scaled_borrow = pool'.reserve.total_scaled_borrow }))
      ⊎ ((pool'.scaled_borrow ≡ Map.store borrower 0 pool.scaled_borrow)
          × (pool'.reserve.total_scaled_borrow + repaid + rest ≡ tender.accrued.total_scaled_borrow)
          × (get_borrower_collateral pool' borrower ≡ [])
          × (loss : ℕ) × (scaled_to_underlying_borrow_ceil rest tender.accrued.borrow_index
              ≡ ok loss)
          × Booked pool.contract.bad_debt_loss_allocation
              (record tender.accrued { total_scaled_borrow = pool'.reserve.total_scaled_borrow })
              loss
              pool'.reserve)

shrink_offer-same :
    (pool : Pool) (borrower : ℕ) (position : Position) (seize : Map ℕ)
    → shrink_offer pool borrower position seize ≡ record pool {
      directed_sale_offer = (shrink_offer pool borrower position seize).directed_sale_offer;
    }
unfolding shrink_offer left_of_offer
shrink_offer-same pool borrower position seize = elim (Bool-cases position.directed_fill) [
  | inr unfilled ↦ rw unfilled refl
  | inl filled ↦ elim (Option-cases position.stored_offer) [
    | inl nothing ↦ rw (filled, nothing) refl
    | inr (offer, some_offer) ↦
        elim (Bool-cases (Map.is_empty (subtract_seize offer.amounts seize))) [
          | inl sold ↦ rw (filled, some_offer, sold) refl
          | inr stays ↦ rw (filled, some_offer, stays) refl
        ]
  ]
]

module _ ⦃c : Cosmwasm⦄ (laws : IsCosmwasm c) (host : Host) (pool : Pool) (env : Env)
    (info : MessageInfo) (borrower : ℕ) (seize : Map ℕ) {out : Pool × Response} where
  -- the offers aside, a liquidation leaves what its collateral step left
  pub after_eq :
      (e : Liquidated host pool env info borrower seize out)
      → out.0 ≡ record e.after { directed_sale_offer = out.0.directed_sale_offer }
  after_eq e =
      e.writes
      ∙ shrink_offer-same e.after e.address e.position seize
      ∙ ap (λ (x : Pool). record e.after { directed_sale_offer = x.directed_sale_offer })
          (sym e.writes)

  pub liquidate-IsValid :
      IsValid pool → liquidate host pool env info borrower seize ≡ ok out → IsValid out.0
  liquidate-IsValid v h =
      let e = liquidate-Liquidated laws host pool env info borrower seize v h in
      let same = after_eq e in
      elsewhere-IsValid e.after out.0 e.after-IsValid (ap (λ (x : Pool). x.reserve) same)
        (ap (λ (x : Pool). x.scaled_borrow) same) (ap (λ (x : Pool). x.borrower_collateral) same)
        (ap (λ (x : Pool). x.total_collateral_by_asset) same)

  tender_of :
      (e : Liquidated host pool env info borrower seize out) → Tender pool env info e.address
  tender_of e = record {
    accrued = e.accrued;
    accrues = e.accrues;
    sent = e.payment.sent;
    funds = e.paid.funds;
    payoff = e.position.debt_payoff;
    payoff_eq = rw (e.positioned.debt_eq) at e.positioned.payoff_eq;
  }

  messages_eq :
      (e : Liquidated host pool env info borrower seize out)
      → out.1.messages
        ≡ pays info.sender e.coins
          ++ excess pool.contract info.sender (tender_of e).sent (tender_of e).payoff
  unfolding tender_of refund
  messages_eq e =
      e.sends
      ∙ ap (λ (x : List Msg). x ++ refund info.sender pool.contract e.payment)
          (send_collateral_eq info.sender e.coins)
      ∙ ap (λ (x : List Msg). pays info.sender e.coins ++ x)
          (rw (e.paid.actual_eq)
            (excess_of_min pool.contract info.sender e.payment.sent e.position.debt_payoff))

  -- In a valid pool, of each asset a liquidation takes from the borrower's holdings, and from the asset's
  -- total, just the coins of a first message to the liquidator, which is left out if there are none; no
  -- other borrower's holdings change. Beside it the only message sends back to the liquidator what the
  -- coin sent exceeds the borrower's payoff.
  pub liquidate-CollateralTaken :
      IsValid pool
      → liquidate host pool env info borrower seize ≡ ok out
      → (address : ℕ) × (host.addr_validate (host.trim borrower) ≡ some address)
        × CollateralTaken pool env info address out.0 out.1.messages
  liquidate-CollateralTaken v h =
      let e = liquidate-Liquidated laws host pool env info borrower seize v h in
      let same = after_eq e in
      let holds = λ (j : ℕ). ap (λ (x : Pool). get_borrower_collateral x j) same in
      (
        e.address,
        e.address_eq,
        record {
          tender = tender_of e;
          coins = e.coins;
          sends = messages_eq e;
          own = λ asset. rw (holds e.address) (omega (arith, e.moved.own asset));
          others = λ j. rw (holds j) (e.moved.others j);
          totals = λ asset. omega (
            arith,
            ap (λ (x : Pool). Map.get asset x.total_collateral_by_asset) same,
            e.moved.totals asset,
          );
        },
      )

  -- In a valid pool, a liquidation takes what is repaid, which is not zero, from the borrower's scaled debt
  -- and from the total of the accrued reserve: all of the debt if the one coin sent is at least the payoff,
  -- and else what the coin is worth at the accrued borrow index, rounded down. The rest of the debt either
  -- stays, and nothing else of the accrued reserve changes; or it too leaves the debt and the total, the
  -- borrower is left without collateral, and its worth rounded up is booked as the contract allocates
  -- a loss: added to the deficit, or taken from the lenders' claims, at least as much and at
  -- most one atomic of the index more.
  pub liquidate-DebtTaken :
      IsValid pool
      → liquidate host pool env info borrower seize ≡ ok out
      → (address : ℕ) × (host.addr_validate (host.trim borrower) ≡ some address)
        × DebtTaken pool env info address out.0
  unfolding bad_debt_underlying tender_of
  liquidate-DebtTaken v h =
      let e = liquidate-Liquidated laws host pool env info borrower seize v h in
      let same = after_eq e in
      let debts : out.0.scaled_borrow
          ≡ Map.store e.address (debt_left e.payment e.seizure.bad_debt) pool.scaled_borrow =
        ap (λ (x : Pool). x.scaled_borrow) same ∙ ap (λ (x : Pool). x.scaled_borrow) e.moved.rest in
      let reserve_eq : out.0.reserve ≡ e.reserve' =
        ap (λ (x : Pool). x.reserve) same ∙ ap (λ (x : Pool). x.reserve) e.moved.rest in
      let settled =
        subst
          (λ (x : ReserveState).
            Settled pool.contract e.accrued e.payment e.seizure.bad_debt e.loss x)
          (sym reserve_eq) e.settled in
      let holdings : get_borrower_collateral out.0 e.address ≡ stored_collateral e.seizure =
        ap (λ (x : Pool). get_borrower_collateral x e.address) same ∙ e.stored in
      (
        e.address,
        e.address_eq,
        record {
          tender = tender_of e;
          repaid = e.payment.scaled_repay;
          repaid_some = e.paid.repaid_some;
          entitled = rw (← e.positioned.debt_eq) e.paid.entitled;
          rest = e.payment.new_scaled_debt;
          falls = e.paid.debt_falls ∙ e.positioned.debt_eq;
          outcome = elim settled.booked [
            | inl (kept, only_total) ↦
                inl (rw kept at debts, omega (arith, rw kept at (settled.total_falls)), only_total)
            | inr (written_off, booked) ↦ inr (
              rw written_off at debts,
              rw written_off at (settled.total_falls),
              rw written_off at holdings,
              e.loss,
              rw written_off at (e.loss_eq),
              booked,
            )
          ];
        },
      )
