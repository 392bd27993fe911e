-- ===== src/Liquidation/Settling.antt =====
-- What a liquidation does to the reserve: section 8 of `liquidate` in
-- contracts/pool_v2/src/execute/liquidate.rs.
use democratized_prime_smart.U128
use democratized_prime_smart.Contract.{
  BadDebtLossAllocation, ContractState, deferred_to_deficit, immediate_liquidity_index_haircut,
}
use democratized_prime_smart.Cosmwasm.{Cosmwasm, IsCosmwasm, decimal_one, u128_size}
use democratized_prime_smart.Haircut.{apply_pro_rata_liquidity_index_haircut}
use democratized_prime_smart.Haircut.Loss.{claims, haircut_takes_loss}
use democratized_prime_smart.Liquidation.Payment.{Payment}
use democratized_prime_smart.Liquidation.Seizure.{book_loss, settle_reserve}
use democratized_prime_smart.Prelude.{
  Bool, Bool-cases, Ensures, Ensures-ok, Ensures-or_err, ap, arith, false, if◌then◌else◌, inl, inr,
  refl, subst, sym, true, ℕ, ◌*◌, ◌+◌, ◌<◌, ◌==◌, ◌∙◌, ◌≡◌, ◌≢◌, ◌≤◌, ◌⊎◌,
}
use democratized_prime_smart.Reserve.{ReserveState}
use democratized_prime_smart.U128.Laws.{u128_add_eq, u128_sub_eq}

-- A loss is in the deficit, or taken from the lenders' claims.
pub record Booked (allocation : BadDebtLossAllocation) (reserve : ReserveState) (loss : ℕ)
    (reserve' : ReserveState) : Type 0 where
  pub rest : reserve' ≡ record reserve {
    liquidity_index = reserve'.liquidity_index;
    deficit_underlying = reserve'.deficit_underlying;
  }
  pub deficit_bound : reserve'.deficit_underlying < u128_size
  pub taken :
      ((allocation ≡ deferred_to_deficit)
        × (reserve'.deficit_underlying ≡ reserve.deficit_underlying + loss)
        × (reserve'.liquidity_index ≡ reserve.liquidity_index))
      ⊎ ((allocation ≡ immediate_liquidity_index_haircut)
          × (reserve'.deficit_underlying ≡ reserve.deficit_underlying)
          × (claims reserve' + loss * decimal_one ≤ claims reserve)
          × (claims reserve
              ≤ claims reserve' + loss * decimal_one + reserve.total_scaled_liquidity))

pub record Settled (contract : ContractState) (reserve : ReserveState) (payment : Payment)
    (bad_debt : Bool) (loss : ℕ) (reserve' : ReserveState) : Type 0 where
  pub total_falls :
      reserve'.total_scaled_borrow
        + payment.scaled_repay
        + (if bad_debt then payment.new_scaled_debt else 0)
      ≡ reserve.total_scaled_borrow
  pub booked :
      ((bad_debt ≡ false)
        × (reserve' ≡ record reserve { total_scaled_borrow = reserve'.total_scaled_borrow }))
      ⊎ ((bad_debt ≡ true)
          × Booked contract.bad_debt_loss_allocation
              (record reserve { total_scaled_borrow = reserve'.total_scaled_borrow })
              loss
              reserve')

module _ ⦃c : Cosmwasm⦄ (laws : IsCosmwasm c) where
  haircut-Booked :
      (reserve : ReserveState) (loss : ℕ)
      → reserve.total_scaled_liquidity < u128_size
      → reserve.deficit_underlying < u128_size
      → Ensures
          (Booked immediate_liquidity_index_haircut reserve loss)
          (apply_pro_rata_liquidity_index_haircut reserve loss)
  unfolding apply_pro_rata_liquidity_index_haircut
  haircut-Booked reserve loss small within = record {
    at = λ r h. elim (Bool-cases (loss == 0)) [
      | inl nothing ↦
          let loss_eq : loss ≡ 0 = ground arith in
          let same : reserve ≡ r = ground arith in
          rw (← same) (record {
            rest = refl;
            deficit_bound = within;
            taken = inr (refl, refl, omega arith, omega arith);
          })
      | inr something ↦
          let ne : loss ≢ 0 = ground arith in
          let (rest, _, low, high) = haircut_takes_loss laws reserve loss {r' = r} small ne h in
          let deficit_eq : r.deficit_underlying ≡ reserve.deficit_underlying =
            ap (λ (x : ReserveState). x.deficit_underlying) rest in
          record {
            rest =
                rest
                ∙ ap
                    (λ (x : ℕ). record reserve {
                      liquidity_index = r.liquidity_index;
                      deficit_underlying = x;
                    })
                    (sym deficit_eq);
            deficit_bound = rw deficit_eq within;
            taken = inr (refl, deficit_eq, low, omega (arith, high));
          }
    ];
  }

  book_loss-Booked :
      (allocation : BadDebtLossAllocation) (reserve : ReserveState) (loss : ℕ)
      → reserve.total_scaled_liquidity < u128_size
      → reserve.deficit_underlying < u128_size
      → Ensures (Booked allocation reserve loss) (book_loss allocation reserve loss)
  unfolding book_loss
  book_loss-Booked immediate_liquidity_index_haircut reserve loss small within =
      haircut-Booked reserve loss small within
  book_loss-Booked deferred_to_deficit reserve loss small within =
      Ensures-or_err (U128.checked_add reserve.deficit_underlying loss) _ _ λ deficit ed.
        let (sum_eq, bound) = u128_add_eq reserve.deficit_underlying loss ed in
        Ensures-ok (record reserve { deficit_underlying = deficit })
          (record { rest = refl; deficit_bound = bound; taken = inl (refl, sum_eq, refl) })

  pub settle_reserve-Settled :
      (contract : ContractState) (reserve : ReserveState) (payment : Payment) (bad_debt : Bool)
      (loss : ℕ)
      → reserve.total_scaled_liquidity < u128_size
      → reserve.deficit_underlying < u128_size
      → Ensures
          (Settled contract reserve payment bad_debt loss)
          (settle_reserve contract reserve payment bad_debt loss)
  unfolding settle_reserve
  settle_reserve-Settled contract reserve payment false loss small within =
      Ensures-or_err (U128.checked_sub reserve.total_scaled_borrow payment.scaled_repay) _ _
        λ total et.
          Ensures-ok (record reserve { total_scaled_borrow = total })
            (record {
              total_falls =
                  omega (arith, u128_sub_eq reserve.total_scaled_borrow payment.scaled_repay et);
              booked = inl (refl, refl);
            })
  settle_reserve-Settled contract reserve payment true loss small within =
      let repaid = payment.scaled_repay in
      let left = payment.new_scaled_debt in
      Ensures-or_err (U128.checked_add repaid left) _ _ λ both eb.
        Ensures-or_err (U128.checked_sub reserve.total_scaled_borrow both) _ _ λ total et. record {
          at = λ r h.
              let mid = record reserve { total_scaled_borrow = total } in
              let e =
                (book_loss-Booked contract.bad_debt_loss_allocation mid loss small within).at r h in
              let total_eq : r.total_scaled_borrow ≡ total =
                ap (λ (x : ReserveState). x.total_scaled_borrow) e.rest in
              record {
                total_falls = omega (
                  arith,
                  total_eq,
                  (u128_add_eq repaid left eb).0,
                  u128_sub_eq reserve.total_scaled_borrow both et,
                );
                booked = inr (
                  refl,
                  subst
                      (λ (x : ℕ).
                        Booked contract.bad_debt_loss_allocation
                          (record reserve { total_scaled_borrow = x }) loss r)
                      (sym total_eq) e,
                );
              };
        }
