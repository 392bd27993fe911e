-- ===== src/Collateral/Settling.antt =====
-- What moves when a borrower's collateral is stored and the totals by asset follow:
-- contracts/pool_v2/src/storage/collateral.rs.
use democratized_prime_smart.Map
use democratized_prime_smart.Collateral.Totals.{Changed, Moved, amount_of}
use democratized_prime_smart.Host.{Coin}
use democratized_prime_smart.Map.{Map}
use democratized_prime_smart.Pool.{Pool, get_borrower_collateral, set_borrower_collateral}
use democratized_prime_smart.Pool.Collateral.{
  get-set_borrower_collateral, set_borrower_collateral-AreSorted,
  set_borrower_collateral-IsSortedAbove,
}
use democratized_prime_smart.Pool.Invariant.{IsValid, held-set_borrower_collateral}
use democratized_prime_smart.Prelude.{List, [], ap, arith, get_or, sym, ℕ, ◌+◌, ◌∙◌, ◌≡◌, ◌⊎◌}

pub record CollateralMoved (pool pool' : Pool) (borrower : ℕ) (coins back : List Coin)
    : Type 0 where
  pub rest : pool' ≡ record pool {
    borrower_collateral = pool'.borrower_collateral;
    total_collateral_by_asset = pool'.total_collateral_by_asset;
  }
  pub own :
      (asset : ℕ)
      → Map.get asset (get_borrower_collateral pool' borrower) + amount_of asset back
        ≡ Map.get asset (get_borrower_collateral pool borrower) + amount_of asset coins
  pub others :
      (j : ℕ) → (j ≡ borrower) ⊎ (get_borrower_collateral pool' j ≡ get_borrower_collateral pool j)
  pub totals :
      (asset : ℕ)
      → Map.get asset pool'.total_collateral_by_asset + amount_of asset back
        ≡ Map.get asset pool.total_collateral_by_asset + amount_of asset coins

module _ {pool pool' : Pool} (borrower : ℕ) {amounts : Map ℕ} (coins back : List Coin) where
  pub settle :
      IsValid pool
      → Changed (get_borrower_collateral pool borrower) amounts coins back
      → Moved (set_borrower_collateral pool borrower amounts) pool' coins back
      → CollateralMoved pool pool' borrower coins back
  settle v changed e =
      let holdings = ap (λ (x : Pool). x.borrower_collateral) e.same in
      let get_eq = λ (j : ℕ).
        ap (λ (x : Map (Map ℕ)). get_or [] (Map.lookup j x)) holdings
        ∙ get-set_borrower_collateral pool borrower amounts j v.borrowers_sorted in
      record {
        rest =
            e.same
            ∙ ap
                (λ (x : Map (Map ℕ)). record pool {
                  borrower_collateral = x;
                  total_collateral_by_asset = pool'.total_collateral_by_asset;
                })
                (sym holdings);
        own = λ asset. rw (get_eq borrower) (ground (arith, changed.moved asset));
        others = λ j. rw (get_eq j) (ground arith);
        totals = e.totals;
      }

  pub settle-IsValid :
      IsValid pool
      → Changed (get_borrower_collateral pool borrower) amounts coins back
      → Moved (set_borrower_collateral pool borrower amounts) pool' coins back
      → IsValid pool'
  settle-IsValid v changed e = rw (e.same) (record {
    borrow_total = v.borrow_total;
    debts_sorted = v.debts_sorted;
    liquidity_bound = v.liquidity_bound;
    borrow_bound = v.borrow_bound;
    accrued_bound = v.accrued_bound;
    deficit_bound = v.deficit_bound;
    collateral_total = λ asset. omega (
      arith,
      held-set_borrower_collateral asset borrower amounts pool,
      changed.moved asset,
      e.totals asset,
      v.collateral_total asset,
    );
    totals_sorted = e.sorted;
    borrowers_sorted =
        set_borrower_collateral-IsSortedAbove pool borrower amounts v.borrowers_sorted;
    holdings_sorted =
        set_borrower_collateral-AreSorted pool borrower amounts changed.sorted v.holdings_sorted;
  })
