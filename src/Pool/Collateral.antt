-- ===== src/Pool/Collateral.antt =====
-- What is read after one borrower's collateral is written, and the order of what is stored.
use democratized_prime_smart.Map
use democratized_prime_smart.Map.{Map}
use democratized_prime_smart.Map.Sums.{
  IsSortedAbove, insert-IsSortedAbove, lookup-insert, lookup-remove, remove-IsSortedAbove,
}
use democratized_prime_smart.Pool.{Pool, get_borrower_collateral, set_borrower_collateral}
use democratized_prime_smart.Pool.Invariant.{AreSorted}
use democratized_prime_smart.Prelude.{
  Bool-cases, [], arith, get_or, if◌then◌else◌, inl, inr, ℕ, ◌==◌, ◌∷◌, ◌≡◌,
}

module _ (pool : Pool) (borrower : ℕ) (amounts : Map ℕ) where
  pub get-set_borrower_collateral :
      (j : ℕ)
      → IsSortedAbove 0 pool.borrower_collateral
      → get_borrower_collateral (set_borrower_collateral pool borrower amounts) j
        ≡ (if j == borrower then amounts else get_borrower_collateral pool j)
  get-set_borrower_collateral j s = elim (Bool-cases (Map.is_empty amounts)) [
    | inl none_left ↦
        let nil : amounts ≡ [] = ground arith in
        ground (arith, lookup-remove borrower j 0 pool.borrower_collateral s)
    | inr some_left ↦ ground (arith, lookup-insert borrower j amounts pool.borrower_collateral)
  ]

  pub set_borrower_collateral-IsSortedAbove :
      IsSortedAbove 0 pool.borrower_collateral
      → IsSortedAbove 0 (set_borrower_collateral pool borrower amounts).borrower_collateral
  set_borrower_collateral-IsSortedAbove s = ground (
    arith,
    insert-IsSortedAbove borrower 0 amounts pool.borrower_collateral,
    remove-IsSortedAbove borrower 0 pool.borrower_collateral s,
  )

  insert-AreSorted :
      (m : Map (Map ℕ))
      → IsSortedAbove 0 amounts
      → AreSorted m
      → AreSorted (Map.insert borrower amounts m)
  insert-AreSorted [] s all = (s, tt)
  insert-AreSorted ((k, w) ∷ m) s all = ground (arith, insert-AreSorted m s all.1)

  remove-AreSorted : (m : Map (Map ℕ)) → AreSorted m → AreSorted (Map.remove borrower m)
  remove-AreSorted [] all = tt
  remove-AreSorted ((k, w) ∷ m) all = ground (arith, remove-AreSorted m all.1)

  pub set_borrower_collateral-AreSorted :
      IsSortedAbove 0 amounts
      → AreSorted pool.borrower_collateral
      → AreSorted (set_borrower_collateral pool borrower amounts).borrower_collateral
  set_borrower_collateral-AreSorted s all = ground (
    arith,
    insert-AreSorted pool.borrower_collateral s all,
    remove-AreSorted pool.borrower_collateral all,
  )

lookup-AreSorted :
    (b : ℕ) (m : Map (Map ℕ)) → AreSorted m → IsSortedAbove 0 (get_or [] (Map.lookup b m))
lookup-AreSorted b [] all = tt
lookup-AreSorted b ((k, w) ∷ m) all = ground (arith, lookup-AreSorted b m all.1)

pub get_borrower_collateral-IsSortedAbove :
    (pool : Pool) (b : ℕ)
    → AreSorted pool.borrower_collateral
    → IsSortedAbove 0 (get_borrower_collateral pool b)
get_borrower_collateral-IsSortedAbove pool b all = lookup-AreSorted b pool.borrower_collateral all
