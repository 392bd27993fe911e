-- ===== src/Pool/Invariant.antt =====
-- The invariant of the pool's storage: the aggregates of the reserve are those of the borrowers.
use democratized_prime_smart.Map
use democratized_prime_smart.Accrual.{compute_effective_reserve}
use democratized_prime_smart.Accrual.Growth.{accrual-Grows}
use democratized_prime_smart.Cosmwasm.{Cosmwasm, IsCosmwasm, u128_size}
use democratized_prime_smart.Host.{Env, Msg}
use democratized_prime_smart.Map.{Map}
use democratized_prime_smart.Map.Sums.{IsSortedAbove, store-IsSortedAbove, sum, sum-store}
use democratized_prime_smart.Pool.{
  Pool, get_borrower_collateral, get_scaled_borrow, set_borrower_collateral, set_reserve_state,
  set_scaled_borrow,
}
use democratized_prime_smart.Prelude.{
  Ensures, Ensures->>=, Ensures-err, Ensures-ok, List, Result, Result-cases, [], arith, get_or, inl,
  inr, ok, some, sym, ℕ, ◌+◌, ◌<◌, ◌>>=◌, ◌∙◌, ◌∷◌, ◌≡◌,
}
use democratized_prime_smart.RateParams.{RateParams}
use democratized_prime_smart.Reserve.{ReserveState}
use democratized_prime_smart.Responses.{
  RateValues, Response, attach_rates, lend_borrow_rate_attribute_values, update_reserve_indexes,
}

-- the amount of an asset that the borrowers hold together
abbrev pub held : ℕ → Map (Map ℕ) → ℕ
held asset [] = 0
held asset ((_, amounts) ∷ m) = Map.get asset amounts + held asset m

-- Every borrower's amounts stand by rising asset.
abbrev pub AreSorted : Map (Map ℕ) → Type 0
AreSorted [] = Unit
AreSorted ((_, amounts) ∷ m) = IsSortedAbove 0 amounts × AreSorted m

pub record IsValid (pool : Pool) : Type 0 where
  pub borrow_total : sum pool.scaled_borrow ≡ pool.reserve.total_scaled_borrow
  pub debts_sorted : IsSortedAbove 0 pool.scaled_borrow
  pub liquidity_bound : pool.reserve.total_scaled_liquidity < u128_size
  pub borrow_bound : pool.reserve.total_scaled_borrow < u128_size
  pub accrued_bound : pool.reserve.accrued_reserve < u128_size
  pub deficit_bound : pool.reserve.deficit_underlying < u128_size
  pub collateral_total :
      (asset : ℕ)
      → held asset pool.borrower_collateral ≡ Map.get asset pool.total_collateral_by_asset
  pub totals_sorted : IsSortedAbove 0 pool.total_collateral_by_asset
  pub borrowers_sorted : IsSortedAbove 0 pool.borrower_collateral
  pub holdings_sorted : AreSorted pool.borrower_collateral

pub held-insert :
    (asset b : ℕ) (amounts : Map ℕ) (m : Map (Map ℕ))
    → held asset (Map.insert b amounts m) + Map.get asset (get_or [] (Map.lookup b m))
      ≡ held asset m + Map.get asset amounts
held-insert asset b amounts [] = omega arith
held-insert asset b amounts ((k, w) ∷ m) = ground (arith, held-insert asset b amounts m)

pub held-remove :
    (asset b : ℕ) (m : Map (Map ℕ))
    → held asset (Map.remove b m) + Map.get asset (get_or [] (Map.lookup b m)) ≡ held asset m
held-remove asset b [] = omega arith
held-remove asset b ((k, w) ∷ m) = ground (arith, held-remove asset b m)

-- What is written for one borrower moves the amount held by as much.
pub held-set_borrower_collateral :
    (asset b : ℕ) (amounts : Map ℕ) (pool : Pool)
    → held asset (set_borrower_collateral pool b amounts).borrower_collateral
        + Map.get asset (get_borrower_collateral pool b)
      ≡ held asset pool.borrower_collateral + Map.get asset amounts
held-set_borrower_collateral asset b [] pool =
    omega (arith, held-remove asset b pool.borrower_collateral)
held-set_borrower_collateral asset b (e ∷ amounts) pool =
    held-insert asset b (e ∷ amounts) pool.borrower_collateral

-- A new state of the reserve keeps the invariant if it keeps the borrowed total and fits its words.
pub set_reserve_state-IsValid :
    (pool : Pool) (r : ReserveState)
    → IsValid pool
    → r.total_scaled_borrow ≡ pool.reserve.total_scaled_borrow
    → r.total_scaled_liquidity < u128_size
    → r.accrued_reserve < u128_size
    → r.deficit_underlying < u128_size
    → IsValid (set_reserve_state pool r)
set_reserve_state-IsValid pool r v b l a d = record {
  borrow_total = v.borrow_total ∙ sym b;
  debts_sorted = v.debts_sorted;
  liquidity_bound = l;
  borrow_bound = rw b v.borrow_bound;
  accrued_bound = a;
  deficit_bound = d;
  collateral_total = v.collateral_total;
  totals_sorted = v.totals_sorted;
  borrowers_sorted = v.borrowers_sorted;
  holdings_sorted = v.holdings_sorted;
}

-- The invariant is of the reserve, the debts and the collateral alone.
pub elsewhere-IsValid :
    (pool pool' : Pool)
    → IsValid pool
    → pool'.reserve ≡ pool.reserve
    → pool'.scaled_borrow ≡ pool.scaled_borrow
    → pool'.borrower_collateral ≡ pool.borrower_collateral
    → pool'.total_collateral_by_asset ≡ pool.total_collateral_by_asset
    → IsValid pool'
elsewhere-IsValid pool pool' v er es eb et = record {
  borrow_total = rw (er, es) v.borrow_total;
  debts_sorted = rw es v.debts_sorted;
  liquidity_bound = rw er v.liquidity_bound;
  borrow_bound = rw er v.borrow_bound;
  accrued_bound = rw er v.accrued_bound;
  deficit_bound = rw er v.deficit_bound;
  collateral_total = rw (eb, et) v.collateral_total;
  totals_sorted = rw et v.totals_sorted;
  borrowers_sorted = rw eb v.borrowers_sorted;
  holdings_sorted = rw eb v.holdings_sorted;
}

-- So does a change of one borrower's scaled debt, if the total moves by as much.
pub set_scaled_borrow-IsValid :
    (pool : Pool) (owner amount : ℕ) (r : ReserveState)
    → IsValid pool
    → r.total_scaled_borrow + get_scaled_borrow pool owner
      ≡ pool.reserve.total_scaled_borrow + amount
    → r.total_scaled_borrow < u128_size
    → r.total_scaled_liquidity < u128_size
    → r.accrued_reserve < u128_size
    → r.deficit_underlying < u128_size
    → IsValid (set_reserve_state (set_scaled_borrow pool owner amount) r)
set_scaled_borrow-IsValid pool owner amount r v e b l a d = record {
  borrow_total = omega (arith, sum-store owner amount pool.scaled_borrow, v.borrow_total);
  debts_sorted = store-IsSortedAbove owner amount pool.scaled_borrow v.debts_sorted;
  liquidity_bound = l;
  borrow_bound = b;
  accrued_bound = a;
  deficit_bound = d;
  collateral_total = v.collateral_total;
  totals_sorted = v.totals_sorted;
  borrowers_sorted = v.borrowers_sorted;
  holdings_sorted = v.holdings_sorted;
}

module _ ⦃c : Cosmwasm⦄ (laws : IsCosmwasm c) where
  -- Accrual keeps the invariant.
  pub accrual-IsValid :
      (pool : Pool) (t : ℕ) (p : RateParams) {r : ReserveState}
      → IsValid pool
      → compute_effective_reserve pool.reserve t p ≡ ok r
      → IsValid (set_reserve_state pool r)
  accrual-IsValid pool t p {r} v h =
      let g = accrual-Grows laws pool.reserve t p v.accrued_bound h in
      set_reserve_state-IsValid pool r v g.same_scaled_borrow
        (rw g.same_scaled_liquidity v.liquidity_bound) g.accrued_reserve_bound
        (rw g.same_deficit v.deficit_bound)

module _ {ℓ} ⦃c : Cosmwasm⦄ {B : Type 0} {P : B → Type ℓ} where
  -- the rest of a handler after the accrual
  pub Ensures-update :
      (pool : Pool) (env : Env) (p : RateParams) (f : Pool × ReserveState → Result B)
      → ((r : ReserveState)
          → compute_effective_reserve pool.reserve env.block_time p ≡ ok r
          → Ensures P (f (set_reserve_state pool r, r)))
      → Ensures P (update_reserve_indexes pool env p >>= f)
  unfolding update_reserve_indexes
  Ensures-update pool env p f k =
      elim (Result-cases (compute_effective_reserve pool.reserve env.block_time p)) [
        | inl (r, e) ↦ rw e (k r e)
        | inr (er, e) ↦ rw e (Ensures-err er)
      ]

module _ {ℓ} ⦃c : Cosmwasm⦄ {P : Pool × Response → Type ℓ} where
  -- the end of a handler
  pub Ensures-attach_rates :
      (pool : Pool) (messages : List Msg) (r : ReserveState) (p : RateParams)
      → ((rates : RateValues) → P (pool, record { messages = messages; rates = some rates }))
      → Ensures P (attach_rates pool messages r p)
  unfolding attach_rates
  Ensures-attach_rates pool messages r p k =
      Ensures->>= (lend_borrow_rate_attribute_values r p) _
        λ rates _. Ensures-ok (pool, record { messages = messages; rates = some rates }) (k rates)
