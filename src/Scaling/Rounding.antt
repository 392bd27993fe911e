-- ===== src/Scaling/Rounding.antt =====
-- Which way the conversions round, and by how much: contracts/pool_v2/src/utils/rates.rs.
use native.Mathlib.Nat.{
  div-mul-le_self, lt-div-mul-add, div-le_self, mul-le-mul_right, mul-lt-mul_of_pos_right,
  div-eq_of_lt-le, div-le_of_le-mul,
}
use democratized_prime_smart.Cosmwasm.{Cosmwasm, IsCosmwasm, decimal_one, u128_size}
use democratized_prime_smart.Prelude.{
  List, [], ap, arith, if◌then◌else◌, leb, ok, ℕ, ◌*◌, ◌+◌, ◌-◌, ◌/◌, ◌<◌, ◌∷◌, ◌≡◌, ◌≢◌, ◌≤◌,
}
use democratized_prime_smart.Scaling.{
  scaled_to_underlying_borrow, scaled_to_underlying_borrow_ceil, scaled_to_underlying_liquidity,
  underlying_to_scaled_borrow_ceil, underlying_to_scaled_liquidity,
}
use democratized_prime_smart.Scaling.Exact.{
  nested_div, scaled_to_underlying_borrow_ceil_eq, scaled_to_underlying_borrow_eq,
  scaled_to_underlying_liquidity_eq, underlying_to_scaled_borrow_ceil_eq,
  underlying_to_scaled_liquidity_eq,
}

-- A quotient between its multiples.
pub quotient_bounds : (a : ℕ) {b : ℕ} → b ≢ 0 → (a / b * b ≤ a) × (a < a / b * b + b)
quotient_bounds a {b} ne = (div-mul-le_self a b, lt-div-mul-add {a = a} {b = b} (omega arith))

-- A number rounded up to a multiple of 10^18, as a count of these.
rounded_up :
    {q s : ℕ}
    → s ≡ (q + (decimal_one - 1)) / decimal_one
    → (q ≤ s * decimal_one) × (s * decimal_one < q + decimal_one)
rounded_up e = omega arith

shortfall_bounds :
    (u i q s : ℕ)
    → i ≢ 0
    → q * i ≤ u * decimal_one * decimal_one
    → u * decimal_one * decimal_one < q * i + i
    → q ≤ s * decimal_one
    → s * decimal_one < q + decimal_one
    → (u * decimal_one * decimal_one < s * i * decimal_one + i) × (s * i < u * decimal_one + i)
shortfall_bounds u i q s ne lo hi up down =
    omega (arith, mul-le-mul_right i up, mul-lt-mul_of_pos_right {k = i} down (omega arith))

-- The recorded payoffs of a list of scaled debts, each with the amount that closes it.
abbrev pub sum_payoffs : List (ℕ × ℕ) → ℕ × ℕ
sum_payoffs [] = (0, 0)
sum_payoffs ((s, u) ∷ ds) = let (ss, us) = sum_payoffs ds in (s + ss, u + us)

module _ ⦃c : Cosmwasm⦄ where
  abbrev pub ArePayoffs : ℕ → List (ℕ × ℕ) → Type 0
  ArePayoffs i [] = Unit
  ArePayoffs i ((s, u) ∷ ds) = (scaled_to_underlying_borrow_ceil s i ≡ ok u) × ArePayoffs i ds

module _ ⦃c : Cosmwasm⦄ (laws : IsCosmwasm c) where
  -- The scaled amount that a deposit is converted to is worth at most the deposit, and one unit more of
  -- it would be worth more than the deposit.
  pub lend_rounds_down :
      (u i : ℕ) {s v : ℕ}
      → underlying_to_scaled_liquidity u i ≡ ok s
      → scaled_to_underlying_liquidity s i ≡ ok v
      → (v ≤ u) × (u * decimal_one < (s + 1) * i)
  lend_rounds_down u i hs hv =
      let (ne, es, _) = underlying_to_scaled_liquidity_eq laws u i hs in
      let (lo, hi) = quotient_bounds (u * decimal_one) ne in
      let (ev, _) = scaled_to_underlying_liquidity_eq laws _ i hv in
      rw (ev, es) (omega arith, omega arith)

  -- With an index of at least one, every amount of a `u128` is converted.
  pub lend_converts :
      (u i : ℕ)
      → u < u128_size
      → decimal_one ≤ i
      → underlying_to_scaled_liquidity u i ≡ ok (u * decimal_one / i)
  unfolding underlying_to_scaled_liquidity
  lend_converts u i hu hi =
      let big : u * decimal_one * decimal_one / i ≤ u * decimal_one * decimal_one =
        div-le_self _ i in
      let small : u * decimal_one / i ≤ u =
        div-le_of_le-mul i (omega (arith, mul-le-mul_right u hi)) in
      ground (
        arith,
        laws.from_ratio_law u 1,
        laws.div_law (u * decimal_one) i,
        laws.uint_pow_law 10 18,
        laws.uint_div_law (u * decimal_one * decimal_one / i) decimal_one,
        nested_div u i,
      )

  -- The amount that closes a scaled debt is the least whole amount that is worth at least the debt.
  pub payoff_least :
      (s i : ℕ) {u : ℕ}
      → scaled_to_underlying_borrow_ceil s i ≡ ok u
      → (s * i ≤ u * decimal_one) × (u * decimal_one < s * i + decimal_one)
  payoff_least s i h = omega (arith, scaled_to_underlying_borrow_ceil_eq laws s i h)

  payoffs_cover :
      (i : ℕ) (ds : List (ℕ × ℕ))
      → ArePayoffs i ds
      → (sum_payoffs ds).0 * i ≤ (sum_payoffs ds).1 * decimal_one
  payoffs_cover i [] h = omega arith
  payoffs_cover i ((s, u) ∷ ds) (h, hs) = omega (arith, payoff_least s i h, payoffs_cover i ds hs)

  -- The amounts that close every debt together cover the rounded value of the aggregate debt.
  pub payoffs_cover_total :
      (i : ℕ) (ds : List (ℕ × ℕ)) {total : ℕ}
      → ArePayoffs i ds
      → scaled_to_underlying_borrow (sum_payoffs ds).0 i ≡ ok total
      → total ≤ (sum_payoffs ds).1
  payoffs_cover_total i ds hs h =
      omega (arith, payoffs_cover i ds hs, scaled_to_underlying_borrow_eq laws _ i h)

  -- The debt that a borrow records falls short of the amount lent by at most one base unit, for an
  -- index up to 10^18, and by nothing for an index of at most one.
  pub borrow_shortfall :
      (u i : ℕ) {s v : ℕ}
      → underlying_to_scaled_borrow_ceil u i ≡ ok s
      → scaled_to_underlying_borrow s i ≡ ok v
      → i ≤ decimal_one * decimal_one
      → (u ≤ v + (if leb i decimal_one then 0 else 1)) × (s * i < u * decimal_one + i)
  borrow_shortfall u i {s} hs hv cap =
      let (ne, es, _) = underlying_to_scaled_borrow_ceil_eq laws u i hs in
      let (lo, hi) = quotient_bounds (u * decimal_one * decimal_one) ne in
      let (ev, _) = scaled_to_underlying_borrow_eq laws _ i hv in
      let (up, down) = rounded_up es in
      let (short, long) =
        shortfall_bounds u i (u * decimal_one * decimal_one / i) s ne lo hi up down in
      (ground arith, long)

  -- Where the amount lent is one atomic above a multiple `n` of an index over one, the recorded debt is
  -- one base unit short of the amount lent.
  pub borrow_falls_short :
      (n u i : ℕ) {s v : ℕ}
      → n * i + 1 ≡ u * decimal_one
      → decimal_one < i
      → underlying_to_scaled_borrow_ceil u i ≡ ok s
      → scaled_to_underlying_borrow s i ≡ ok v
      → (s ≡ n) × (v + 1 ≡ u)
  borrow_falls_short n u i {s} {v} e over hs hv =
      let (_, es, _) = underlying_to_scaled_borrow_ceil_eq laws u i hs in
      let (ev, _) = scaled_to_underlying_borrow_eq laws s i hv in
      let q : u * decimal_one * decimal_one / i ≡ n * decimal_one =
        div-eq_of_lt-le {k = n * decimal_one} i (omega arith) (omega arith) in
      let sn : s ≡ n = omega arith in (sn, omega (arith, ap (λ (x : ℕ). x * i) sn))
