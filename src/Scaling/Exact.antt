-- ===== src/Scaling/Exact.antt =====
-- The conversions in closed form: what each returns when it succeeds, as one quotient of naturals.
use native.Mathlib.Nat.{div-div-eq-div-mul, mul-div-mul_right}
use democratized_prime_smart.Cosmwasm.{Cosmwasm, IsCosmwasm, decimal_one, u128_size}
use democratized_prime_smart.Prelude.{
  >>=-eq-ok, ap, arith, ok, ℕ, ◌*◌, ◌+◌, ◌-◌, ◌/◌, ◌<◌, ◌>>=◌, ◌∙◌, ◌≡◌, ◌≢◌,
}
use democratized_prime_smart.Scaling.{
  decimal_ceil_to_u128, decimal_floor_to_u128, scaled_decimal, scaled_to_underlying_borrow,
  scaled_to_underlying_borrow_ceil, scaled_to_underlying_liquidity, underlying_decimal,
  underlying_to_scaled_borrow, underlying_to_scaled_borrow_ceil, underlying_to_scaled_liquidity,
}

-- Dividing by the index after scaling by 10^36, then by 10^18, is one division.
pub nested_div : (u i : ℕ) → u * decimal_one * decimal_one / i / decimal_one ≡ u * decimal_one / i
nested_div u i =
    div-div-eq-div-mul (u * decimal_one * decimal_one) i decimal_one
    ∙ mul-div-mul_right (u * decimal_one) i (omega arith)

module _ ⦃c : Cosmwasm⦄ (laws : IsCosmwasm c) where
  floor_eq :
      (a : ℕ) {r : ℕ} → decimal_floor_to_u128 a ≡ ok r → (r ≡ a / decimal_one) × (r < u128_size)
  unfolding decimal_floor_to_u128
  floor_eq a h = ground (arith, laws.uint_pow_law 10 18, laws.uint_div_law a decimal_one)

  ceil_eq :
      (a : ℕ) {r : ℕ}
      → decimal_ceil_to_u128 a ≡ ok r
      → (r ≡ (a + (decimal_one - 1)) / decimal_one) × (r < u128_size)
  unfolding decimal_ceil_to_u128
  ceil_eq a h = ground (
    arith,
    laws.uint_pow_law 10 18,
    laws.uint_div_law a decimal_one,
    laws.uint_rem_law a decimal_one,
    laws.uint_add_law (a / decimal_one) 1,
  )

  scaled_decimal_eq :
      (u i : ℕ) {r : ℕ}
      → scaled_decimal u i ≡ ok r
      → (i ≢ 0) × (r ≡ u * decimal_one * decimal_one / i)
  unfolding scaled_decimal
  scaled_decimal_eq u i h =
      ground (arith, laws.from_ratio_law u 1, laws.div_law (u * decimal_one) i)

  underlying_decimal_eq : (s i : ℕ) {r : ℕ} → underlying_decimal s i ≡ ok r → r ≡ s * i
  unfolding underlying_decimal
  underlying_decimal_eq s i h =
      ground (arith, laws.from_ratio_law s 1, laws.mul_law (s * decimal_one) i)

  scale_floor :
      (u i : ℕ) {s : ℕ}
      → (scaled_decimal u i >>= decimal_floor_to_u128) ≡ ok s
      → (i ≢ 0) × (s ≡ u * decimal_one / i) × (s < u128_size)
  scale_floor u i h =
      let (d, ed, eh) = >>=-eq-ok (scaled_decimal u i) decimal_floor_to_u128 h in
      let (ne, e) = scaled_decimal_eq u i ed in
      let (f, b) = floor_eq d eh in (ne, f ∙ ap (λ (x : ℕ). x / decimal_one) e ∙ nested_div u i, b)

  pub underlying_to_scaled_liquidity_eq :
      (u i : ℕ) {s : ℕ}
      → underlying_to_scaled_liquidity u i ≡ ok s
      → (i ≢ 0) × (s ≡ u * decimal_one / i) × (s < u128_size)
  unfolding underlying_to_scaled_liquidity
  underlying_to_scaled_liquidity_eq = scale_floor

  pub underlying_to_scaled_borrow_eq :
      (u i : ℕ) {s : ℕ}
      → underlying_to_scaled_borrow u i ≡ ok s
      → (i ≢ 0) × (s ≡ u * decimal_one / i) × (s < u128_size)
  unfolding underlying_to_scaled_borrow
  underlying_to_scaled_borrow_eq = scale_floor

  -- The quotient is cut off at 18 decimals before it is rounded up.
  pub underlying_to_scaled_borrow_ceil_eq :
      (u i : ℕ) {s : ℕ}
      → underlying_to_scaled_borrow_ceil u i ≡ ok s
      → (i ≢ 0)
        × (s ≡ (u * decimal_one * decimal_one / i + (decimal_one - 1)) / decimal_one)
        × (s < u128_size)
  unfolding underlying_to_scaled_borrow_ceil
  underlying_to_scaled_borrow_ceil_eq u i h =
      let (d, ed, eh) = >>=-eq-ok (scaled_decimal u i) decimal_ceil_to_u128 h in
      let (ne, e) = scaled_decimal_eq u i ed in let (f, b) = ceil_eq d eh in (ne, rw (← e) f, b)

  value_floor :
      (s i : ℕ) {u : ℕ}
      → (underlying_decimal s i >>= decimal_floor_to_u128) ≡ ok u
      → (u ≡ s * i / decimal_one) × (u < u128_size)
  value_floor s i h =
      let (d, ed, eh) = >>=-eq-ok (underlying_decimal s i) decimal_floor_to_u128 h in
      let e = underlying_decimal_eq s i ed in let (f, b) = floor_eq d eh in (rw (← e) f, b)

  pub scaled_to_underlying_liquidity_eq :
      (s i : ℕ) {u : ℕ}
      → scaled_to_underlying_liquidity s i ≡ ok u
      → (u ≡ s * i / decimal_one) × (u < u128_size)
  unfolding scaled_to_underlying_liquidity
  scaled_to_underlying_liquidity_eq = value_floor

  pub scaled_to_underlying_borrow_eq :
      (s i : ℕ) {u : ℕ}
      → scaled_to_underlying_borrow s i ≡ ok u
      → (u ≡ s * i / decimal_one) × (u < u128_size)
  unfolding scaled_to_underlying_borrow
  scaled_to_underlying_borrow_eq = value_floor

  pub scaled_to_underlying_borrow_ceil_eq :
      (s i : ℕ) {u : ℕ}
      → scaled_to_underlying_borrow_ceil s i ≡ ok u
      → (u ≡ (s * i + (decimal_one - 1)) / decimal_one) × (u < u128_size)
  unfolding scaled_to_underlying_borrow_ceil
  scaled_to_underlying_borrow_ceil_eq s i h =
      let (d, ed, eh) = >>=-eq-ok (underlying_decimal s i) decimal_ceil_to_u128 h in
      let e = underlying_decimal_eq s i ed in let (f, b) = ceil_eq d eh in (rw (← e) f, b)
