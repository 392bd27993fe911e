-- ===== src/Rates/Curve.antt =====
-- The kink curve: what rate it gives, its bounds, that it never falls, and that it is defined.
use native.Mathlib.Nat.{mul-le-mul, mul-le-mul_left, div-mul-le_self, div-le_self}
use democratized_prime_smart.Cosmwasm.{Cosmwasm, IsCosmwasm, decimal_one, u128_size, u256_size}
use democratized_prime_smart.Prelude.{
  Bool-cases, arith, if◌then◌else◌, inl, inr, leb, min, ok, ℕ, ◌*◌, ◌+◌, ◌-◌, ◌/◌, ◌<◌, ◌≡◌, ◌≤◌,
}
use democratized_prime_smart.RateParams.{IsValid, RateParams}
use democratized_prime_smart.Rates.{
  borrower_rate_from_utilization, rate_above_kink, rate_below_kink,
}

-- the rate below the kink, and the rate above it before the cap
abbrev pub below : RateParams → ℕ → ℕ
below p u =
    p.min_rate + (p.target_rate - p.min_rate) * decimal_one / p.kink_utilization * u / decimal_one

abbrev pub above : RateParams → ℕ → ℕ
above p u =
    p.target_rate
    + (p.max_rate - p.target_rate)
      * decimal_one
      / (decimal_one - p.kink_utilization)
      * (u - p.kink_utilization)
      / decimal_one

-- The curve in one equation.
abbrev pub curve : RateParams → ℕ → ℕ
curve p u = if leb u p.kink_utilization then below p u else min (above p u) p.max_rate

-- A slope of at most `spread` per `run` rises by at most `spread` over a stretch of at most `run`.
rise_le : (spread run u : ℕ) → u ≤ run → spread * decimal_one / run * u / decimal_one ≤ spread
rise_le spread run u h = omega (
  arith,
  mul-le-mul_left (spread * decimal_one / run) h,
  div-mul-le_self (spread * decimal_one) run,
)

rise_mono : (slope u v : ℕ) → u ≤ v → slope * u / decimal_one ≤ slope * v / decimal_one
rise_mono slope u v h = omega (arith, mul-le-mul_left slope h)

module _ ⦃c : Cosmwasm⦄ (laws : IsCosmwasm c) where
  below_eq :
      (p : RateParams) (u : ℕ) {r : ℕ} → IsValid p → rate_below_kink p u ≡ ok r → r ≡ below p u
  unfolding rate_below_kink
  below_eq p u v h = ground (
    arith,
    laws.sub_law p.target_rate p.min_rate,
    laws.div_law (p.target_rate - p.min_rate) p.kink_utilization,
    laws.mul_law ((p.target_rate - p.min_rate) * decimal_one / p.kink_utilization) u,
    laws.add_law p.min_rate
        ((p.target_rate - p.min_rate) * decimal_one / p.kink_utilization * u / decimal_one),
  )

  above_eq :
      (p : RateParams) (u : ℕ) {r : ℕ}
      → IsValid p
      → p.kink_utilization < u
      → rate_above_kink p u ≡ ok r
      → r ≡ min (above p u) p.max_rate
  unfolding rate_above_kink
  above_eq p u v lt h = ground (
    arith,
    laws.sub_law decimal_one p.kink_utilization,
    laws.sub_law u p.kink_utilization,
    laws.sub_law p.max_rate p.target_rate,
    laws.div_law (p.max_rate - p.target_rate) (decimal_one - p.kink_utilization),
    laws.mul_law ((p.max_rate - p.target_rate) * decimal_one / (decimal_one - p.kink_utilization))
        (u - p.kink_utilization),
    laws.add_law p.target_rate (
        (p.max_rate - p.target_rate)
        * decimal_one
        / (decimal_one - p.kink_utilization)
        * (u - p.kink_utilization)
        / decimal_one),
  )

  pub curve_eq :
      (p : RateParams) (u : ℕ) {r : ℕ}
      → IsValid p
      → borrower_rate_from_utilization p u ≡ ok r
      → r ≡ curve p u
  unfolding borrower_rate_from_utilization
  curve_eq p u v h = elim (Bool-cases (leb u p.kink_utilization)) [
    | inl low ↦ rw low (below_eq p u v (rw low at h))
    | inr high ↦ rw high (above_eq p u v (ground arith) (rw high at h))
  ]

  below_le :
      (p : RateParams) (u : ℕ)
      → IsValid p
      → u ≤ p.kink_utilization
      → (p.min_rate ≤ below p u) × (below p u ≤ p.target_rate)
  below_le p u v h = omega (arith, rise_le (p.target_rate - p.min_rate) p.kink_utilization u h, v)

  curve_bounds :
      (p : RateParams) (u : ℕ) → IsValid p → (p.min_rate ≤ curve p u) × (curve p u ≤ p.max_rate)
  curve_bounds p u v = ground (arith, below_le p u v, v.min_le_target, v.target_le_max)

  curve_mono : (p : RateParams) (u v : ℕ) → IsValid p → u ≤ v → curve p u ≤ curve p v
  curve_mono p u v valid h = ground (
    arith,
    below_le p u valid,
    valid.target_le_max,
    rise_mono ((p.target_rate - p.min_rate) * decimal_one / p.kink_utilization) u v h,
    rise_mono ((p.max_rate - p.target_rate) * decimal_one / (decimal_one - p.kink_utilization))
        (u - p.kink_utilization) (v - p.kink_utilization),
  )

  -- For valid parameters the borrower rate lies between the minimum and the maximum rate at every
  -- utilization, also above one.
  pub rate_bounds :
      (p : RateParams) (u : ℕ) {r : ℕ}
      → IsValid p
      → borrower_rate_from_utilization p u ≡ ok r
      → (p.min_rate ≤ r) × (r ≤ p.max_rate)
  rate_bounds p u v h = rw (curve_eq p u v h) (curve_bounds p u v)

  -- For valid parameters a higher utilization never has a lower borrower rate.
  pub rate_mono :
      (p : RateParams) (u v : ℕ) {r s : ℕ}
      → IsValid p
      → u ≤ v
      → borrower_rate_from_utilization p u ≡ ok r
      → borrower_rate_from_utilization p v ≡ ok s
      → r ≤ s
  rate_mono p u v valid h hr hs =
      rw (curve_eq p u valid hr, curve_eq p v valid hs) (curve_mono p u v valid h)

  slope_le :
      (spread run : ℕ)
      → spread ≤ decimal_one
      → spread * decimal_one / run ≤ decimal_one * decimal_one
  slope_le spread run h = omega (arith, div-le_self (spread * decimal_one) run)

  rise_fits :
      (slope u : ℕ)
      → slope ≤ decimal_one * decimal_one
      → u ≤ u128_size * decimal_one
      → slope * u / decimal_one + decimal_one < u256_size
  rise_fits slope u hs hu = omega (arith, mul-le-mul hs hu)

  below_total :
      (p : RateParams) (u : ℕ)
      → IsValid p
      → u ≤ u128_size * decimal_one
      → rate_below_kink p u ≡ ok (below p u)
  unfolding rate_below_kink
  below_total p u v h =
      let slope = (p.target_rate - p.min_rate) * decimal_one / p.kink_utilization in
      let small : slope ≤ decimal_one * decimal_one =
        slope_le (p.target_rate - p.min_rate) p.kink_utilization
          (omega (arith, v.target_le_max, v.max_le_one)) in
      let fits = rise_fits slope u small h in
      ground (
        arith,
        v.kink_pos,
        v.min_le_target,
        v.target_le_max,
        v.max_le_one,
        laws.sub_law p.target_rate p.min_rate,
        laws.div_law (p.target_rate - p.min_rate) p.kink_utilization,
        laws.mul_law slope u,
        laws.add_law p.min_rate (slope * u / decimal_one),
      )

  above_total :
      (p : RateParams) (u : ℕ)
      → IsValid p
      → p.kink_utilization < u
      → u ≤ u128_size * decimal_one
      → rate_above_kink p u ≡ ok (min (above p u) p.max_rate)
  unfolding rate_above_kink
  above_total p u v lt h =
      let slope = (p.max_rate - p.target_rate) * decimal_one / (decimal_one - p.kink_utilization) in
      let small : slope ≤ decimal_one * decimal_one =
        slope_le (p.max_rate - p.target_rate) (decimal_one - p.kink_utilization)
          (omega (arith, v.max_le_one)) in
      let fits = rise_fits slope (u - p.kink_utilization) small (omega arith) in
      ground (
        arith,
        v.kink_lt_one,
        v.target_le_max,
        v.max_le_one,
        laws.sub_law decimal_one p.kink_utilization,
        laws.sub_law u p.kink_utilization,
        laws.sub_law p.max_rate p.target_rate,
        laws.div_law (p.max_rate - p.target_rate) (decimal_one - p.kink_utilization),
        laws.mul_law slope (u - p.kink_utilization),
        laws.add_law p.target_rate (slope * (u - p.kink_utilization) / decimal_one),
      )

  -- For valid parameters and a utilization whose whole part fits a `u128`, there is a borrower rate:
  -- no step of the curve overflows, and it is the rate of the equation `curve`.
  pub rate_total :
      (p : RateParams) (u : ℕ)
      → IsValid p
      → u ≤ u128_size * decimal_one
      → borrower_rate_from_utilization p u ≡ ok (curve p u)
  unfolding borrower_rate_from_utilization
  rate_total p u v h = elim (Bool-cases (leb u p.kink_utilization)) [
    | inl low ↦ rw low (below_total p u v h)
    | inr high ↦ rw high (above_total p u v (ground arith) h)
  ]
