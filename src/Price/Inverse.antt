-- ===== src/Price/Inverse.antt =====
-- The amount that is worth a value: `amount_from_usd_haircutted` against `value_usd`, in
-- packages/lib/src/price_oracle/model/price.rs.
use native.Mathlib.Nat.{
  le-div_iff_mul-le, lt-div-mul-add, mul-le-mul_right, le_of_mul-le-mul_right, mul-div-mul_left,
  lt_of_mul-lt-mul_right, pow-suc, div-add-mod',
}
use democratized_prime_smart.Cosmwasm.{Cosmwasm, IsCosmwasm, decimal_one}
use democratized_prime_smart.Cosmwasm.Laws.{mul_eq, uint_mul_eq, uint_pow_eq}
use democratized_prime_smart.Host.{AssetPrice}
use democratized_prime_smart.Prelude.{
  Bool-cases, Ensures, Ensures->>=, Ensures-ensure, Ensures-if, Ensures-ok, Ensures-or_err, ap,
  arith, if◌then◌else◌, inl, inr, not, ok, refl, some, suc, zero, ℕ, ◌%◌, ◌*◌, ◌+◌, ◌/◌, ◌<◌, ◌==◌,
  ◌^◌, ◌↔◌, ◌∙◌, ◌≡◌, ◌≢◌, ◌≤◌,
}
use democratized_prime_smart.Price.{
  amount_from_usd_haircutted, ceil_div, haircutted_amount, notional, uint128_try_from,
  valuation_inputs, value_usd,
}

pow_shift : (p : ℕ) → 10 ^ (18 + p) ≡ decimal_one * 10 ^ p
pow_shift zero = refl
pow_shift (suc p) =
    let shift : 18 + suc p ≡ suc (18 + p) = omega arith in
    rw shift (omega (arith, pow_shift p, pow-suc 10 p, pow-suc 10 (18 + p)))

pow_pos : (p : ℕ) → 0 < 10 ^ p
pow_pos zero = omega arith
pow_pos (suc p) = let e = pow_pos p in omega arith

multiples : (m b d : ℕ) → 0 < d → ((m ≤ b) ↔ (m * d ≤ b * d)) × ((m + 1 ≤ b) ↔ (m * d < b * d))
multiples m b d pos = (
  (λ h. mul-le-mul_right d h, λ h. le_of_mul-le-mul_right h pos),
  (λ h. omega (arith, mul-le-mul_right d h), λ h. omega (arith, lt_of_mul-lt-mul_right d h)),
)

-- A quotient rounded up is at most `b` exactly when the dividend is at most `b` times the divisor.
ceil_le_iff :
    (a d q b : ℕ) → 0 < d → q ≡ (if a % d == 0 then a / d else a / d + 1) → (q ≤ b) ↔ (a ≤ b * d)
ceil_le_iff a d q b pos e =
    let (exact, over) = multiples (a / d) b d pos in
    let hi = lt-div-mul-add {a = a} {b = d} pos in
    let whole = div-add-mod' a d in
    elim (Bool-cases (a % d == 0)) [
      | inl none_over ↦
          let eq : q ≡ a / d = rw none_over at e in
          let rest : a % d ≡ 0 = ground arith in
          rw eq (λ h. omega (arith, exact.0 h), λ h. exact.1 (omega arith))
      | inr some_over ↦
          let eq : q ≡ a / d + 1 = rw some_over at e in
          let rest : 0 < a % d = ground arith in
          rw eq (λ h. omega (arith, mul-le-mul_right d h), λ h. over.1 (omega arith))
    ]

module _ ⦃c : Cosmwasm⦄ (laws : IsCosmwasm c) where
  ceil_div_eq :
      (a d : ℕ) {q : ℕ}
      → ceil_div a d ≡ ok q
      → (d ≢ 0) × (q ≡ (if a % d == 0 then a / d else a / d + 1))
  unfolding ceil_div
  ceil_div_eq a d h =
      ground (arith, laws.uint_div_law a d, laws.uint_rem_law a d, laws.uint_add_law (a / d) 1)

  notional_eq :
      (display precision amount : ℕ) {n : ℕ}
      → notional display precision amount ≡ ok n
      → n ≡ display * amount / 10 ^ precision
  unfolding notional
  notional_eq display p amount h =
      let e = mul-div-mul_left {m = decimal_one} (display * amount) (10 ^ p) (omega arith) in
      ground (
        arith,
        laws.uint_mul_law display amount,
        laws.uint_pow_law 10 (18 + p),
        laws.checked_from_ratio_law (display * amount) (10 ^ (18 + p)),
        pow_shift p,
      )

  -- the amount whose haircutted value reaches a value, from the closed forms
  haircut_iff :
      (display p value haircut b t a n : ℕ)
      → 0 < haircut
      → 0 < display
      → ((t ≤ n) ↔ (value * decimal_one ≤ n * haircut))
      → ((a ≤ b) ↔ (t * 10 ^ p ≤ b * display))
      → n ≡ display * b / 10 ^ p
      → (a ≤ b) ↔ (value ≤ n * haircut / decimal_one)
  haircut_iff display p value haircut b t a n hp dp ht ha en =
      let shift = le-div_iff_mul-le {k = 10 ^ p} {x = t} {y = display * b} (pow_pos p) in
      let unit = le-div_iff_mul-le {k = decimal_one} {x = value} {y = n * haircut} (omega arith) in
      (
        λ h. unit.1 (ht.0 (rw en (shift.1 (omega (arith, ha.0 h))))),
        λ h. ha.1 (omega (arith, shift.0 (rw en at (ht.1 (unit.0 h))))),
      )

  haircutted_amount-Ensures :
      (display p value haircut : ℕ)
      → 0 < value
      → Ensures
          (λ a.
            (haircut ≢ 0)
            × (display ≢ 0)
            × ((t : ℕ) × (ceil_div (value * decimal_one) haircut ≡ ok t)
                × (ceil_div (t * 10 ^ p) display ≡ ok a)))
          (haircutted_amount display p value haircut)
  unfolding haircutted_amount uint128_try_from
  haircutted_amount-Ensures display p value haircut pos =
      Ensures-if (value == 0) _ _ (λ z. Ensures-ok 0 (ground arith))
        λ _. Ensures-ensure (not (haircut == 0)) _ _ λ hp.
          Ensures-ensure (not (display == 0)) _ _ λ dp.
            Ensures-or_err (c.uint_checked_pow 10 p) _ _ λ scale es.
              Ensures-or_err (c.uint_checked_pow 10 18) _ _ λ one eo.
                Ensures-or_err (c.uint_checked_mul value one) _ _ λ scaled ev.
                  Ensures->>= (ceil_div scaled haircut) _ λ t et.
                    Ensures-or_err (c.uint_checked_mul t scale) _ _ λ scaled_t est.
                      Ensures->>= (ceil_div scaled_t display) _ λ amount ea.
                        let scale_eq = uint_pow_eq laws 10 p es in
                        let one_eq : one ≡ decimal_one = uint_pow_eq laws 10 18 eo in
                        let scaled_eq : scaled ≡ value * decimal_one =
                          uint_mul_eq laws value one ev ∙ ap (λ (x : ℕ). value * x) one_eq in
                        let scaled_t_eq : scaled_t ≡ t * 10 ^ p =
                          uint_mul_eq laws t scale est ∙ ap (λ (x : ℕ). t * x) scale_eq in
                        record {
                          at = λ a h.
                              let same : amount ≡ a = ground arith in
                              (
                                ground arith,
                                ground arith,
                                (t, rw scaled_eq at et, rw (same, scaled_t_eq) at ea),
                              );
                        }

  -- The amount computed for a positive value is the least amount whose haircutted notional reaches the
  -- value, as far as both can be computed: an amount reaches the value exactly when it is at least that.
  pub haircutted_amount_least :
      (price : AssetPrice) (value haircut b : ℕ) {a n h : ℕ}
      → 0 < value
      → amount_from_usd_haircutted price value haircut ≡ ok a
      → value_usd price b ≡ ok n
      → c.checked_mul n haircut ≡ some h
      → (a ≤ b) ↔ (value ≤ h)
  unfolding amount_from_usd_haircutted value_usd
  haircutted_amount_least price value haircut b {a} {n} {h} pos ha hn hh =
      let (display, p) = valuation_inputs price in
      let (hp, dp, (t, et, ea)) = (haircutted_amount-Ensures display p value haircut pos).at a ha in
      let (_, t_eq) = ceil_div_eq (value * decimal_one) haircut et in
      let (_, a_eq) = ceil_div_eq (t * 10 ^ p) display ea in
      rw (mul_eq laws n haircut hh) (
        haircut_iff display p value haircut b t a n (omega arith) (omega arith)
          (ceil_le_iff (value * decimal_one) haircut t n (omega arith) t_eq)
          (ceil_le_iff (t * 10 ^ p) display a b (omega arith) a_eq) (notional_eq display p b hn))
