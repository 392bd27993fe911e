-- ===== src/Cosmwasm/Laws.antt =====
-- The documented behaviour of the numbers of `cosmwasm_std`, in the forms that the proofs apply:
-- what a result is, and when there is one.
use democratized_prime_smart.Cosmwasm.{Cosmwasm, IsCosmwasm, decimal_one, fit, nonzero, u256_size}
use democratized_prime_smart.Prelude.{
  arith, some, sym, ℕ, ◌%◌, ◌*◌, ◌+◌, ◌/◌, ◌<◌, ◌^◌, ◌∙◌, ◌≡◌, ◌≢◌,
}

fit-some : (n : ℕ) {x : ℕ} → fit n ≡ some x → x ≡ n
fit-some n h = ground arith

nonzero-some : (d n : ℕ) {x : ℕ} → nonzero d (fit n) ≡ some x → x ≡ n
nonzero-some d n h = ground arith

quotient-some : (d n : ℕ) {x : ℕ} → nonzero d (some n) ≡ some x → x ≡ n
quotient-some d n h = ground arith

pub fits : (n : ℕ) → n < u256_size → fit n ≡ some n
fits n h = ground arith

pub nonzero_fits : (d n : ℕ) → d ≢ 0 → n < u256_size → nonzero d (fit n) ≡ some n
nonzero_fits d n h k = ground arith

pub nonzero_quotient : (d n : ℕ) → d ≢ 0 → nonzero d (some n) ≡ some n
nonzero_quotient d n h = ground arith

module _ ⦃c : Cosmwasm⦄ (laws : IsCosmwasm c) where
  pub add_eq : (a b : ℕ) {x : ℕ} → c.checked_add a b ≡ some x → x ≡ a + b
  add_eq a b h = fit-some _ (sym (laws.add_law a b) ∙ h)

  pub sub_eq : (a b : ℕ) {x : ℕ} → c.checked_sub a b ≡ some x → x + b ≡ a
  sub_eq a b h = let e = sym (laws.sub_law a b) ∙ h in ground arith

  pub mul_eq : (a b : ℕ) {x : ℕ} → c.checked_mul a b ≡ some x → x ≡ a * b / decimal_one
  mul_eq a b h = fit-some _ (sym (laws.mul_law a b) ∙ h)

  pub div_eq : (a b : ℕ) {x : ℕ} → c.checked_div a b ≡ some x → x ≡ a * decimal_one / b
  div_eq a b h = nonzero-some b _ (sym (laws.div_law a b) ∙ h)

  pub ratio_eq : (a b : ℕ) {x : ℕ} → c.from_ratio a b ≡ some x → x ≡ a * decimal_one / b
  ratio_eq a b h = nonzero-some b _ (sym (laws.from_ratio_law a b) ∙ h)

  -- A whole number as a decimal.
  pub whole_eq : (a : ℕ) {x : ℕ} → c.from_ratio a 1 ≡ some x → x ≡ a * decimal_one
  whole_eq a h = omega (arith, ratio_eq a 1 h)

  pub uint_div_eq : (a b : ℕ) {x : ℕ} → c.uint_checked_div a b ≡ some x → x ≡ a / b
  uint_div_eq a b h = quotient-some b _ (sym (laws.uint_div_law a b) ∙ h)

  pub uint_rem_eq : (a b : ℕ) {x : ℕ} → c.uint_checked_rem a b ≡ some x → x ≡ a % b
  uint_rem_eq a b h = quotient-some b _ (sym (laws.uint_rem_law a b) ∙ h)

  pub uint_add_eq : (a b : ℕ) {x : ℕ} → c.uint_checked_add a b ≡ some x → x ≡ a + b
  uint_add_eq a b h = fit-some _ (sym (laws.uint_add_law a b) ∙ h)

  pub uint_mul_eq : (a b : ℕ) {x : ℕ} → c.uint_checked_mul a b ≡ some x → x ≡ a * b
  uint_mul_eq a b h = fit-some _ (sym (laws.uint_mul_law a b) ∙ h)

  pub uint_pow_eq : (a b : ℕ) {x : ℕ} → c.uint_checked_pow a b ≡ some x → x ≡ a ^ b
  uint_pow_eq a b h = fit-some _ (sym (laws.uint_pow_law a b) ∙ h)
