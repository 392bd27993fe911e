-- ===== src/Haircut/Loss.antt =====
-- What a haircut takes from the lenders.
use native.Mathlib.Nat.{div-mul-le_self, lt-div-mul-add}
use democratized_prime_smart.Cosmwasm.{Cosmwasm, IsCosmwasm, decimal_one, u128_size, u256_size}
use democratized_prime_smart.Cosmwasm.Laws.{fits}
use democratized_prime_smart.Haircut.{apply_pro_rata_liquidity_index_haircut, haircut_index}
use democratized_prime_smart.Prelude.{
  Result-cases, arith, err, illegal_state, inl, inr, ok, ℕ, ◌*◌, ◌+◌, ◌-◌, ◌/◌, ◌<◌, ◌≡◌, ◌≢◌, ◌≤◌,
}
use democratized_prime_smart.Reserve.{ReserveState, total_liquidity}

-- The lenders' claims in units of 10^-18: scaled liquidity times its index.
abbrev pub claims : ReserveState → ℕ
claims r = r.total_scaled_liquidity * r.liquidity_index

haircut_bounds :
    (s i loss : ℕ) {j : ℕ}
    → s ≢ 0
    → loss * decimal_one < s * i
    → j ≡ (s * i - loss * decimal_one) * decimal_one / (s * decimal_one)
    → (s * j + loss * decimal_one ≤ s * i) × (s * i < s * j + loss * decimal_one + s)
haircut_bounds s i loss {j} ne lt e =
    let lo = div-mul-le_self ((s * i - loss * decimal_one) * decimal_one) (s * decimal_one) in
    let hi =
      lt-div-mul-add {a = (s * i - loss * decimal_one) * decimal_one} {b = s * decimal_one}
        (omega arith) in
    rw e (omega arith, omega arith)

module _ ⦃c : Cosmwasm⦄ (laws : IsCosmwasm c) where
  pub total_liquidity_eq :
      (r : ReserveState) {l : ℕ}
      → r.total_scaled_liquidity < u128_size
      → total_liquidity r ≡ ok l
      → l ≡ claims r
  unfolding total_liquidity
  total_liquidity_eq r small h = ground (
    arith,
    laws.from_atomics_law r.total_scaled_liquidity,
    laws.mul_law (r.total_scaled_liquidity * decimal_one) r.liquidity_index,
  )

  haircut_index_bounds :
      (r : ReserveState) (loss : ℕ) {j : ℕ}
      → r.total_scaled_liquidity < u128_size
      → haircut_index r loss ≡ ok j
      → (j ≢ 0)
        × (r.total_scaled_liquidity * j + loss * decimal_one ≤ claims r)
        × (claims r < r.total_scaled_liquidity * j + loss * decimal_one + r.total_scaled_liquidity)
  unfolding haircut_index total_liquidity
  haircut_index_bounds r loss {j} small h =
      let s = r.total_scaled_liquidity in
      let i = r.liquidity_index in
      let e : s * decimal_one * i / decimal_one ≡ s * i = omega arith in
      ground (
        arith,
        laws.from_atomics_law s,
        laws.mul_law (s * decimal_one) i,
        laws.from_ratio_law loss 1,
        laws.sub_law (s * i) (loss * decimal_one),
        laws.div_law (s * i - loss * decimal_one) (s * decimal_one),
        haircut_bounds s i loss {j = j},
      )

  -- A haircut of a loss takes at least the loss from the lenders' claims, and less than one atomic of the
  -- index more; it leaves a positive index and changes nothing else of the reserve.
  pub haircut_takes_loss :
      (r : ReserveState) (loss : ℕ) {r' : ReserveState}
      → r.total_scaled_liquidity < u128_size
      → loss ≢ 0
      → apply_pro_rata_liquidity_index_haircut r loss ≡ ok r'
      → (r' ≡ record r { liquidity_index = r'.liquidity_index })
        × (r'.liquidity_index ≢ 0)
        × (claims r' + loss * decimal_one ≤ claims r)
        × (claims r < claims r' + loss * decimal_one + r.total_scaled_liquidity)
  unfolding apply_pro_rata_liquidity_index_haircut
  haircut_takes_loss r loss {r'} small ne h = elim (Result-cases (haircut_index r loss)) [
    | inl (j, ej) ↦ let bounds = haircut_index_bounds r loss {j = j} small ej in ground arith
    | inr (e, ee) ↦ ground arith
  ]

  -- A loss that reaches the lenders' claims is refused.
  pub haircut_refused :
      (r : ReserveState) (loss : ℕ)
      → r.total_scaled_liquidity < u128_size
      → loss < u128_size
      → loss ≢ 0
      → claims r < u256_size
      → claims r ≤ loss * decimal_one
      → apply_pro_rata_liquidity_index_haircut r loss ≡ err illegal_state
  unfolding apply_pro_rata_liquidity_index_haircut haircut_index total_liquidity
  haircut_refused r loss small bound ne fits over =
      let s = r.total_scaled_liquidity in
      let i = r.liquidity_index in
      let e : s * decimal_one * i / decimal_one ≡ s * i = omega arith in
      ground (
        arith,
        laws.from_atomics_law s,
        laws.mul_law (s * decimal_one) i,
        laws.from_ratio_law loss 1,
      )
