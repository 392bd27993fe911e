-- ===== src/Lending/Payouts.antt =====
-- What the lenders' payouts come to: contracts/pool_v2/src/execute/withdraw.rs.
use native.Mathlib.Nat.{le_of_mul-le-mul_right}
use democratized_prime_smart.Cosmwasm.{Cosmwasm, IsCosmwasm, decimal_one}
use democratized_prime_smart.Host.{Msg, token_transfer}
use democratized_prime_smart.Lending.{Payout, owner_payout, received_payout, refund_of}
use democratized_prime_smart.Lending.Effects.{scaled_bounds}
use democratized_prime_smart.Prelude.{
  Bool, Ensures, Ensures->>=, Ensures-ensure, Ensures-if, Ensures-ok, Ensures-or_err, List, Option,
  [], arith, false, if◌then◌else◌, leb, leb→le, ltb, none, not, ok, refl, some, true, ℕ, ◌*◌, ◌-◌,
  ◌==◌, ◌∷◌, ◌≡◌, ◌≢◌, ◌≤◌,
}
use democratized_prime_smart.Reserve.{ReserveState, cash}
use democratized_prime_smart.Scaling.{
  scaled_to_underlying_liquidity, underlying_to_scaled_liquidity,
}
use democratized_prime_smart.Scaling.Exact.{
  scaled_to_underlying_liquidity_eq, underlying_to_scaled_liquidity_eq,
}

-- A payout within the cash and within the balance, and worth at most the tokens burned.
pub record IsPayout (payout : Payout) (balance cash index : ℕ) : Type 0 where
  pub within_balance : payout.scaled_to_burn ≤ balance
  pub within_cash : payout.underlying_to_send ≤ cash
  pub covered : payout.underlying_to_send * decimal_one ≤ payout.scaled_to_burn * index

-- what goes back to the sender of repo tokens
abbrev pub refund_msgs : ℕ → ℕ → ℕ → List Msg
refund_msgs repo_token to amount =
    if ltb 0 amount then token_transfer repo_token to amount ∷ [] else []

module _ ⦃c : Cosmwasm⦄ (laws : IsCosmwasm c) where
  -- the amount asked for, converted to tokens and back
  converted :
      (amount index : ℕ) {s v : ℕ}
      → underlying_to_scaled_liquidity amount index ≡ ok s
      → scaled_to_underlying_liquidity s index ≡ ok v
      → (index ≢ 0)
        × (s * index ≤ amount * decimal_one)
        × (v ≤ amount)
        × (v * decimal_one ≤ s * index)
  converted amount index {s} hs hv =
      let (ne, _, _) = underlying_to_scaled_liquidity_eq laws amount index hs in
      let (lo, hi) = scaled_bounds laws amount index hs in
      let (ev, _) = scaled_to_underlying_liquidity_eq laws s index hv in
      (ne, lo, omega arith, omega arith)

  no_more_than :
      (amount index balance : ℕ) {s max : ℕ}
      → index ≢ 0
      → s * index ≤ amount * decimal_one
      → scaled_to_underlying_liquidity balance index ≡ ok max
      → amount ≤ max
      → s ≤ balance
  no_more_than amount index balance {s} ne lo hm le =
      let (em, _) = scaled_to_underlying_liquidity_eq laws balance index hm in
      le_of_mul-le-mul_right {k = index} (omega arith) (omega arith)

  pub owner_payout-IsPayout :
      (amount : Option ℕ) (balance cash : ℕ) (r : ReserveState)
      → Ensures
          (λ p. IsPayout p balance cash r.liquidity_index)
          (owner_payout amount balance cash r)
  unfolding owner_payout
  owner_payout-IsPayout (some amt) balance cash r =
      let i = r.liquidity_index in
      Ensures->>= (scaled_to_underlying_liquidity balance i) _ λ max em.
        Ensures-ensure (not (amt == 0)) _ _ λ _. Ensures-ensure (leb amt max) _ _ λ h1.
          Ensures-ensure (leb amt cash) _ _ λ h2.
            Ensures->>= (underlying_to_scaled_liquidity amt i) _ λ s es.
              Ensures->>= (scaled_to_underlying_liquidity s i) _ λ v ev.
                let (ne, lo, le, cov) = converted amt i es ev in
                let within = leb→le amt cash h2 in
                Ensures-ok (record { scaled_to_burn = s; underlying_to_send = v })
                  (record {
                    within_balance = no_more_than amt i balance ne lo em (leb→le amt max h1);
                    within_cash = omega arith;
                    covered = cov;
                  })
  owner_payout-IsPayout none balance cash r =
      let i = r.liquidity_index in
      Ensures->>= (scaled_to_underlying_liquidity balance i) _ λ max em.
        Ensures-ensure (leb max cash) _ _ λ h.
          Ensures->>= (scaled_to_underlying_liquidity balance i) _ λ v ev.
            let (e1, _) = scaled_to_underlying_liquidity_eq laws balance i em in
            let (e2, _) = scaled_to_underlying_liquidity_eq laws balance i ev in
            let within = leb→le max cash h in
            Ensures-ok (record { scaled_to_burn = balance; underlying_to_send = v })
              (record {
                within_balance = omega arith;
                within_cash = omega arith;
                covered = omega arith;
              })

  pub received_payout-IsPayout :
      (exact : Bool) (amount : Option ℕ) (received cash : ℕ) (r : ReserveState)
      → Ensures
          (λ p. IsPayout p received cash r.liquidity_index)
          (received_payout exact amount received cash r)
  unfolding received_payout
  received_payout-IsPayout true amount received cash r =
      let i = r.liquidity_index in
      Ensures->>= (scaled_to_underlying_liquidity received i) _ λ v ev.
        Ensures-ensure (leb v cash) _ _ λ h.
          let (e, _) = scaled_to_underlying_liquidity_eq laws received i ev in
          let within = leb→le v cash h in
          Ensures-ok (record { scaled_to_burn = received; underlying_to_send = v })
            (record { within_balance = omega arith; within_cash = within; covered = omega arith })
  received_payout-IsPayout false amount received cash r =
      let i = r.liquidity_index in
      Ensures-or_err amount _ _ λ amt _. Ensures-ensure (not (amt == 0)) _ _ λ _.
        Ensures-ensure (leb amt cash) _ _ λ h2.
          Ensures->>= (underlying_to_scaled_liquidity amt i) _ λ s es.
            Ensures-ensure (leb s received) _ _ λ h1.
              Ensures->>= (scaled_to_underlying_liquidity s i) _ λ v ev.
                let (ne, lo, le, cov) = converted amt i es ev in
                let within = leb→le amt cash h2 in
                Ensures-ok (record { scaled_to_burn = s; underlying_to_send = v })
                  (record {
                    within_balance = leb→le s received h1;
                    within_cash = omega arith;
                    covered = cov;
                  })

  pub exact_burns :
      (amount : Option ℕ) (received cash : ℕ) (r : ReserveState) {p : Payout}
      → received_payout true amount received cash r ≡ ok p
      → p.scaled_to_burn ≡ received
  unfolding received_payout
  exact_burns amount received cash r h = ground arith

  pub refund_eq :
      (exact : Bool) (token to received used : ℕ)
      → (exact ≡ true → used ≡ received)
      → used ≤ received
      → Ensures
          (λ msgs. msgs ≡ refund_msgs token to (received - used))
          (refund_of exact token to received used)
  unfolding refund_of
  refund_eq true token to received used all le = Ensures-ok [] (rw (all refl) (ground arith))
  refund_eq false token to received used all le =
      Ensures-if (ltb used received) _ _
        (λ more. rw (laws.uint128_sub_law received used) (ground arith)) (λ none_left. ground arith)
