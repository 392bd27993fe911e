-- ===== src/Treasury/Deficit.antt =====
-- How a deficit is paid off: `eliminate_deficit` and `socialize_deficit` of
-- contracts/pool_v2/src/execute.
use democratized_prime_smart.U128
use democratized_prime_smart.Access.{assert_owner}
use democratized_prime_smart.Accrual.{compute_effective_reserve}
use democratized_prime_smart.Attributes.{single_coin_iff, validate_single_coin_denom}
use democratized_prime_smart.Contract.{ContractState}
use democratized_prime_smart.Cosmwasm.{Cosmwasm, IsCosmwasm}
use democratized_prime_smart.Host.{Env, Host, MessageInfo, Msg, bank_send, no_funds}
use democratized_prime_smart.Lending.{lending_coins}
use democratized_prime_smart.Pool.{Pool, set_reserve_state}
use democratized_prime_smart.Pool.Invariant.{
  Ensures-attach_rates, Ensures-update, IsValid, accrual-IsValid, set_reserve_state-IsValid,
}
use democratized_prime_smart.Prelude.{
  Ensures, Ensures->>=, Ensures-ensure, Ensures-ok, Ensures-or_err, List, [], ap, arith,
  if◌then◌else◌, ltb, ltb→lt, min, ok, refl, true, ℕ, ◌+◌, ◌-◌, ◌<◌, ◌∷◌, ◌≡◌, ◌≤◌,
}
use democratized_prime_smart.Reserve.{ReserveState}
use democratized_prime_smart.Responses.{Response}
use democratized_prime_smart.Treasury.{
  EliminateDeficitFunding, accrued_reserve, bank, cover, eliminate_deficit, max_underlying,
}
use democratized_prime_smart.U128.Laws.{u128_sub_eq}

-- Where the amount that pays off a deficit comes from, and what is sent back.
abbrev pub IsFunded :
    EliminateDeficitFunding → ContractState → MessageInfo → ReserveState → ℕ → ℕ → List Msg → Type 0
IsFunded (accrued_reserve _) contract info r cleared accrued_left messages =
    (info.funds ≡ []) × (accrued_left + cleared ≡ r.accrued_reserve) × (messages ≡ [])
IsFunded (bank _) contract info r cleared accrued_left messages =
    (accrued_left ≡ r.accrued_reserve)
    × ((received : ℕ) × (info.funds ≡ lending_coins contract received)
        × (cleared ≤ received)
        × (messages ≡ (
            if ltb cleared received
            then bank_send info.sender (lending_coins contract (received - cleared)) ∷ []
            else [])))

pub record Eliminated ⦃c : Cosmwasm⦄ (pool : Pool) (env : Env) (info : MessageInfo)
    (funding : EliminateDeficitFunding) (out : Pool × Response) : Type 0 where
  pub accrued : ReserveState
  pub accrues :
      compute_effective_reserve pool.reserve env.block_time pool.contract.rate_params ≡ ok accrued
  pub cleared : ℕ
  pub cleared_some : 0 < cleared
  pub within_max : cleared ≤ max_underlying funding
  pub deficit_left : ℕ
  pub deficit_falls : deficit_left + cleared ≡ accrued.deficit_underlying
  pub accrued_left : ℕ
  pub funded : IsFunded funding pool.contract info accrued cleared accrued_left out.1.messages
  pub writes :
      out.0
      ≡ set_reserve_state pool
          (record accrued { deficit_underlying = deficit_left; accrued_reserve = accrued_left })

-- The outcome of `cover`, before it is stored.
pub record Covered (funding : EliminateDeficitFunding) (pool : Pool) (info : MessageInfo)
    (r : ReserveState) (max : ℕ) (result : ReserveState × List Msg) : Type 0 where
  pub cleared : ℕ
  pub cleared_some : 0 < cleared
  pub within_max : cleared ≤ max
  pub deficit_left : ℕ
  pub deficit_falls : deficit_left + cleared ≡ r.deficit_underlying
  pub accrued_left : ℕ
  pub funded : IsFunded funding pool.contract info r cleared accrued_left result.1
  pub state :
      result.0 ≡ record r { deficit_underlying = deficit_left; accrued_reserve = accrued_left }

no_funds_eq : (info : MessageInfo) → no_funds info ≡ true → info.funds ≡ []
no_funds_eq info h = ground arith

module _ ⦃c : Cosmwasm⦄ (host : Host) where
  cover-Ensures :
      (funding : EliminateDeficitFunding) (pool : Pool) (info : MessageInfo) (r : ReserveState)
      (max : ℕ)
      → Ensures (Covered funding pool info r max) (cover host funding pool info r max)
  unfolding cover
  cover-Ensures (accrued_reserve m) pool info r max =
      let clear = min (min r.deficit_underlying max) r.accrued_reserve in
      Ensures->>= (assert_owner host pool info.sender) _ λ _ _.
        Ensures-ensure (no_funds info) _ _ λ none_sent.
          Ensures-ensure (ltb 0 clear) _ _ λ some_clear.
            Ensures-or_err (U128.checked_sub r.deficit_underlying clear) _ _ λ deficit ed.
              Ensures-or_err (U128.checked_sub r.accrued_reserve clear) _ _ λ accrued ea.
                Ensures-ok
                  (record r { deficit_underlying = deficit; accrued_reserve = accrued }, [])
                  (record {
                    cleared = clear;
                    cleared_some = ltb→lt 0 clear some_clear;
                    within_max = omega arith;
                    deficit_left = deficit;
                    deficit_falls = u128_sub_eq r.deficit_underlying clear ed;
                    accrued_left = accrued;
                    funded =
                        (no_funds_eq info none_sent, u128_sub_eq r.accrued_reserve clear ea, refl);
                    state = refl;
                  })
  cover-Ensures (bank m) pool info r max =
      Ensures->>= (validate_single_coin_denom info pool.contract.lending_denom 1) _ λ received coin.
        let clear = min (min r.deficit_underlying max) received in
        Ensures-ensure (ltb 0 clear) _ _ λ some_clear.
          Ensures-or_err (U128.checked_sub r.deficit_underlying clear) _ _ λ deficit ed.
            let (paid, _) = (single_coin_iff info pool.contract.lending_denom 1 received).0 coin in
            Ensures-ok
              (
                record r { deficit_underlying = deficit },
                (if ltb 0 (received - clear)
                    then bank_send info.sender (lending_coins pool.contract (received - clear)) ∷ []
                    else []),
              )
              (record {
                cleared = clear;
                cleared_some = ltb→lt 0 clear some_clear;
                within_max = omega arith;
                deficit_left = deficit;
                deficit_falls = u128_sub_eq r.deficit_underlying clear ed;
                accrued_left = r.accrued_reserve;
                funded = (refl, (received, paid, omega arith, ground arith));
                state = refl;
              })

  eliminate_deficit-Ensures :
      (pool : Pool) (env : Env) (info : MessageInfo) (funding : EliminateDeficitFunding)
      → Ensures (Eliminated pool env info funding) (eliminate_deficit host pool env info funding)
  unfolding eliminate_deficit
  eliminate_deficit-Ensures pool env info funding =
      let contract = pool.contract in
      Ensures-update pool env contract.rate_params _ λ r er.
        Ensures-ensure (ltb 0 r.deficit_underlying) _ _ λ _.
          Ensures-ensure (ltb 0 (max_underlying funding)) _ _ λ _.
            Ensures->>=
              (cover host funding (set_reserve_state pool r) info r (max_underlying funding)) _
              λ result ec.
                let (r', messages) = result in
                Ensures-attach_rates (set_reserve_state pool r') messages r' contract.rate_params
                  λ rates.
                    let e =
                      (cover-Ensures funding (set_reserve_state pool r) info r
                          (max_underlying funding)).at
                        result ec in
                    record {
                      accrued = r;
                      accrues = er;
                      cleared = e.cleared;
                      cleared_some = e.cleared_some;
                      within_max = e.within_max;
                      deficit_left = e.deficit_left;
                      deficit_falls = e.deficit_falls;
                      accrued_left = e.accrued_left;
                      funded = e.funded;
                      writes = ap (set_reserve_state pool) e.state;
                    }

  -- An elimination that goes through takes some of the accrued deficit, at most the amount asked for: from
  -- the booked reserve, which falls by as much, or from the one coin sent, of which the rest goes back to
  -- the sender. Nothing else of the accrued pool changes.
  pub eliminate_deficit-Eliminated :
      (pool : Pool) (env : Env) (info : MessageInfo) (funding : EliminateDeficitFunding)
      {out : Pool × Response}
      → eliminate_deficit host pool env info funding ≡ ok out
      → Eliminated pool env info funding out
  eliminate_deficit-Eliminated pool env info funding {out} h =
      (eliminate_deficit-Ensures pool env info funding).at out h

funded_bound :
    (funding : EliminateDeficitFunding) (contract : ContractState) (info : MessageInfo)
    (r : ReserveState) (cleared left : ℕ) (messages : List Msg)
    → IsFunded funding contract info r cleared left messages
    → left ≤ r.accrued_reserve
funded_bound (accrued_reserve m) contract info r cleared left messages h = omega (arith, h.1)
funded_bound (bank m) contract info r cleared left messages h = omega (arith, h.0)

module _ ⦃c : Cosmwasm⦄ (laws : IsCosmwasm c) (host : Host) where
  pub eliminate_deficit-IsValid :
      (pool : Pool) (env : Env) (info : MessageInfo) (funding : EliminateDeficitFunding)
      {out : Pool × Response}
      → IsValid pool
      → eliminate_deficit host pool env info funding ≡ ok out
      → IsValid out.0
  eliminate_deficit-IsValid pool env info funding {out} v h =
      let e = eliminate_deficit-Eliminated host pool env info funding h in
      let r = e.accrued in
      let a = accrual-IsValid laws pool env.block_time pool.contract.rate_params v e.accrues in
      let bound =
        funded_bound funding pool.contract info r e.cleared e.accrued_left out.1.messages
          e.funded in
      rw (e.writes) (
        set_reserve_state-IsValid (set_reserve_state pool r)
          (record r { deficit_underlying = e.deficit_left; accrued_reserve = e.accrued_left }) a
          refl a.liquidity_bound (omega (arith, bound, a.accrued_bound))
          (omega (arith, e.deficit_falls, a.deficit_bound)))
