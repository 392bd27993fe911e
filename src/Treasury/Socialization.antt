-- ===== src/Treasury/Socialization.antt =====
-- How a deficit is charged to the lenders: `socialize_deficit` of
-- contracts/pool_v2/src/execute/socialize_deficit.rs.
use democratized_prime_smart.U128
use democratized_prime_smart.Access.{assert_owner}
use democratized_prime_smart.Accrual.{compute_effective_reserve}
use democratized_prime_smart.Cosmwasm.{Cosmwasm, IsCosmwasm, decimal_one}
use democratized_prime_smart.Haircut.{apply_pro_rata_liquidity_index_haircut}
use democratized_prime_smart.Haircut.Loss.{claims, haircut_takes_loss}
use democratized_prime_smart.Host.{Env, Host, MessageInfo, no_funds}
use democratized_prime_smart.Pool.{Pool, set_reserve_state}
use democratized_prime_smart.Pool.Invariant.{
  Ensures-attach_rates, Ensures-update, IsValid, accrual-IsValid, set_reserve_state-IsValid,
}
use democratized_prime_smart.Prelude.{
  Ensures, Ensures->>=, Ensures-ensure, Ensures-or_err, [], ap, arith, ltb, ltb→lt, min, ok, refl,
  ℕ, ◌*◌, ◌+◌, ◌<◌, ◌∙◌, ◌≡◌, ◌≢◌, ◌≤◌,
}
use democratized_prime_smart.Reserve.{ReserveState}
use democratized_prime_smart.Responses.{Response}
use democratized_prime_smart.Treasury.{socialize_deficit}
use democratized_prime_smart.U128.Laws.{u128_sub_eq}

pub record Socialized ⦃c : Cosmwasm⦄ (host : Host) (pool : Pool) (env : Env) (sender max_amount : ℕ)
    (out : Pool × Response) : Type 0 where
  pub authorized : assert_owner host pool sender ≡ ok tt
  pub accrued : ReserveState
  pub accrues :
      compute_effective_reserve pool.reserve env.block_time pool.contract.rate_params ≡ ok accrued
  pub amount : ℕ
  pub amount_some : 0 < amount
  pub amount_eq : amount ≡ min max_amount accrued.deficit_underlying
  pub index : ℕ
  pub index_positive : index ≢ 0
  pub deficit_left : ℕ
  pub deficit_falls : deficit_left + amount ≡ accrued.deficit_underlying
  pub loss_taken : accrued.total_scaled_liquidity * index + amount * decimal_one ≤ claims accrued
  pub loss_tight :
      claims accrued
      < accrued.total_scaled_liquidity * index
        + amount * decimal_one
        + accrued.total_scaled_liquidity
  pub writes :
      out.0
      ≡ set_reserve_state pool
          (record accrued { liquidity_index = index; deficit_underlying = deficit_left })
  pub sends : out.1.messages ≡ []

module _ ⦃c : Cosmwasm⦄ (laws : IsCosmwasm c) (host : Host) where
  socialize_deficit-Ensures :
      (pool : Pool) (env : Env) (info : MessageInfo) (max_amount : ℕ)
      → IsValid pool
      → Ensures
          (Socialized host pool env info.sender max_amount)
          (socialize_deficit host pool env info max_amount)
  unfolding socialize_deficit
  socialize_deficit-Ensures pool env info max_amount v =
      let contract = pool.contract in
      Ensures->>= (assert_owner host pool info.sender) _ λ _ owned.
        Ensures-ensure (no_funds info) _ _ λ _.
          Ensures-update pool env contract.rate_params _ λ r er.
            Ensures-ensure (ltb 0 max_amount) _ _ λ _.
              let amount = min max_amount r.deficit_underlying in
              Ensures-ensure (ltb 0 amount) _ _ λ some_amount.
                Ensures->>= (apply_pro_rata_liquidity_index_haircut r amount) _ λ cut ec.
                  Ensures-or_err (U128.checked_sub cut.deficit_underlying amount) _ _ λ deficit ed.
                    let r' = record cut { deficit_underlying = deficit } in
                    Ensures-attach_rates (set_reserve_state pool r') [] r' contract.rate_params
                      λ rates.
                        let a =
                          accrual-IsValid laws pool env.block_time contract.rate_params v er in
                        let positive = ltb→lt 0 amount some_amount in
                        let (only_index, ne, taken, tight) =
                          haircut_takes_loss laws r amount a.liquidity_bound (omega arith) ec in
                        let same : cut.total_scaled_liquidity ≡ r.total_scaled_liquidity =
                          ap (λ (x : ReserveState). x.total_scaled_liquidity) only_index in
                        let deficit_eq : cut.deficit_underlying ≡ r.deficit_underlying =
                          ap (λ (x : ReserveState). x.deficit_underlying) only_index in
                        record {
                          authorized = owned;
                          accrued = r;
                          accrues = er;
                          amount = amount;
                          amount_some = positive;
                          amount_eq = refl;
                          index = cut.liquidity_index;
                          index_positive = ne;
                          deficit_left = deficit;
                          deficit_falls = u128_sub_eq cut.deficit_underlying amount ed ∙ deficit_eq;
                          loss_taken = rw same at taken;
                          loss_tight = rw same at tight;
                          writes =
                              ap
                                (λ (x : ReserveState).
                                  set_reserve_state pool
                                    (record x { deficit_underlying = deficit }))
                                only_index;
                          sends = refl;
                        }

  -- In a valid pool, a socialization that goes through takes the smaller of the amount asked for and the
  -- deficit from the accrued deficit, and at least as much, by less than one atomic of the index more, from
  -- the lenders' claims. It leaves a positive index, sends nothing, and changes nothing else of the
  -- accrued pool.
  pub socialize_deficit-Socialized :
      (pool : Pool) (env : Env) (info : MessageInfo) (max_amount : ℕ) {out : Pool × Response}
      → IsValid pool
      → socialize_deficit host pool env info max_amount ≡ ok out
      → Socialized host pool env info.sender max_amount out
  socialize_deficit-Socialized pool env info max_amount {out} v h =
      (socialize_deficit-Ensures pool env info max_amount v).at out h

  pub socialize_deficit-IsValid :
      (pool : Pool) (env : Env) (info : MessageInfo) (max_amount : ℕ) {out : Pool × Response}
      → IsValid pool
      → socialize_deficit host pool env info max_amount ≡ ok out
      → IsValid out.0
  socialize_deficit-IsValid pool env info max_amount {out} v h =
      let e = socialize_deficit-Socialized pool env info max_amount v h in
      let r = e.accrued in
      let a = accrual-IsValid laws pool env.block_time pool.contract.rate_params v e.accrues in
      rw (e.writes) (
        set_reserve_state-IsValid (set_reserve_state pool r)
          (record r { liquidity_index = e.index; deficit_underlying = e.deficit_left }) a refl
          a.liquidity_bound a.accrued_bound (omega (arith, e.deficit_falls, a.deficit_bound)))
