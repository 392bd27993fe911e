-- ===== src/Steps/Kept.antt =====
-- How the handlers of contracts/pool_v2/src/execute keep the configuration and the deficit.
use democratized_prime_smart.Accrual.{compute_effective_reserve}
use democratized_prime_smart.Accrual.Growth.{accrual-Grows}
use democratized_prime_smart.Configuration.Effects.{SameRisk, SameRisk-refl}
use democratized_prime_smart.Configuration.Soundness.{IsSound}
use democratized_prime_smart.Contract.{ContractState, liquidator_only}
use democratized_prime_smart.Cosmwasm.{Cosmwasm, IsCosmwasm}
use democratized_prime_smart.Host.{Env, Host, MessageInfo, Msg}
use democratized_prime_smart.Lending.{ReceivePayload, receive}
use democratized_prime_smart.Lending.Burning.{Withdrawn}
use democratized_prime_smart.Liquidation.{liquidate}
use democratized_prime_smart.Liquidation.Effects.{liquidate-Liquidated}
use democratized_prime_smart.Liquidation.Taken.{after_eq}
use democratized_prime_smart.Map.{Map}
use democratized_prime_smart.Pool.{Pool}
use democratized_prime_smart.Pool.Invariant.{IsValid}
use democratized_prime_smart.Prelude.{Option, ap, arith, inl, inr, ok, refl, ℕ, ◌∙◌, ◌≡◌, ◌≤◌, ◌⊎◌}
use democratized_prime_smart.Reserve.{ReserveState}
use democratized_prime_smart.Responses.{Response}
use democratized_prime_smart.Steps.Handled.{receive-Handled}

-- The configuration stays, and the deficit does not rise.
pub record Kept (pool pool' : Pool) : Type 0 where
  pub same : pool'.contract ≡ pool.contract
  pub deficit_le : pool'.reserve.deficit_underlying ≤ pool.reserve.deficit_underlying

abbrev pub Sound : Pool → Type 0
Sound pool = IsSound pool.contract pool.reserve.deficit_underlying

-- Soundness is of the rates, the access to liquidation and the allocation of losses.
pub risk-IsSound :
    (contract contract' : ContractState) (deficit deficit' : ℕ)
    → IsSound contract deficit
    → SameRisk contract contract'
    → (deficit' ≤ deficit) ⊎ (contract.liquidation_access ≡ liquidator_only)
    → IsSound contract' deficit'
risk-IsSound contract contract' deficit deficit' s e le = record {
  margin_some = rw (e.margin) s.margin_some;
  margin_below = rw (e.margin, e.liquidation) s.margin_below;
  liquidation_at_most_one = rw (e.liquidation) s.liquidation_at_most_one;
  bonus_above_one = rw (e.bonus) s.bonus_above_one;
  bonus_room = rw (e.bonus, e.margin) s.bonus_room;
  staleness_bound = rw (e.staleness) s.staleness_bound;
  access =
      rw (e.access, e.staleness, e.allocation)
        (elim s.access [
          | inl closed ↦ inl closed
          | inr (short, immediate, clear) ↦ elim le [
            | inl less ↦ inr (short, immediate, omega arith)
            | inr closed ↦ inl closed
          ]
        ]);
}

risk_of :
    (pool pool' : Pool) → pool'.contract ≡ pool.contract → SameRisk pool.contract pool'.contract
risk_of pool pool' e = rw e (SameRisk-refl pool.contract)

pub Kept-IsSound : (pool pool' : Pool) → Sound pool → Kept pool pool' → Sound pool'
Kept-IsSound pool pool' s e =
    risk-IsSound pool.contract pool'.contract pool.reserve.deficit_underlying
      pool'.reserve.deficit_underlying s (risk_of pool pool' e.same) (inl e.deficit_le)

module _ ⦃c : Cosmwasm⦄ (laws : IsCosmwasm c) where
  -- what is written after an accrual
  pub accrued-Kept :
      (pool pool' : Pool) (env : Env) (r : ReserveState)
      → IsValid pool
      → compute_effective_reserve pool.reserve env.block_time pool.contract.rate_params ≡ ok r
      → pool'.contract ≡ pool.contract
      → pool'.reserve.deficit_underlying ≤ r.deficit_underlying
      → Kept pool pool'
  accrued-Kept pool pool' env r v accrues same le =
      let grows =
        accrual-Grows laws pool.reserve env.block_time pool.contract.rate_params v.accrued_bound
          accrues in
      record { same = same; deficit_le = omega (arith, grows.same_deficit, le) }

  -- the same where the new storage is known
  pub written-Kept :
      (pool pool' : Pool) (env : Env) (r : ReserveState) (written : Pool)
      → IsValid pool
      → compute_effective_reserve pool.reserve env.block_time pool.contract.rate_params ≡ ok r
      → pool' ≡ written
      → written.contract ≡ pool.contract
      → written.reserve.deficit_underlying ≤ r.deficit_underlying
      → Kept pool pool'
  written-Kept pool pool' env r written v accrues e same le =
      rw e (accrued-Kept pool written env r v accrues same le)

  module _ (host : Host) where
    pub Withdrawn-Kept :
        {pool : Pool} {env : Env} {account balance : ℕ} {burning : ℕ → ℕ → Msg}
        {out : Pool × Response}
        → IsValid pool
        → Withdrawn pool env account balance burning out
        → Kept pool out.0
    Withdrawn-Kept {pool} {env} {out = out} v e =
        written-Kept pool out.0 env e.accrued _ v e.accrues e.writes refl (omega arith)

    pub receive-Kept :
        (pool : Pool) (env : Env) (info : MessageInfo) (cw20_sender amount : ℕ)
        (msg : Option ReceivePayload) {out : Pool × Response}
        → IsValid pool
        → receive host pool env info cw20_sender amount msg ≡ ok out
        → Kept pool out.0
    receive-Kept pool env info cw20_sender amount msg v h =
        let (_, handled) = receive-Handled laws host pool env info cw20_sender amount msg h in
        elim handled [
          | inl same ↦ rw same (record { same = refl; deficit_le = omega arith })
          | inr withdrawn ↦ Withdrawn-Kept v withdrawn
        ]

    -- A liquidation books a deficit only where losses are deferred, and there only the liquidator liquidates.
    pub liquidate-IsSound :
        (pool : Pool) (env : Env) (info : MessageInfo) (borrower : ℕ) (seize : Map ℕ)
        {out : Pool × Response}
        → IsValid pool
        → Sound pool
        → liquidate host pool env info borrower seize ≡ ok out
        → Sound out.0
    liquidate-IsSound pool env info borrower seize {out} v s h =
        let e = liquidate-Liquidated laws host pool env info borrower seize v h in
        let written = after_eq laws host pool env info borrower seize {out = out} e in
        let contract_eq : out.0.contract ≡ pool.contract =
          ap (λ (x : Pool). x.contract) written ∙ ap (λ (x : Pool). x.contract) e.moved.rest in
        let reserve_eq : out.0.reserve ≡ e.reserve' =
          ap (λ (x : Pool). x.reserve) written ∙ ap (λ (x : Pool). x.reserve) e.moved.rest in
        let deficit_eq = ap (λ (x : ReserveState). x.deficit_underlying) reserve_eq in
        let grows =
          accrual-Grows laws pool.reserve env.block_time pool.contract.rate_params v.accrued_bound
            e.accrues in
        risk-IsSound pool.contract out.0.contract pool.reserve.deficit_underlying
          out.0.reserve.deficit_underlying s (risk_of pool out.0 contract_eq)
          (elim e.settled.booked [
            | inl (_, only_total) ↦
                let same = ap (λ (x : ReserveState). x.deficit_underlying) only_total in
                inl (omega (arith, deficit_eq, same, grows.same_deficit))
            | inr (_, booked) ↦ elim booked.taken [
              | inl (deferred, _, _) ↦ elim s.access [
                | inl closed ↦ inr closed
                | inr (_, immediate, _) ↦ inr cc
              ]
              | inr (_, same, _, _) ↦ inl (omega (arith, deficit_eq, same, grows.same_deficit))
            ]
          ])
