-- ===== src/DirectedSale/Replay.antt =====
-- The versions of a directed sale: contracts/pool_v2/src/execute/adjust_directed_collateral_sale.rs.
use democratized_prime_smart.Map
use democratized_prime_smart.DirectedSale.{
  adjust, adjust_all, adjust_directed_collateral_sale, amounts_of, any_increase, check_increase,
  clear_directed_sale_offer, get_directed_sale_offer, normalize_adjustments,
  set_directed_sale_offer, set_directed_sale_version, write_offer, ℤ,
}
use democratized_prime_smart.Host.{Env, MessageInfo, no_funds}
use democratized_prime_smart.Map.{Map}
use democratized_prime_smart.Map.Sums.{get-insert}
use democratized_prime_smart.Pool.{
  DirectedSaleOffer, Pool, get_borrower_collateral, get_directed_sale_version,
}
use democratized_prime_smart.Prelude.{
  Ensures, Ensures->>=, Ensures-ensure, Ensures-if, Ensures-ok, Ensures-or_err, [], arith, inl, inr,
  ltb, ltb→lt, ok, refl, ℕ, ◌+◌, ◌<◌, ◌==◌, ◌^◌, ◌≡◌, ◌≢◌, ◌≤◌, ◌⊎◌,
}
use democratized_prime_smart.Responses.{Response, no_response}

-- An adjustment changes the sender's offer and version, and no more.
pub record Adjusted (pool : Pool) (borrower version : ℕ) (pool' : Pool) : Type 0 where
  pub next : version ≡ get_directed_sale_version pool borrower + 1
  pub fits : version < 2 ^ 64
  pub versions :
      pool'.directed_sale_version ≡ Map.insert borrower version pool.directed_sale_version
  pub rest : pool' ≡ record pool {
    directed_sale_offer = pool'.directed_sale_offer;
    directed_sale_version = pool'.directed_sale_version;
  }
  pub offers :
      (pool'.directed_sale_offer ≡ Map.remove borrower pool.directed_sale_offer)
      ⊎ ((offer : DirectedSaleOffer) × (pool'.directed_sale_offer
            ≡ Map.insert borrower offer pool.directed_sale_offer))

adjust_rest :
    (pool : Pool) (env : Env) (borrower : ℕ) (requested : Map ℤ) (expires_at : ℕ)
    → Ensures
        (λ pool'.
          (pool' ≡ clear_directed_sale_offer pool borrower)
          ⊎ ((offer : DirectedSaleOffer) × (pool' ≡ set_directed_sale_offer pool borrower offer)))
        (adjust pool env borrower requested expires_at)
unfolding adjust write_offer
adjust_rest pool env borrower requested expires_at =
    let increase = any_increase requested in
    Ensures-if (Map.is_empty requested) _ _ (λ _. Ensures-ok _ (inl refl))
      (λ _. Ensures->>= (check_increase increase pool env borrower expires_at) _ λ _ _.
        Ensures->>=
          (adjust_all pool.contract.supported_collateral_assets
            (get_borrower_collateral pool borrower)
            (amounts_of (get_directed_sale_offer pool borrower)) requested)
          _
          λ outstanding _.
            Ensures-if (Map.is_empty outstanding) _ _ (λ _. Ensures-ok _ (inl refl))
              (λ _.
                Ensures-if increase _ _ (λ _. Ensures-ok _ (inr (_, refl)))
                  (λ _.
                    Ensures-or_err (get_directed_sale_offer pool borrower) _ _
                      λ current _. Ensures-ok _ (inr (_, refl)))))

adjust-Ensures :
    (pool : Pool) (env : Env) (info : MessageInfo) (adjustments : Map ℤ) (expires_at version : ℕ)
    → Ensures
        (λ out. Adjusted pool info.sender version out.0 × (out.1.messages ≡ []))
        (adjust_directed_collateral_sale pool env info adjustments expires_at version)
unfolding adjust_directed_collateral_sale
adjust-Ensures pool env info adjustments expires_at version =
    let borrower = info.sender in
    let stored = get_directed_sale_version pool borrower in
    Ensures-ensure (no_funds info) _ _ λ _. Ensures-ensure (ltb (stored + 1) (2 ^ 64)) _ _ λ small.
      Ensures-ensure (version == stored + 1) _ _ λ next.
        Ensures->>= (adjust pool env borrower (normalize_adjustments adjustments) expires_at) _
          λ pool' ea.
            let next_eq : version ≡ stored + 1 = ground arith in
            let fits = ltb→lt (stored + 1) (2 ^ 64) small in
            let e =
              (adjust_rest pool env borrower (normalize_adjustments adjustments) expires_at).at
                pool' ea in
            Ensures-ok (set_directed_sale_version pool' borrower version, no_response)
              (
                elim e [
                  | inl cleared ↦ rw cleared (record {
                    next = next_eq;
                    fits = rw next_eq fits;
                    versions = refl;
                    rest = refl;
                    offers = inl refl;
                  })
                  | inr (offer, offered) ↦ rw offered (record {
                    next = next_eq;
                    fits = rw next_eq fits;
                    versions = refl;
                    rest = refl;
                    offers = inr (offer, refl);
                  })
                ],
                refl,
              )

-- An adjustment that goes through has the version after the stored one, which it stores, replaces or
-- removes the sender's offer, sends nothing, and changes nothing else of the pool.
pub adjust-Adjusted :
    (pool : Pool) (env : Env) (info : MessageInfo) (adjustments : Map ℤ) (expires_at version : ℕ)
    {out : Pool × Response}
    → adjust_directed_collateral_sale pool env info adjustments expires_at version ≡ ok out
    → Adjusted pool info.sender version out.0 × (out.1.messages ≡ [])
adjust-Adjusted pool env info adjustments expires_at version {out} h =
    (adjust-Ensures pool env info adjustments expires_at version).at out h

-- A version that was used is refused in any pool whose stored version for the sender is at least the one
-- that the adjustment left.
pub version_used :
    (pool pool' : Pool) (env env' : Env) (info info' : MessageInfo)
    (adjustments adjustments' : Map ℤ) (expires_at expires_at' version : ℕ)
    {out out' : Pool × Response}
    → adjust_directed_collateral_sale pool env info adjustments expires_at version ≡ ok out
    → get_directed_sale_version out.0 info.sender ≤ get_directed_sale_version pool' info.sender
    → info'.sender ≡ info.sender
    → adjust_directed_collateral_sale pool' env' info' adjustments' expires_at' version ≢ ok out'
version_used pool pool' env env' info info' adjustments adjustments' expires_at expires_at' version
      {out} {out'} h later same again =
    let first = (adjust-Adjusted pool env info adjustments expires_at version h).0 in
    let second =
      (adjust-Adjusted pool' env' info' adjustments' expires_at' version {out = out'} again).0 in
    let stored : get_directed_sale_version out.0 info.sender ≡ version =
      rw (first.versions)
        (ground (arith, get-insert info.sender version info.sender pool.directed_sale_version)) in
    let next = rw same at (second.next) in omega arith
