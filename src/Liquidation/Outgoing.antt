-- ===== src/Liquidation/Outgoing.antt =====
-- What goes out of the pool with a liquidation: the dry run, `add_outgoing_amount` and the sweep of
-- contracts/pool_v2/src/execute/liquidate.rs.
use democratized_prime_smart.Map
use democratized_prime_smart.U128
use democratized_prime_smart.Collateral.{coins_of}
use democratized_prime_smart.Collateral.Totals.{
  Changed, Moved, Moved-trans, amount_of, amount_of-++, amount_of-coins_of,
  subtract_total_collateral-Moved,
}
use democratized_prime_smart.DirectedSale.{normalize_seize_map}
use democratized_prime_smart.DirectedSale.Offers.{amount_of-normalize_seize_map}
use democratized_prime_smart.Host.{Coin}
use democratized_prime_smart.Liquidation.Seizure.{
  Seizure, add_outgoing_amount, dry_run, send_out, stored_collateral, swept, take_out,
}
use democratized_prime_smart.Map.{Map}
use democratized_prime_smart.Map.Sums.{
  IsSortedAbove, get-insert, get-store, insert-IsSortedAbove, store-IsSortedAbove,
}
use democratized_prime_smart.Pool.{Pool, subtract_total_collateral}
use democratized_prime_smart.Prelude.{
  >>=-eq-ok, Ensures, Ensures->>=, Ensures-ok, Ensures-or_err, List, [], arith, illegal_state, ok,
  or_err, or_err-eq-ok, refl, ℕ, ◌+◌, ◌∷◌, ◌≡◌,
}
use democratized_prime_smart.U128.Laws.{u128_add_eq, u128_sub_eq}

pub dry_run-Changed :
    (amounts to_seize : Map ℕ)
    → IsSortedAbove 0 amounts
    → Ensures (λ m. Changed amounts m [] (coins_of to_seize)) (dry_run amounts to_seize)
unfolding dry_run
dry_run-Changed amounts [] s = Ensures-ok amounts (record { sorted = s; moved = λ asset. refl })
dry_run-Changed amounts ((id, seize) ∷ to_seize) s =
    let cur = Map.get id amounts in
    Ensures-or_err (U128.checked_sub cur seize) _ _ λ left el.
      let left_eq = u128_sub_eq cur seize el in
      record {
        at = λ m h.
            let e =
              (dry_run-Changed (Map.store id left amounts) to_seize
                  (store-IsSortedAbove id left amounts s)).at
                m h in
            record {
              sorted = e.sorted;
              moved = λ asset. ground (arith, e.moved asset, get-store id left asset 0 amounts s);
            };
      }

-- What goes out left the totals, and is added to what was to go out before.
pub record TakenOut (pool : Pool) (outgoing assets : Map ℕ) (out : Pool × Map ℕ) : Type 0 where
  pub moved : Moved pool out.0 [] (coins_of assets)
  pub sorted : IsSortedAbove 0 out.1
  pub sum :
      (asset : ℕ) → Map.get asset out.1 ≡ Map.get asset outgoing + amount_of asset (coins_of assets)

take_out-TakenOut :
    (pool : Pool) (outgoing assets : Map ℕ)
    → IsSortedAbove 0 pool.total_collateral_by_asset
    → IsSortedAbove 0 outgoing
    → Ensures (TakenOut pool outgoing assets) (take_out pool outgoing assets)
unfolding take_out add_outgoing_amount
take_out-TakenOut pool outgoing [] s so =
    Ensures-ok (pool, outgoing)
      (record {
        moved = record { same = refl; sorted = s; totals = λ asset. refl };
        sorted = so;
        sum = λ asset. omega arith;
      })
take_out-TakenOut pool outgoing ((id, amount) ∷ assets) s so =
    let cur = Map.get id outgoing in
    Ensures->>= (add_outgoing_amount outgoing id amount) _ λ outgoing' eo.
      let (slot, es, eq) = >>=-eq-ok (or_err (U128.checked_add cur amount) illegal_state) _ eo in
      let (slot_eq, _) =
        u128_add_eq cur amount (or_err-eq-ok (U128.checked_add cur amount) illegal_state es) in
      let next : Map.insert id slot outgoing ≡ outgoing' = cc in
      Ensures->>= (subtract_total_collateral pool id amount) _ λ mid em.
        let first = (subtract_total_collateral-Moved pool id amount s).at mid em in
        let sorted : IsSortedAbove 0 outgoing' =
          rw (← next) (insert-IsSortedAbove id 0 slot outgoing (omega arith) so) in
        record {
          at = λ out h.
              let e = (take_out-TakenOut mid outgoing' assets first.sorted sorted).at out h in
              record {
                moved = Moved-trans first e.moved;
                sorted = e.sorted;
                sum = λ asset.
                    ground (arith, e.sum asset, rw next at (get-insert id slot asset outgoing));
              };
        }

-- What goes out of the pool with a seizure and its sweep, the seizure being a part of the holdings.
pub record SentOut (pool : Pool) (holdings : Map ℕ) (seizure : Seizure) (out : Pool × Map ℕ)
    : Type 0 where
  pub moved : Moved pool out.0 [] (coins_of out.1)
  pub changed : Changed holdings (stored_collateral seizure) [] (coins_of out.1)

-- What is stored after a seizure and its sweep is what the coins leave of the holdings.
stored_collateral-Changed :
    (holdings to_seize : Map ℕ) (seizure : Seizure) (coins : List Coin)
    → Changed holdings seizure.post_collateral [] (coins_of to_seize)
    → ((asset : ℕ)
        → amount_of asset coins
          ≡ amount_of asset (coins_of to_seize) + amount_of asset (coins_of (swept seizure)))
    → Changed holdings (stored_collateral seizure) [] coins
stored_collateral-Changed holdings to_seize seizure coins changed all = record {
  sorted = ground (arith, changed.sorted);
  moved = λ asset. ground (
    arith,
    changed.moved asset,
    all asset,
    amount_of-normalize_seize_map asset seizure.post_collateral,
    amount_of-coins_of asset 0 seizure.post_collateral changed.sorted,
  );
}

pub send_out-SentOut :
    (pool : Pool) (holdings collateral_to_seize : Map ℕ) (seizure : Seizure)
    → IsSortedAbove 0 pool.total_collateral_by_asset
    → IsSortedAbove 0 holdings
    → dry_run holdings (normalize_seize_map collateral_to_seize) ≡ ok seizure.post_collateral
    → Ensures (SentOut pool holdings seizure) (send_out pool collateral_to_seize seizure)
unfolding send_out
send_out-SentOut pool holdings collateral_to_seize seizure s sh dry =
    let to_seize = normalize_seize_map collateral_to_seize in
    let changed = (dry_run-Changed holdings to_seize sh).at seizure.post_collateral dry in
    Ensures->>= (take_out pool [] to_seize) _ λ (pool', outgoing) e1.
      let first = (take_out-TakenOut pool [] to_seize s tt).at (pool', outgoing) e1 in
      record {
        at = λ out h.
            let second =
              (take_out-TakenOut pool' outgoing (swept seizure) first.moved.sorted first.sorted).at
                out h in
            let both = Moved-trans first.moved second.moved in
            record {
              moved = record {
                same = both.same;
                sorted = both.sorted;
                totals = λ asset. omega (
                  arith,
                  both.totals asset,
                  amount_of-++ asset (coins_of to_seize) (coins_of (swept seizure)),
                  first.sum asset,
                  second.sum asset,
                  amount_of-coins_of asset 0 out.1 second.sorted,
                );
              };
              changed =
                  stored_collateral-Changed holdings to_seize seizure (coins_of out.1) changed
                    λ asset. omega (
                      arith,
                      first.sum asset,
                      second.sum asset,
                      amount_of-coins_of asset 0 out.1 second.sorted,
                    );
            };
      }
