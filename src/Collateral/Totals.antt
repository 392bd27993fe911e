-- ===== src/Collateral/Totals.antt =====
-- How the maps of collateral move with the coins: contracts/pool_v2/src/execute/add_collateral.rs and
-- remove_collateral.rs.
use democratized_prime_smart.Map
use democratized_prime_smart.U128
use democratized_prime_smart.Collateral.{
  add_amounts, add_totals, coins_of, is_supported, remove_amounts, subtract_totals,
}
use democratized_prime_smart.Contract.{CollateralAsset}
use democratized_prime_smart.Cosmwasm.{Cosmwasm, IsCosmwasm}
use democratized_prime_smart.Host.{Coin}
use democratized_prime_smart.Map.{Map}
use democratized_prime_smart.Map.Sums.{
  IsSortedAbove, get-insert, get-store, insert-IsSortedAbove, store-IsSortedAbove,
}
use democratized_prime_smart.Pool.{
  Pool, add_total_collateral, get_total_collateral_by_asset, set_borrower_collateral,
  subtract_total_collateral,
}
use democratized_prime_smart.Prelude.{
  >>=-eq-ok, Ensures, Ensures->>=, Ensures-ensure, Ensures-ok, Ensures-or_err, List, [], ap, arith,
  if◌then◌else◌, illegal_state, leb, not, or_err, or_err-eq-ok, refl, ℕ, ◌++◌, ◌+◌, ◌<◌, ◌==◌, ◌∙◌,
  ◌∷◌, ◌≡◌,
}
use democratized_prime_smart.U128.Laws.{u128_add_eq, u128_sub_eq}

-- the amount of an asset among coins
abbrev pub amount_of : ℕ → List Coin → ℕ
amount_of asset [] = 0
amount_of asset (coin ∷ coins) =
    (if asset == coin.denom then coin.amount else 0) + amount_of asset coins

-- The totals rose, or fell, by the coins, and nothing else of the pool changed.
pub record Moved (pool pool' : Pool) (coins back : List Coin) : Type 0 where
  pub same : pool' ≡ record pool { total_collateral_by_asset = pool'.total_collateral_by_asset }
  pub sorted : IsSortedAbove 0 pool'.total_collateral_by_asset
  pub totals :
      (asset : ℕ)
      → Map.get asset pool'.total_collateral_by_asset + amount_of asset back
        ≡ Map.get asset pool.total_collateral_by_asset + amount_of asset coins

abbrev with_totals : Pool → Map ℕ → Pool
with_totals pool totals = record pool { total_collateral_by_asset = totals }

pub add_totals-Moved :
    (pool : Pool) (coins : List Coin)
    → IsSortedAbove 0 pool.total_collateral_by_asset
    → Ensures (λ pool'. Moved pool pool' coins []) (add_totals pool coins)
unfolding add_totals add_total_collateral
add_totals-Moved pool [] s =
    Ensures-ok pool (record { same = refl; sorted = s; totals = λ asset. refl })
add_totals-Moved pool (coin ∷ coins) s =
    let cur = get_total_collateral_by_asset pool coin.denom in
    record {
      at = λ pool' h.
          let (next, en, rest) = >>=-eq-ok (add_total_collateral pool coin.denom coin.amount) _ h in
          let (total, et, eq) =
            >>=-eq-ok (or_err (U128.checked_add cur coin.amount) illegal_state) _ en in
          let (sum_eq, _) =
            u128_add_eq cur coin.amount
              (or_err-eq-ok (U128.checked_add cur coin.amount) illegal_state et) in
          let mid = with_totals pool (Map.store coin.denom total pool.total_collateral_by_asset) in
          let mid_eq : mid ≡ next = cc in
          let e =
            (add_totals-Moved mid coins
                (store-IsSortedAbove coin.denom total pool.total_collateral_by_asset s)).at
              pool' (rw mid_eq rest) in
          record {
            same = e.same;
            sorted = e.sorted;
            totals = λ asset. ground (
              arith,
              e.totals asset,
              get-store coin.denom total asset 0 pool.total_collateral_by_asset s,
            );
          };
    }

pub amount_of-++ :
    (asset : ℕ) (xs ys : List Coin)
    → amount_of asset (xs ++ ys) ≡ amount_of asset xs + amount_of asset ys
amount_of-++ asset [] ys = omega arith
amount_of-++ asset (coin ∷ xs) ys = omega (arith, amount_of-++ asset xs ys)

pub amount_of-below :
    (asset low : ℕ) (m : Map ℕ)
    → asset < low
    → IsSortedAbove low m
    → amount_of asset (coins_of m) ≡ 0
amount_of-below asset low [] h s = refl
amount_of-below asset low ((k, v) ∷ m) h s = ground (arith, amount_of-below asset (k + 1) m)

pub amount_of-coins_of :
    (asset low : ℕ) (m : Map ℕ)
    → IsSortedAbove low m
    → amount_of asset (coins_of m) ≡ Map.get asset m
amount_of-coins_of asset low [] s = refl
amount_of-coins_of asset low ((k, v) ∷ m) s =
    ground (arith, amount_of-below asset (k + 1) m, amount_of-coins_of asset (k + 1) m)

-- One movement after another.
pub Moved-trans :
    {pool pool1 pool2 : Pool} {coins1 coins2 back1 back2 : List Coin}
    → Moved pool pool1 coins1 back1
    → Moved pool1 pool2 coins2 back2
    → Moved pool pool2 (coins1 ++ coins2) (back1 ++ back2)
Moved-trans {pool} {pool1} {pool2} {coins1} {coins2} {back1} {back2} e1 e2 = record {
  same = e2.same ∙ ap (λ (x : Pool). with_totals x pool2.total_collateral_by_asset) e1.same;
  sorted = e2.sorted;
  totals = λ asset. omega (
    arith,
    e1.totals asset,
    e2.totals asset,
    amount_of-++ asset coins1 coins2,
    amount_of-++ asset back1 back2,
  );
}

-- A movement of the totals does not meet what is written for a borrower.
pub Moved-set_borrower_collateral :
    {pool pool' : Pool} {coins back : List Coin} (borrower : ℕ) (amounts : Map ℕ)
    → Moved pool pool' coins back
    → Moved
        (set_borrower_collateral pool borrower amounts)
        (set_borrower_collateral pool' borrower amounts)
        coins
        back
Moved-set_borrower_collateral borrower amounts e = record {
  same = ap (λ (x : Pool). set_borrower_collateral x borrower amounts) e.same;
  sorted = e.sorted;
  totals = e.totals;
}

pub subtract_total_collateral-Moved :
    (pool : Pool) (denom amount : ℕ)
    → IsSortedAbove 0 pool.total_collateral_by_asset
    → Ensures
        (λ pool'. Moved pool pool' [] (record { denom = denom; amount = amount } ∷ []))
        (subtract_total_collateral pool denom amount)
unfolding subtract_total_collateral
subtract_total_collateral-Moved pool denom amount s =
    let cur = get_total_collateral_by_asset pool denom in
    Ensures-or_err (U128.checked_sub cur amount) _ _ λ total et.
      let diff_eq = u128_sub_eq cur amount et in
      Ensures-ok (with_totals pool (Map.store denom total pool.total_collateral_by_asset)) (record {
        same = refl;
        sorted = store-IsSortedAbove denom total pool.total_collateral_by_asset s;
        totals =
            λ asset. ground (arith, get-store denom total asset 0 pool.total_collateral_by_asset s);
      })

pub subtract_totals-Moved :
    (pool : Pool) (to_remove : Map ℕ)
    → IsSortedAbove 0 pool.total_collateral_by_asset
    → Ensures (λ pool'. Moved pool pool' [] (coins_of to_remove)) (subtract_totals pool to_remove)
unfolding subtract_totals
subtract_totals-Moved pool [] s =
    Ensures-ok pool (record { same = refl; sorted = s; totals = λ asset. refl })
subtract_totals-Moved pool ((denom, amount) ∷ to_remove) s =
    Ensures->>= (subtract_total_collateral pool denom amount) _ λ mid em.
      let first = (subtract_total_collateral-Moved pool denom amount s).at mid em in
      record {
        at = λ pool' h.
            Moved-trans first ((subtract_totals-Moved mid to_remove first.sorted).at pool' h);
      }

pub record Changed (amounts amounts' : Map ℕ) (coins back : List Coin) : Type 0 where
  pub sorted : IsSortedAbove 0 amounts'
  pub moved :
      (asset : ℕ)
      → Map.get asset amounts' + amount_of asset back
        ≡ Map.get asset amounts + amount_of asset coins

module _ ⦃c : Cosmwasm⦄ (laws : IsCosmwasm c) where
  pub add_amounts-Changed :
      (current : Map ℕ) (coins : List Coin)
      → IsSortedAbove 0 current
      → Ensures (λ m. Changed current m coins []) (add_amounts current coins)
  unfolding add_amounts
  add_amounts-Changed current [] s =
      Ensures-ok current (record { sorted = s; moved = λ asset. refl })
  add_amounts-Changed current (coin ∷ coins) s =
      let cur = Map.get coin.denom current in
      Ensures-or_err (c.uint128_checked_add cur coin.amount) _ _ λ new en.
        let new_eq : new ≡ cur + coin.amount =
          ground (arith, laws.uint128_add_law cur coin.amount) in
        record {
          at = λ m h.
              let e =
                (add_amounts-Changed (Map.insert coin.denom new current) coins
                    (insert-IsSortedAbove coin.denom 0 new current (omega arith) s)).at
                  m h in
              record {
                sorted = e.sorted;
                moved =
                    λ asset. ground (arith, e.moved asset, get-insert coin.denom new asset current);
              };
        }

pub remove_amounts-Changed :
    (assets : List CollateralAsset) (current to_remove : Map ℕ)
    → IsSortedAbove 0 current
    → Ensures
        (λ m. Changed current m [] (coins_of to_remove))
        (remove_amounts assets current to_remove)
unfolding remove_amounts
remove_amounts-Changed assets current [] s =
    Ensures-ok current (record { sorted = s; moved = λ asset. refl })
remove_amounts-Changed assets current ((denom, amount) ∷ to_remove) s =
    let cur = Map.get denom current in
    Ensures-ensure (not (amount == 0)) _ _ λ _. Ensures-ensure (is_supported assets denom) _ _ λ _.
      Ensures-ensure (leb amount cur) _ _ λ _.
        Ensures-or_err (U128.checked_sub cur amount) _ _ λ left el.
          let left_eq = u128_sub_eq cur amount el in
          record {
            at = λ m h.
                let e =
                  (remove_amounts-Changed assets (Map.store denom left current) to_remove
                      (store-IsSortedAbove denom left current s)).at
                    m h in
                record {
                  sorted = e.sorted;
                  moved = λ asset.
                      ground (arith, e.moved asset, get-store denom left asset 0 current s);
                };
          }
