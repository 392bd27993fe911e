-- ===== src/PriceFeed.antt =====
-- Which oracle prices are used: contracts/pool_v2/src/utils/price.rs.
use democratized_prime_smart.Map
use democratized_prime_smart.Contract.{ContractState}
use democratized_prime_smart.Cosmwasm.{Cosmwasm}
use democratized_prime_smart.Host.{AssetPrice, Host}
use democratized_prime_smart.Map.{Map}
use democratized_prime_smart.Prelude.{
  Bool, List, Option, Result, [], ensure, false, if◌then◌else◌, leb, none, not, not_found, ok,
  or_err, some, stale_price_data, std, true, ℕ, ◌&&◌, ◌-◌, ◌==◌, ◌>>=◌, ◌>>◌, ◌||◌, ◌∷◌,
}
use democratized_prime_smart.Price.{is_stale, is_zero_price}

pub record LiquidationPrices : Type 0 where
  pub prices : Map AssetPrice
  pub unpriceable : List ℕ
  pub unpriceable_last_known : Map AssetPrice

abbrev pub mem : ℕ → List ℕ → Bool
mem a [] = false
mem a (x ∷ xs) = a == x || mem a xs

abbrev pub keys {ℓ} : {V : Type ℓ} → Map V → List ℕ
keys [] = []
keys ((k, _) ∷ m) = k ∷ keys m

-- `extend`: the later entries win
abbrev pub extend {ℓ} : {V : Type ℓ} → Map V → Map V → Map V
extend m [] = m
extend m ((k, v) ∷ n) = extend (Map.insert k v m) n

unfoldable pub prices_with_unpriceable_last_known : LiquidationPrices → Map AssetPrice
prices_with_unpriceable_last_known q = extend q.prices q.unpriceable_last_known

abbrev remove_all {ℓ} : {V : Type ℓ} → List ℕ → Map V → Map V
remove_all [] m = m
remove_all (k ∷ ks) m = remove_all ks (Map.remove k m)

unfoldable pub get_price_from_oracle : Host → ℕ → List ℕ → Bool → Result (Map AssetPrice)
get_price_from_oracle host oracle_addr assets skip_missing =
    or_err (host.get_prices_by_asset oracle_addr assets skip_missing) std

module _ ⦃c : Cosmwasm⦄ where
  open c use {seconds}

  -- the ids of the stale or zero prices, the lending denom aside
  stale_ids : ℕ → ℕ → Map AssetPrice → List ℕ
  stale_ids lending_denom block_time [] = []
  stale_ids lending_denom block_time ((id, p) ∷ prices) =
      let rest = stale_ids lending_denom block_time prices in
      if not (id == lending_denom) && (is_stale p block_time || is_zero_price p)
      then id ∷ rest
      else rest

  unfoldable pub drop_unpriceable_collateral : Map AssetPrice → ℕ → ℕ → Result (Map AssetPrice)
  unfolding stale_ids
  drop_unpriceable_collateral prices lending_denom block_time = do
    lending_price ← or_err (Map.lookup lending_denom prices) not_found
    ensure (not (is_stale lending_price block_time)) stale_price_data
    ok (remove_all (stale_ids lending_denom block_time prices) prices)

  unfoldable pub get_asset_prices_for_borrower :
      Host → ℕ → ContractState → Map ℕ → Result (Map AssetPrice)
  get_asset_prices_for_borrower host block_time contract collateral = do
    let lending_denom = contract.lending_denom.name
    prices ←
        get_price_from_oracle host contract.price_oracle_address (lending_denom ∷ keys collateral)
          true
    drop_unpriceable_collateral prices lending_denom block_time

  each_fresh : Map AssetPrice → ℕ → List ℕ → Result (Unit {0})
  each_fresh prices block_time [] = ok tt
  each_fresh prices block_time (id ∷ ids) = do
    price ← or_err (Map.lookup id prices) not_found
    ensure (not (is_stale price block_time)) stale_price_data
    each_fresh prices block_time ids

  unfoldable pub require_fresh_asset_prices : Host → ℕ → ℕ → List ℕ → Result (Unit {0})
  unfolding each_fresh
  require_fresh_asset_prices host block_time oracle_addr [] = ok tt
  require_fresh_asset_prices host block_time oracle_addr (id ∷ ids) = do
    prices ← get_price_from_oracle host oracle_addr (id ∷ ids) false
    each_fresh prices block_time (id ∷ ids)

  unfoldable pub liquidation_price_too_old : AssetPrice → ℕ → ℕ → Bool
  liquidation_price_too_old price now max_secs =
      is_stale price now && leb max_secs (seconds now - price.expiration_epoch_seconds)

  -- whether a held asset cannot be priced, and the old quote that is kept of it
  judge : Option AssetPrice → ℕ → ℕ → Bool × Option AssetPrice
  judge none now max_secs = (true, none)
  judge (some p) now max_secs =
      if is_zero_price p
      then (true, none)
      else if liquidation_price_too_old p now max_secs
      then (true, some p)
      else (false, none)

  -- the loop over the holdings
  sort_holdings : Map AssetPrice → ℕ → ℕ → Map ℕ → List ℕ × Map AssetPrice
  sort_holdings prices now max_secs [] = ([], [])
  sort_holdings prices now max_secs ((id, amount) ∷ holdings) =
      let (dropped, known) = sort_holdings prices now max_secs holdings in
      let (drop, quote) = judge (Map.lookup id prices) now max_secs in
      if amount == 0
      then (dropped, known)
      else if drop
      then (id ∷ dropped, elim quote [ none ↦ known | some p ↦ Map.insert id p known ])
      else (dropped, known)

  unfoldable pub drop_unpriceable_for_liquidation :
      Map AssetPrice → ℕ → ContractState → Map ℕ → Result LiquidationPrices
  unfolding sort_holdings judge
  drop_unpriceable_for_liquidation prices block_time contract collateral = do
    let max_secs = contract.max_liquidation_staleness_seconds
    lending_price ← or_err (Map.lookup contract.lending_denom.name prices) not_found
    ensure (not (liquidation_price_too_old lending_price block_time max_secs)) stale_price_data
    let (dropped, known) = sort_holdings prices block_time max_secs collateral
    ok (record {
      prices = remove_all dropped prices;
      unpriceable = dropped;
      unpriceable_last_known = known;
    })

  unfoldable pub get_asset_prices_for_liquidation :
      Host → ℕ → ContractState → Map ℕ → Result LiquidationPrices
  get_asset_prices_for_liquidation host block_time contract collateral = do
    let lending_denom = contract.lending_denom.name
    prices ←
        get_price_from_oracle host contract.price_oracle_address (lending_denom ∷ keys collateral)
          true
    drop_unpriceable_for_liquidation prices block_time contract collateral
