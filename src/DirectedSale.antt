-- ===== src/DirectedSale.antt =====
-- A borrower's directed sale: contracts/pool_v2/src/model/directed_sale.rs and
-- execute/adjust_directed_collateral_sale.rs. Versions are `u64`, adjustments `i128`.
pub mod Offers
pub mod Replay
use democratized_prime_smart.Map
use democratized_prime_smart.U128
use democratized_prime_smart.Collateral.{is_supported}
use democratized_prime_smart.Contract.{CollateralAsset}
use democratized_prime_smart.Host.{Env, MessageInfo, no_funds}
use democratized_prime_smart.Map.{Map}
use democratized_prime_smart.Pool.{
  DirectedSaleOffer, Pool, get_borrower_collateral, get_directed_sale_version, get_scaled_borrow,
}
use democratized_prime_smart.Prelude.{
  Bool, List, Option, Result, [], ensure, false, if◌then◌else◌, illegal_argument, illegal_state,
  invalid_funds, leb, ltb, min, none, not, ok, or_err, some, suc, true, ℕ, ◌&&◌, ◌+◌, ◌-◌, ◌==◌,
  ◌>>=◌, ◌>>◌, ◌^◌, ◌||◌, ◌∷◌,
}
use democratized_prime_smart.Responses.{Outcome, no_response}

-- `negsuc n` is -(n + 1).
pub data ℤ : Type 0 where
  pos negsuc : ℕ → ℤ

abbrev pub is_positive : ℤ → Bool
is_positive (pos n) = ltb 0 n
is_positive (negsuc _) = false

abbrev is_zero : ℤ → Bool
is_zero (pos n) = n == 0
is_zero (negsuc _) = false

unfoldable pub normalize_seize_map : Map ℕ → Map ℕ
normalize_seize_map [] = []
normalize_seize_map ((k, v) ∷ m) =
    let rest = normalize_seize_map m in if v == 0 then rest else (k, v) ∷ rest

-- `all` over the amounts of a normalized seizure
all_within : Map ℕ → Map ℕ → Bool
all_within offer [] = true
all_within offer ((k, amount) ∷ seize) =
    elim (Map.lookup k offer) [ none ↦ false | some have ↦ leb amount have ]
    && all_within offer seize

unfoldable pub is_seize_within_offer : Map ℕ → Map ℕ → Bool
unfolding normalize_seize_map all_within
is_seize_within_offer offer seize =
    let seize' = normalize_seize_map seize in not (Map.is_empty seize') && all_within offer seize'

-- the loop of `subtract_seize`, over a normalized seizure
subtract_all : Map ℕ → Map ℕ → Map ℕ
subtract_all remaining [] = remaining
subtract_all remaining ((k, amount) ∷ seize) =
    subtract_all
      (elim (Map.lookup k remaining) [
        | none ↦ remaining
        | some have ↦ Map.store k (have - amount) remaining
      ])
      seize

unfoldable pub subtract_seize : Map ℕ → Map ℕ → Map ℕ
unfolding subtract_all normalize_seize_map
subtract_seize offer seize = subtract_all offer (normalize_seize_map seize)

unfoldable pub is_live : DirectedSaleOffer → ℕ → Bool
is_live offer now = ltb now offer.expires_at

abbrev pub set_directed_sale_offer : Pool → ℕ → DirectedSaleOffer → Pool
set_directed_sale_offer pool borrower offer = record pool {
  directed_sale_offer = Map.insert borrower offer pool.directed_sale_offer;
}

abbrev pub clear_directed_sale_offer : Pool → ℕ → Pool
clear_directed_sale_offer pool borrower = record pool {
  directed_sale_offer = Map.remove borrower pool.directed_sale_offer;
}

abbrev pub get_directed_sale_offer : Pool → ℕ → Option DirectedSaleOffer
get_directed_sale_offer pool borrower = Map.lookup borrower pool.directed_sale_offer

abbrev pub set_directed_sale_version : Pool → ℕ → ℕ → Pool
set_directed_sale_version pool borrower version = record pool {
  directed_sale_version = Map.insert borrower version pool.directed_sale_version;
}

normalize_adjustments : Map ℤ → Map ℤ
normalize_adjustments [] = []
normalize_adjustments ((k, v) ∷ m) =
    let rest = normalize_adjustments m in if is_zero v then rest else (k, v) ∷ rest

any_increase : Map ℤ → Bool
any_increase [] = false
any_increase ((_, delta) ∷ m) = is_positive delta || any_increase m

-- one adjustment of the outstanding amounts
adjust_one : List CollateralAsset → Map ℕ → Map ℕ → ℕ → ℤ → Result (Map ℕ)
unfolding is_supported
adjust_one assets balances outstanding id (pos n) =
    if n == 0 then ok (Map.remove id outstanding) else (do
      ensure (is_supported assets id) illegal_argument
      new_amt ← or_err (U128.checked_add (Map.get id outstanding) n) illegal_argument
      ensure (leb new_amt (Map.get id balances)) illegal_argument
      ok (Map.insert id new_amt outstanding))
adjust_one assets balances outstanding id (negsuc n) = do
  ensure (not (suc n == 2 ^ 127)) illegal_argument
  ok (Map.store id (Map.get id outstanding - min (Map.get id outstanding) (suc n)) outstanding)

adjust_all : List CollateralAsset → Map ℕ → Map ℕ → Map ℤ → Result (Map ℕ)
unfolding adjust_one
adjust_all assets balances outstanding [] = ok outstanding
adjust_all assets balances outstanding ((id, delta) ∷ requested) = do
  outstanding' ← adjust_one assets balances outstanding id delta
  adjust_all assets balances outstanding' requested

abbrev amounts_of : Option DirectedSaleOffer → Map ℕ
amounts_of none = []
amounts_of (some offer) = offer.amounts

-- the offer as it stands after the adjustments
write_offer : Pool → ℕ → Map ℕ → Bool → ℕ → Result Pool
write_offer pool borrower outstanding increase expires_at =
    if Map.is_empty outstanding
    then ok (clear_directed_sale_offer pool borrower)
    else if increase
    then ok (
        set_directed_sale_offer pool borrower
          (record { amounts = outstanding; expires_at = expires_at }))
    else (do
      current ← or_err (get_directed_sale_offer pool borrower) illegal_state
      ok (
          set_directed_sale_offer pool borrower
            (record { amounts = outstanding; expires_at = current.expires_at })))

-- the checks of an increase
check_increase : Bool → Pool → Env → ℕ → ℕ → Result (Unit {0})
check_increase false pool env borrower expires_at = ok tt
check_increase true pool env borrower expires_at = do
  ensure (ltb env.block_time expires_at) illegal_argument
  ensure (ltb 0 (get_scaled_borrow pool borrower)) illegal_argument

-- the adjustments that are left after normalization
adjust : Pool → Env → ℕ → Map ℤ → ℕ → Result Pool
unfolding check_increase adjust_all write_offer any_increase
adjust pool env borrower requested expires_at =
    if Map.is_empty requested then ok (clear_directed_sale_offer pool borrower) else (do
      check_increase (any_increase requested) pool env borrower expires_at
      outstanding ←
          adjust_all pool.contract.supported_collateral_assets
            (get_borrower_collateral pool borrower)
            (amounts_of (get_directed_sale_offer pool borrower)) requested
      write_offer pool borrower outstanding (any_increase requested) expires_at)

unfoldable pub adjust_directed_collateral_sale : Pool → Env → MessageInfo → Map ℤ → ℕ → ℕ → Outcome
unfolding adjust normalize_adjustments
adjust_directed_collateral_sale pool env info adjustments expires_at version = do
  ensure (no_funds info) invalid_funds
  let borrower = info.sender
  let stored_version = get_directed_sale_version pool borrower
  ensure (ltb (stored_version + 1) (2 ^ 64)) illegal_state
  ensure (version == stored_version + 1) illegal_argument
  pool' ← adjust pool env borrower (normalize_adjustments adjustments) expires_at
  ok (set_directed_sale_version pool' borrower version, no_response)
