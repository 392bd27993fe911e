-- ===== src/Liquidation/Seizure.antt =====
-- The checks of a seizure and what is written of it: sections 6 to 8 of `liquidate` in
-- contracts/pool_v2/src/execute/liquidate.rs, and its helpers.
use democratized_prime_smart.Map
use democratized_prime_smart.U128
use democratized_prime_smart.Access.{assert_owner}
use democratized_prime_smart.Collateral.{is_supported}
use democratized_prime_smart.Contract.{
  BadDebtLossAllocation, CollateralAsset, ContractState, deferred_to_deficit,
  immediate_liquidity_index_haircut, is_permissionless,
}
use democratized_prime_smart.Cosmwasm.{Cosmwasm, decimal_one}
use democratized_prime_smart.DirectedSale.{
  clear_directed_sale_offer, normalize_seize_map, set_directed_sale_offer, subtract_seize,
}
use democratized_prime_smart.Haircut.{apply_pro_rata_liquidity_index_haircut}
use democratized_prime_smart.Health.{
  BorrowerHealth, calculate_total_collateral_value_usd, get_borrower_health, is_healthy,
  is_liquidatable,
}
use democratized_prime_smart.Host.{AssetPrice, Coin, Host, MessageInfo, Msg, bank_send}
use democratized_prime_smart.Liquidation.Payment.{Payment, Position}
use democratized_prime_smart.Map.{Map}
use democratized_prime_smart.Pool.{DirectedSaleOffer, Pool, subtract_total_collateral}
use democratized_prime_smart.Prelude.{
  Bool, List, Option, Result, [], ensure, err, false, if◌then◌else◌, illegal_argument,
  illegal_state, leb, ltb, none, not, not_found, ok, or_err, overflow_error, some, true, ℕ, ◌&&◌,
  ◌*◌, ◌==◌, ◌>>=◌, ◌>>◌, ◌||◌, ◌∷◌,
}
use democratized_prime_smart.Price.{value_usd}
use democratized_prime_smart.PriceFeed.{LiquidationPrices, mem, prices_with_unpriceable_last_known}
use democratized_prime_smart.Reserve.{ReserveState}
use democratized_prime_smart.Scaling.{scaled_to_underlying_borrow, scaled_to_underlying_borrow_ceil}

-- what a seizure that passes the checks leaves behind
pub record Seizure : Type 0 where
  pub seized_value : ℕ
  pub repay_value : ℕ
  pub post_collateral : Map ℕ
  pub bad_debt : Bool

-- `any` over the holdings: a positive amount of an asset with a price
unfoldable pub holds_priceable : List ℕ → Map ℕ → Bool
holds_priceable unpriceable [] = false
holds_priceable unpriceable ((id, amt) ∷ holdings) =
    (ltb 0 amt && not (mem id unpriceable)) || holds_priceable unpriceable holdings

-- `any` over the holdings: a positive amount of an asset without a price
unfoldable pub holds_unpriceable : List ℕ → Map ℕ → Bool
holds_unpriceable unpriceable [] = false
holds_unpriceable unpriceable ((id, amt) ∷ holdings) =
    (ltb 0 amt && mem id unpriceable) || holds_unpriceable unpriceable holdings

-- `any` over the ids without a price: one that is held and has no old quote
missing_last_known : Map ℕ → Map AssetPrice → List ℕ → Bool
missing_last_known holdings known [] = false
missing_last_known holdings known (id ∷ ids) =
    (ltb 0 (Map.get id holdings) && not (Map.contains id known))
    || missing_last_known holdings known ids

-- the dry run: the seizure taken from the holdings
unfoldable pub dry_run : Map ℕ → Map ℕ → Result (Map ℕ)
dry_run amounts [] = ok amounts
dry_run amounts ((id, seize) ∷ to_seize) = do
  remaining ← or_err (U128.checked_sub (Map.get id amounts) seize) illegal_state
  dry_run (Map.store id remaining amounts) to_seize

module _ ⦃c : Cosmwasm⦄ where
  open c use {checked_add, checked_mul}

  -- the value of the seizure, with the checks of each asset
  unfoldable pub seized_value_from :
      List CollateralAsset → Map ℕ → LiquidationPrices → ℕ → Map ℕ → Result ℕ
  seized_value_from assets holdings quoted total [] = ok total
  seized_value_from assets holdings quoted total ((id, amount) ∷ seize) =
      if amount == 0 then seized_value_from assets holdings quoted total seize else (do
        ensure (is_supported assets id) illegal_argument
        ensure (leb amount (Map.get id holdings)) illegal_argument
        ensure (not (mem id quoted.unpriceable)) illegal_argument
        price ← or_err (Map.lookup id quoted.prices) not_found
        value ← value_usd price amount
        total' ← or_err (checked_add total value) overflow_error
        seized_value_from assets holdings quoted total' seize)

  -- the market value of the holdings that have a price
  unfoldable pub priced_value_from : LiquidationPrices → ℕ → Map ℕ → Result ℕ
  priced_value_from quoted total [] = ok total
  priced_value_from quoted total ((id, amount) ∷ holdings) =
      if amount == 0 || mem id quoted.unpriceable
      then priced_value_from quoted total holdings
      else elim (Map.lookup id quoted.prices) [
        | none ↦ priced_value_from quoted total holdings
        | some price ↦ (do
          value ← value_usd price amount
          total' ← or_err (checked_add total value) overflow_error
          priced_value_from quoted total' holdings)
      ]

  unfoldable pub unpriceable_is_load_bearing :
      ContractState → LiquidationPrices → Map ℕ → ℕ → Result Bool
  unfolding missing_last_known
  unpriceable_is_load_bearing contract quoted collateral debt_underlying = elim quoted.unpriceable [
    | [] ↦ ok false
    | id ∷ ids ↦
        if missing_last_known collateral quoted.unpriceable_last_known (id ∷ ids)
        then ok true
        else (do
          (health, _) ←
              get_borrower_health contract contract.supported_collateral_assets
                (prices_with_unpriceable_last_known quoted) collateral debt_underlying
          ok (not (is_liquidatable health)))
  ]

  -- a directed fill is not held up by collateral outside of it
  load_bearing : ContractState → Position → Result Bool
  unfolding unpriceable_is_load_bearing
  load_bearing contract position =
      if position.directed_fill
      then ok false
      else unpriceable_is_load_bearing contract position.quoted position.collateral
          position.debt_underlying

  unfoldable pub require_owner_for_unpriceable :
      Host → Pool → ℕ → Position → Bool → Map ℕ → Result (Unit {0})
  unfolding load_bearing
  require_owner_for_unpriceable host pool sender position bad_debt post_collateral =
      if is_permissionless pool.contract.liquidation_access
      then (do
        let sweeps = bad_debt && holds_unpriceable position.quoted.unpriceable post_collateral
        bearing ← load_bearing pool.contract position
        if bearing || sweeps then assert_owner host pool sender else ok tt)
      else ok tt

  -- The percentages of the message are computed first, and can overflow.
  unfoldable pub restored : BorrowerHealth → ℕ → ContractState → Result (Unit {0})
  restored health ltv contract = if is_healthy health then ok tt else (do
    _ ← or_err (checked_mul ltv (100 * decimal_one)) overflow_error
    _ ← or_err (checked_mul contract.margin_rate (100 * decimal_one)) overflow_error
    err illegal_argument)

  -- section 7b: unless a debt is cleared or written off, the borrower is left healthy
  unfoldable pub check_post_state :
      ContractState → ReserveState → Map AssetPrice → ℕ → Bool → Map ℕ → Result (Unit {0})
  unfolding restored
  check_post_state contract reserve prices new_scaled_debt bad_debt post_collateral =
      if ltb 0 new_scaled_debt && not bad_debt
      then (do
        post_debt ← scaled_to_underlying_borrow new_scaled_debt reserve.borrow_index
        (health, ltv) ←
            get_borrower_health contract contract.supported_collateral_assets prices post_collateral
              post_debt
        restored health ltv contract)
      else ok tt

  -- sections 6, 7 and 7b
  unfoldable pub check_seizure :
      Host → Pool → MessageInfo → ReserveState → Position → Payment → Map ℕ → Result Seizure
  check_seizure host pool info reserve position payment collateral_to_seize = do
    let contract = pool.contract
    let quoted = position.quoted
    let holdings = position.collateral
    let to_seize = normalize_seize_map collateral_to_seize
    repay_value ← value_usd position.price_lending payment.actual_repay
    max_value ← or_err (checked_mul repay_value contract.liquidation_bonus_rate) overflow_error
    let allow_empty = not (holds_priceable quoted.unpriceable holdings) && Map.is_empty to_seize
    ensure (allow_empty || not (Map.is_empty collateral_to_seize)) illegal_argument
    seized_value ←
        seized_value_from contract.supported_collateral_assets holdings quoted 0 collateral_to_seize
    ensure (allow_empty || not (Map.is_empty to_seize)) illegal_argument
    post ← dry_run holdings to_seize
    post_value ←
        calculate_total_collateral_value_usd post quoted.prices contract.supported_collateral_assets
    let bad_debt = ltb 0 payment.new_scaled_debt && post_value == 0
    require_owner_for_unpriceable host pool info.sender position bad_debt post
    priced_value ← priced_value_from quoted 0 holdings
    payoff_value ← value_usd position.price_lending position.debt_payoff
    ensure (not (bad_debt && leb payoff_value priced_value)) illegal_argument
    let floor_waived = bad_debt || (payment.new_scaled_debt == 0 && seized_value == 0)
    ensure (floor_waived || leb repay_value seized_value) illegal_argument
    ensure (leb seized_value max_value) illegal_argument
    ensure
        (not (
          bad_debt
          && leb position.debt_underlying payment.sent
          && ltb payment.sent position.debt_payoff))
        illegal_argument
    check_post_state contract reserve quoted.prices payment.new_scaled_debt bad_debt post
    ok (record {
      seized_value = seized_value;
      repay_value = repay_value;
      post_collateral = post;
      bad_debt = bad_debt;
    })

  unfoldable pub bad_debt_underlying : Bool → ℕ → ℕ → Result ℕ
  bad_debt_underlying false new_scaled_debt borrow_index = ok 0
  bad_debt_underlying true new_scaled_debt borrow_index =
      scaled_to_underlying_borrow_ceil new_scaled_debt borrow_index

  -- a loss, as the contract allocates it
  unfoldable pub book_loss : BadDebtLossAllocation → ReserveState → ℕ → Result ReserveState
  book_loss immediate_liquidity_index_haircut reserve loss =
      apply_pro_rata_liquidity_index_haircut reserve loss
  book_loss deferred_to_deficit reserve loss = do
    deficit ← or_err (U128.checked_add reserve.deficit_underlying loss) illegal_state
    ok (record reserve { deficit_underlying = deficit })

  -- section 8, the reserve
  unfoldable pub settle_reserve :
      ContractState → ReserveState → Payment → Bool → ℕ → Result ReserveState
  settle_reserve contract reserve payment true loss = do
    total_sub ← or_err (U128.checked_add payment.scaled_repay payment.new_scaled_debt) illegal_state
    total ← or_err (U128.checked_sub reserve.total_scaled_borrow total_sub) illegal_state
    book_loss contract.bad_debt_loss_allocation (record reserve { total_scaled_borrow = total })
        loss
  settle_reserve contract reserve payment false loss = do
    total ← or_err (U128.checked_sub reserve.total_scaled_borrow payment.scaled_repay) illegal_state
    ok (record reserve { total_scaled_borrow = total })

abbrev pub debt_left : Payment → Bool → ℕ
debt_left payment bad_debt = if bad_debt then 0 else payment.new_scaled_debt

abbrev pub stored_collateral : Seizure → Map ℕ
stored_collateral seizure = if seizure.bad_debt then [] else seizure.post_collateral

unfoldable pub add_outgoing_amount : Map ℕ → ℕ → ℕ → Result (Map ℕ)
add_outgoing_amount outgoing denom amount = do
  slot ← or_err (U128.checked_add (Map.get denom outgoing) amount) illegal_state
  ok (Map.insert denom slot outgoing)

-- assets leave the totals and go out
unfoldable pub take_out : Pool → Map ℕ → Map ℕ → Result (Pool × Map ℕ)
unfolding add_outgoing_amount
take_out pool outgoing [] = ok (pool, outgoing)
take_out pool outgoing ((id, amount) ∷ assets) = do
  outgoing' ← add_outgoing_amount outgoing id amount
  pool' ← subtract_total_collateral pool id amount
  take_out pool' outgoing' assets

-- the remainder that is swept with a debt that is written off
abbrev pub swept : Seizure → Map ℕ
swept seizure = if seizure.bad_debt then normalize_seize_map seizure.post_collateral else []

-- the seizure, and the sweep
unfoldable pub send_out : Pool → Map ℕ → Seizure → Result (Pool × Map ℕ)
unfolding take_out
send_out pool collateral_to_seize seizure = do
  (pool', outgoing) ← take_out pool [] (normalize_seize_map collateral_to_seize)
  take_out pool' outgoing (swept seizure)

-- what is left of the offer after a fill
unfoldable pub left_of_offer : Pool → ℕ → Option DirectedSaleOffer → Map ℕ → Pool
left_of_offer pool borrower none collateral_to_seize = pool
left_of_offer pool borrower (some offer) collateral_to_seize =
    let remaining = subtract_seize offer.amounts collateral_to_seize in
    if Map.is_empty remaining
    then clear_directed_sale_offer pool borrower
    else set_directed_sale_offer pool borrower
        (record { amounts = remaining; expires_at = offer.expires_at })

unfoldable pub shrink_offer : Pool → ℕ → Position → Map ℕ → Pool
unfolding left_of_offer
shrink_offer pool borrower position collateral_to_seize =
    if position.directed_fill
    then left_of_offer pool borrower position.stored_offer collateral_to_seize
    else pool

-- nothing is sent where nothing goes out
abbrev pub send_collateral : ℕ → List Coin → List Msg
send_collateral sender [] = []
send_collateral sender (coin ∷ coins) = bank_send sender (coin ∷ coins) ∷ []
