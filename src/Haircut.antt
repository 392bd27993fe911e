-- ===== src/Haircut.antt =====
-- The pro-rata loss of the lenders: `apply_pro_rata_liquidity_index_haircut` of
-- contracts/pool_v2/src/utils/rates.rs.
pub mod Loss
use democratized_prime_smart.Cosmwasm.{Cosmwasm}
use democratized_prime_smart.Prelude.{
  Result, checked_from_ratio, ensure, if◌then◌else◌, illegal_state, ltb, not, ok, or_err,
  overflow_error, panicked, ℕ, ◌==◌, ◌>>=◌, ◌>>◌,
}
use democratized_prime_smart.Reserve.{ReserveState, total_liquidity}

module _ ⦃c : Cosmwasm⦄ where
  open c use {checked_sub, checked_div, from_ratio, from_atomics}

  -- the haircut of a loss that is not zero
  haircut_index : ReserveState → ℕ → Result ℕ
  haircut_index reserve underlying_loss = do
    l ← total_liquidity reserve
    ensure (not (l == 0)) illegal_state
    d ← or_err (from_ratio underlying_loss 1) panicked
    ensure (ltb d l) illegal_state
    scaled ← or_err (from_atomics reserve.total_scaled_liquidity 0) illegal_state
    ensure (not (scaled == 0)) illegal_state
    remaining ← or_err (checked_sub l d) overflow_error
    new_index ← or_err (checked_div remaining scaled) checked_from_ratio
    ensure (not (new_index == 0)) illegal_state
    ok new_index

  unfoldable pub apply_pro_rata_liquidity_index_haircut : ReserveState → ℕ → Result ReserveState
  unfolding haircut_index
  apply_pro_rata_liquidity_index_haircut reserve underlying_loss =
      if underlying_loss == 0 then ok reserve else (do
        new_index ← haircut_index reserve underlying_loss
        ok (record reserve { liquidity_index = new_index }))
