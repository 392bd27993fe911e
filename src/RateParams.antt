-- ===== src/RateParams.antt =====
-- The parameters of the kink rate model: contracts/pool_v2/src/model/rate_params.rs. Rates are
-- `Decimal256` atomics.
use democratized_prime_smart.Cosmwasm.{decimal_one}
use democratized_prime_smart.Prelude.{
  Result, arith, ensure, illegal_argument, inl, inr, leb, ltb, not, ok, ℕ, ◌&&◌, ◌<◌, ◌==◌, ◌>>◌,
  ◌≡◌, ◌≤◌, ◌⊎◌,
}

pub data FeeModel : Type 0 where
  reserve_factor flat_borrow_spread : FeeModel

abbrev pub seconds_per_year : ℕ
seconds_per_year = 31_536_000

pub record RateParams : Type 0 where
  pub target_rate : ℕ
  pub min_rate : ℕ
  pub max_rate : ℕ
  pub kink_utilization : ℕ
  pub reserve_factor : ℕ
  pub fee_model : FeeModel
  pub flat_fee_apr : ℕ
  pub seconds_per_year : ℕ

-- the checks that depend on the fee model
validate_fee : FeeModel → RateParams → Result (Unit {0})
validate_fee flat_borrow_spread p = do
  ensure (leb p.flat_fee_apr p.min_rate) illegal_argument
  ensure (p.reserve_factor == 0) illegal_argument
validate_fee reserve_factor p = ensure (p.flat_fee_apr == 0) illegal_argument

-- `RateParamsV1::validate`
unfoldable pub validate : RateParams → Result (Unit {0})
unfolding validate_fee
validate p = do
  ensure (leb p.min_rate p.target_rate) illegal_argument
  ensure (leb p.target_rate p.max_rate) illegal_argument
  ensure (leb p.max_rate decimal_one) illegal_argument
  ensure (not (p.kink_utilization == 0) && ltb p.kink_utilization decimal_one) illegal_argument
  ensure (ltb p.reserve_factor decimal_one) illegal_argument
  ensure (ltb p.flat_fee_apr decimal_one) illegal_argument
  validate_fee p.fee_model p
  ensure (p.seconds_per_year == seconds_per_year) illegal_argument

-- What the rate model relies on.
pub record IsValid (p : RateParams) : Type 0 where
  pub min_le_target : p.min_rate ≤ p.target_rate
  pub target_le_max : p.target_rate ≤ p.max_rate
  pub max_le_one : p.max_rate ≤ decimal_one
  pub kink_pos : 0 < p.kink_utilization
  pub kink_lt_one : p.kink_utilization < decimal_one
  pub factor_lt_one : p.reserve_factor < decimal_one
  pub fee_fits_model :
      ((p.fee_model ≡ flat_borrow_spread) × (p.flat_fee_apr ≤ p.min_rate) × (p.reserve_factor ≡ 0))
      ⊎ ((p.fee_model ≡ FeeModel.reserve_factor) × (p.flat_fee_apr ≡ 0))

fee_lem :
    (m : FeeModel) (p : RateParams)
    → validate_fee m p ≡ ok tt
    → ((m ≡ flat_borrow_spread) × (p.flat_fee_apr ≤ p.min_rate) × (p.reserve_factor ≡ 0))
      ⊎ ((m ≡ FeeModel.reserve_factor) × (p.flat_fee_apr ≡ 0))
unfolding validate_fee
fee_lem flat_borrow_spread p h = inl (ground arith)
fee_lem reserve_factor p h = inr (ground arith)

-- Parameters that pass the checks satisfy every bound that the rate model relies on.
pub validate-IsValid : (p : RateParams) → validate p ≡ ok tt → IsValid p
unfolding validate
validate-IsValid p h = ground (arith, fee_lem p.fee_model p)
