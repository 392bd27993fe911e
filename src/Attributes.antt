-- ===== src/Attributes.antt =====
-- The checks of funds and of account attributes: contracts/pool_v2/src/utils/validation.rs. An
-- attribute's name is the list of its characters, by their code points.
pub mod Patterns
use democratized_prime_smart.Contract.{Denom}
use democratized_prime_smart.Host.{Coin, Host, MessageInfo}
use democratized_prime_smart.Prelude.{
  Bool, List, Option, Result, [], arith, ensure, err, false, if◌then◌else◌, illegal_argument, leb,
  none, not_authorized, ok, or_err, some, std, suc, true, zero, ℕ, ◌&&◌, ◌==◌, ◌>>=◌, ◌>>◌, ◌||◌,
  ◌↔◌, ◌∷◌, ◌≡◌, ◌≤◌,
}

-- `validate_single_coin_denom`: the one coin that was sent, in the lending denom
single_coin : List Coin → ℕ → ℕ → Result ℕ
single_coin (coin ∷ []) lending_denom min_amount = do
  ensure (coin.denom == lending_denom) illegal_argument
  ensure (leb min_amount coin.amount) illegal_argument
  ok coin.amount
single_coin _ lending_denom min_amount = err illegal_argument

unfoldable pub validate_single_coin_denom : MessageInfo → Denom → ℕ → Result ℕ
unfolding single_coin
validate_single_coin_denom info lending_denom min_amount =
    single_coin info.funds lending_denom.name min_amount

abbrev bytes_eq : List ℕ → List ℕ → Bool
bytes_eq [] [] = true
bytes_eq (x ∷ xs) (y ∷ ys) = x == y && bytes_eq xs ys
bytes_eq _ _ = false

-- `ends_with`
abbrev ends_with : List ℕ → List ℕ → Bool
ends_with [] suffix = bytes_eq [] suffix
ends_with (x ∷ xs) suffix = bytes_eq (x ∷ xs) suffix || ends_with xs suffix

any_match : List (List ℕ) → List ℕ → Bool
any_match [] suffix = false
any_match (name ∷ names) suffix = ends_with name suffix || any_match names suffix

abbrev non_empty : Option (List ℕ) → Option (List ℕ)
non_empty (some (b ∷ bs)) = some (b ∷ bs)
non_empty _ = none

-- the pages of a scan that are left, and the key of the next one
scan_pages : ℕ → Host → ℕ → List ℕ → List ℕ → Result Bool
scan_pages zero host account suffix key = ok false
scan_pages (suc pages) host account suffix key = do
  res ← or_err (host.scan account suffix key) std
  if any_match res.attributes suffix then ok true else elim (non_empty res.next_key) [
    | some next ↦ scan_pages pages host account suffix next
    | none ↦ ok false
  ]

abbrev attr_scan_max_pages : ℕ
attr_scan_max_pages = 5

-- `None` where the pattern is no wildcard, else the suffix with its `.`
abbrev wildcard_suffix : List ℕ → Option (List ℕ)
wildcard_suffix (star ∷ dot ∷ rest) =
    if star == b'*' && dot == b'.' then some (dot ∷ rest) else none
wildcard_suffix _ = none

account_has_required_attribute : Host → ℕ → List ℕ → Result Bool
unfolding scan_pages any_match
account_has_required_attribute host account required = elim (wildcard_suffix required) [
  | some suffix ↦ scan_pages attr_scan_max_pages host account suffix []
  | none ↦ elim (host.attribute account required) [
    | none ↦ err std
    | some [] ↦ ok false
    | some (_ ∷ _) ↦ ok true
  ]
]

-- every required attribute, in order
unfoldable pub validate_account_attrs : Host → ℕ → List (List ℕ) → Result (Unit {0})
unfolding account_has_required_attribute
validate_account_attrs host account [] = ok tt
validate_account_attrs host account (attr ∷ attrs) = do
  has ← account_has_required_attribute host account attr
  ensure has not_authorized
  validate_account_attrs host account attrs

single_coin_lem :
    (funds : List Coin) (name least amount : ℕ)
    → (single_coin funds name least ≡ ok amount)
      ↔ ((funds ≡ record { denom = name; amount = amount } ∷ []) × (least ≤ amount))
unfolding single_coin
single_coin_lem [] name least amount = ground arith
single_coin_lem (coin ∷ []) name least amount = ground arith
single_coin_lem (coin ∷ coin' ∷ coins) name least amount = ground arith

-- The check of the funds returns an amount exactly when that amount of the lending denom is the one coin
-- sent and is at least the minimum.
pub single_coin_iff :
    (info : MessageInfo) (d : Denom) (least amount : ℕ)
    → (validate_single_coin_denom info d least ≡ ok amount)
      ↔ ((info.funds ≡ record { denom = d.name; amount = amount } ∷ []) × (least ≤ amount))
unfolding validate_single_coin_denom
single_coin_iff info d least amount = single_coin_lem info.funds d.name least amount
