-- ===== src/U128.antt =====
-- The methods of Rust's `u128` that the contracts call.
pub mod Laws
use democratized_prime_smart.Prelude.{
  Option, if◌then◌else◌, leb, ltb, min, none, some, ℕ, ◌+◌, ◌-◌, ◌^◌,
}

abbrev pub checked_add : ℕ → ℕ → Option ℕ
checked_add a b = if ltb (a + b) (2 ^ 128) then some (a + b) else none

abbrev pub checked_sub : ℕ → ℕ → Option ℕ
checked_sub a b = if leb b a then some (a - b) else none

abbrev pub saturating_add : ℕ → ℕ → ℕ
saturating_add a b = min (a + b) (2 ^ 128 - 1)
