-- ===== src/U128/Laws.antt =====
-- What the checked operations on `u128` return.
use democratized_prime_smart.U128
use democratized_prime_smart.Cosmwasm.{u128_size}
use democratized_prime_smart.Prelude.{arith, some, ℕ, ◌+◌, ◌<◌, ◌≡◌}

pub u128_add_eq : (a b : ℕ) {x : ℕ} → U128.checked_add a b ≡ some x → (x ≡ a + b) × (x < u128_size)
u128_add_eq a b h = ground arith

pub u128_sub_eq : (a b : ℕ) {x : ℕ} → U128.checked_sub a b ≡ some x → x + b ≡ a
u128_sub_eq a b h = ground arith
