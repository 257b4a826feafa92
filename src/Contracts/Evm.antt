-- ===== src/Contracts/Evm.antt =====
-- Checked arithmetic of Solidity 0.8 on `uint256`, and the casts of OpenZeppelin's `SafeCast` as they
-- are documented. A failed check reverts the whole call.
use fei_protocol_core.Prelude.{
  ℤ, pos, negsuc, ◌+ℤ◌, ◌-ℤ◌, Bool, ℕ, ◌+◌, ◌-◌, ◌*◌, ◌/◌, ◌^◌, ◌≤◌, ◌<◌, String, ◌≡◌, none, some,
  List, arith, get_elem?, leb, ltb, ◌==◌, if◌then◌else◌, Result, ok, err,
}

pub data Revert : Type 0 where
  panic : Revert
  reason : String → Revert

abbrev pub Call {ℓ} : Type ℓ → Type ℓ
Call A = Result Revert A

abbrev pub uint256_mod : ℕ
uint256_mod = 2 ^ 256

abbrev pub uint128_mod : ℕ
uint128_mod = 2 ^ 128

-- `a + b`, `a - b`, `a * b` and `a / b`
unfoldable pub add : ℕ → ℕ → Call ℕ
add a b = if ltb (a + b) uint256_mod then ok (a + b) else err panic

unfoldable pub sub : ℕ → ℕ → Call ℕ
sub a b = if leb b a then ok (a - b) else err panic

unfoldable pub mul : ℕ → ℕ → Call ℕ
mul a b = if ltb (a * b) uint256_mod then ok (a * b) else err panic

unfoldable pub div : ℕ → ℕ → Call ℕ
div a b = if b == 0 then err panic else ok (a / b)

-- `x.toUint128()`
unfoldable pub to_uint128 : ℕ → Call ℕ
to_uint128 x =
    if ltb x uint128_mod then ok x else err (reason "SafeCast: value doesn't fit in 128 bits")

-- `int256`: `a + b` and `a - b`, and `x.toInt256()` and `x.toUint256()`
abbrev pub fits_int256 : ℤ → Bool
fits_int256 (pos n) = ltb n (2 ^ 255)
fits_int256 (negsuc n) = ltb n (2 ^ 255)

unfoldable pub add_int256 : ℤ → ℤ → Call ℤ
add_int256 a b = if fits_int256 (a +ℤ b) then ok (a +ℤ b) else err panic

unfoldable pub sub_int256 : ℤ → ℤ → Call ℤ
sub_int256 a b = if fits_int256 (a -ℤ b) then ok (a -ℤ b) else err panic

unfoldable pub to_int256 : ℕ → Call ℤ
to_int256 x =
    if ltb x (2 ^ 255) then ok (pos x) else err (reason "SafeCast: value doesn't fit in an int256")

unfoldable pub to_uint256 : ℤ → Call ℕ
to_uint256 (pos n) = ok n
to_uint256 (negsuc n) = err (reason "SafeCast: value must be positive")

-- `array[i]`
unfoldable pub index {ℓ} : {A : Type ℓ} → List A → ℕ → Call A
index xs i = elim (get_elem? xs i) [ none ↦ err panic | some x ↦ ok x ]

pub add_ok : (a b : ℕ) → a + b < uint256_mod → add a b ≡ ok (a + b)
unfolding add
add_ok a b h = ground arith

pub sub_ok : (a b : ℕ) → b ≤ a → sub a b ≡ ok (a - b)
unfolding sub
sub_ok a b h = ground arith

pub mul_ok : (a b : ℕ) → a * b < uint256_mod → mul a b ≡ ok (a * b)
unfolding mul
mul_ok a b h = ground arith

pub div_ok : (a b : ℕ) → 0 < b → div a b ≡ ok (a / b)
unfolding div
div_ok a b h = ground arith

pub sub-eq-ok : (a b : ℕ) {c : ℕ} → sub a b ≡ ok c → c + b ≡ a
unfolding sub
sub-eq-ok a b e = ground arith

pub add-eq-ok : (a b : ℕ) {c : ℕ} → add a b ≡ ok c → c ≡ a + b
unfolding add
add-eq-ok a b e = ground arith

pub mul-eq-ok : (a b : ℕ) {c : ℕ} → mul a b ≡ ok c → c ≡ a * b
unfolding mul
mul-eq-ok a b e = ground arith

pub index-eq-ok {ℓ} :
    {A : Type ℓ} (xs : List A) (i : ℕ) {x : A} → index xs i ≡ ok x → get_elem? xs i ≡ some x
unfolding index
index-eq-ok xs i e = ground arith

pub index_ok {ℓ} :
    {A : Type ℓ} (xs : List A) (i : ℕ) {x : A} → get_elem? xs i ≡ some x → index xs i ≡ ok x
unfolding index
index_ok xs i e = ground arith
