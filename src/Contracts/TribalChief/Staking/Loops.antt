-- ===== src/Contracts/TribalChief/Staking/Loops.antt =====
-- The loops over a user's deposits: what they gather is what the deposits count for.
use fei_protocol_core.Prelude.{
  ℕ, zero, suc, ◌+◌, ◌*◌, ◌/◌, ◌≤◌, ◌≡◌, some, List, [], ◌∷◌, ◌++◌, inl, inr, arith, get_elem?,
  Bool-cases, ok, require, >>=-elim, set as write,
}
use native.Mathlib.Nat.{le-div_iff_mul-le}
use fei_protocol_core.Contracts.Evm.{add, mul, div, add-eq-ok}
use fei_protocol_core.Contracts.CoreRef.{Context}
use fei_protocol_core.Contracts.TribalChief.Storage.{PoolInfo}
use fei_protocol_core.Contracts.TribalChief.Staking.{
  DepositInfo, mul_div, is_unlocked, Gathered, gather, unlock_all,
}
use fei_protocol_core.Contracts.TribalChief.Staking.Supply.{value}

pub mul_div-eq-ok : (x y z : ℕ) {r : ℕ} → mul_div x y z ≡ ok r → (r ≡ x * y / z) × (1 ≤ z)
unfolding mul_div mul div
mul_div-eq-ok x y z e = (ground arith, ground arith)

pub value-append :
    (scale : ℕ) (ds es : List DepositInfo)
    → value scale (ds ++ es) ≡ value scale ds + value scale es
unfolding value
value-append scale [] es = omega arith
value-append scale (d ∷ ds) es = omega (arith, value-append scale ds es)

pub value-one :
    (scale : ℕ) (d : DepositInfo) → value scale (d ∷ []) ≡ d.amount * d.multiplier / scale
unfolding value
value-one scale d = omega arith

pub value-write :
    (scale : ℕ) (ds : List DepositInfo) (i : ℕ) (d e : DepositInfo)
    → get_elem? ds i ≡ some d
    → value scale (write ds i e) + d.amount * d.multiplier / scale
      ≡ value scale ds + e.amount * e.multiplier / scale
unfolding value
value-write scale [] i d e found = absurd (cc)
value-write scale (x ∷ ds) zero d e found = let same : x ≡ d = cc in rw same (omega arith)
value-write scale (x ∷ ds) (suc i) d e found = omega (arith, value-write scale ds i d e found)

div_add_le : (p q k : ℕ) → 1 ≤ k → p / k + q / k ≤ (p + q) / k
div_add_le p q k h =
    let below_p : p / k * k ≤ p = (le-div_iff_mul-le h).0 (omega arith) in
    let below_q : q / k * k ≤ q = (le-div_iff_mul-le h).0 (omega arith) in
    let spread : (p / k + q / k) * k ≡ p / k * k + q / k * k = grind arith in
    (le-div_iff_mul-le h).1 (omega (arith, below_p, below_q, spread))

-- Two parts of a deposit count for no more than the deposit.
pub parts_le : (x rest m k : ℕ) → 1 ≤ k → rest * m / k + x * m / k ≤ (rest + x) * m / k
parts_le x rest m k h =
    let spread : (rest + x) * m ≡ rest * m + x * m = grind arith in
    rw spread (div_add_le (rest * m) (x * m) k h)

value-zero : (k : ℕ) → 1 ≤ k → 0 * 0 / k ≡ 0
value-zero k h = omega arith

pub gather-value :
    (c : Context) (pool : PoolInfo) (scale : ℕ) (ds : List DepositInfo) (g g' : Gathered)
    → 1 ≤ scale
    → gather c pool scale ds g ≡ ok g'
    → value scale g'.deposits + g'.virtual_delta
      ≡ value scale g.deposits + g.virtual_delta + value scale ds
unfolding gather value
gather-value c pool scale [] g g' one e = let same : g ≡ g' = cc in rw same (omega arith)
gather-value c pool scale (d ∷ ds) g g' one e = elim (Bool-cases (is_unlocked c pool d)) [
  | inl open_ ↦ >>=-elim (add g.processed 1) _ (rw open_ at e) (λ processed counts e1.
      >>=-elim (add g.unlocked_total d.amount) _ e1 (λ amount sums e2.
        >>=-elim (mul_div d.amount d.multiplier scale) _ e2 (λ part computes e3.
          >>=-elim (add g.virtual_delta part) _ e3 (λ delta adds e4.
            let cleared : DepositInfo = record { amount = 0; unlock_block = 0; multiplier = 0 } in
            let (part_is, scaled) = mul_div-eq-ok d.amount d.multiplier scale computes in
            omega (
              arith,
              gather-value c pool scale ds _ g' one e4,
              value-append scale g.deposits (cleared ∷ []),
              value-one scale cleared,
              value-zero scale one,
              part_is,
              add-eq-ok g.virtual_delta part adds,
            )))))
  | inr locked ↦ omega (
    arith,
    gather-value c pool scale ds _ g' one (rw locked at e),
    value-append scale g.deposits (d ∷ []),
    value-one scale d,
  )
]

pub unlock_all-value :
    (c : Context) (pool : PoolInfo) (scale : ℕ) (ds : List DepositInfo) (t0 d0 t1 d1 : ℕ)
    → unlock_all c pool scale ds t0 d0 ≡ ok (t1, d1)
    → d1 ≡ d0 + value scale ds
unfolding unlock_all value
unlock_all-value c pool scale [] t0 d0 t1 d1 e = let same : d0 ≡ d1 = cc in omega arith
unlock_all-value c pool scale (d ∷ ds) t0 d0 t1 d1 e =
    >>=-elim (require (is_unlocked c pool d) _) _ e (λ u open_ e1.
      >>=-elim (add t0 d.amount) _ e1 (λ amount sums e2.
        >>=-elim (mul_div d.amount d.multiplier scale) _ e2 (λ part computes e3.
          >>=-elim (add d0 part) _ e3 (λ delta adds e4.
            let (part_is, scaled) = mul_div-eq-ok d.amount d.multiplier scale computes in
            omega (
              arith,
              unlock_all-value c pool scale ds amount delta t1 d1 e4,
              part_is,
              add-eq-ok d0 part adds,
            )))))
