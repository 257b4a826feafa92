-- ===== src/Contracts/TribalChief/Totals.antt =====
-- The total of the allocation points, and the points of single pools.
use fei_protocol_core.Prelude.{
  ℕ, zero, suc, ◌+◌, ◌≤◌, ◌≡◌, ◌≢◌, refl, sym, ◌∙◌, List, [], ◌∷◌, some, arith, get_elem?, length,
  get_elem?-set_ne, set as write,
}
use fei_protocol_core.Contracts.TribalChief.{PoolInfo}
use fei_protocol_core.Contracts.TribalChief.Allocation.{
  allocated, allocated-write, alloc-le-allocated,
}
use fei_protocol_core.Contracts.TribalChief.Sets.{points_in}

pub two_allocs :
    (ps : List PoolInfo) (i j : ℕ) {p q : PoolInfo}
    → get_elem? ps i ≡ some p
    → get_elem? ps j ≡ some q
    → i ≢ j
    → p.alloc_point + q.alloc_point ≤ allocated ps
two_allocs ps i j {p} {q} here there apart =
    let cleared = record q { alloc_point = 0 } in
    let kept = get_elem?-set_ne ps j i cleared (λ e. apart (sym e)) ∙ here in
    omega
      (arith, allocated-write ps j q cleared there, alloc-le-allocated (write ps j cleared) i kept)

allocated-eq-zero :
    (ps : List PoolInfo) → ((i : ℕ) → points_in (get_elem? ps i) ≡ 0) → allocated ps ≡ 0
unfolding allocated
allocated-eq-zero [] h = refl
allocated-eq-zero (p ∷ ps) h = omega (arith, h 0, allocated-eq-zero ps (λ i. h (suc i)))

-- Where no later pool has points, the first pool has them all.
pub allocated-eq-first :
    (ps : List PoolInfo)
    → ((i : ℕ) → points_in (get_elem? ps (suc i)) ≡ 0)
    → allocated ps ≡ points_in (get_elem? ps 0)
unfolding allocated
allocated-eq-first [] h = refl
allocated-eq-first (p ∷ ps) h = omega (arith, allocated-eq-zero ps h)

pub points_past : (ps : List PoolInfo) (i : ℕ) → length ps ≤ i → points_in (get_elem? ps i) ≡ 0
points_past [] i h = refl
points_past (p ∷ ps) zero h = absurd (omega arith)
points_past (p ∷ ps) (suc i) h = points_past ps i (omega arith)
