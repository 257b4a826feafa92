-- ===== src/Contracts/TribalChief/Staking/Supply.antt =====
-- What the users' virtual amounts add up to, beside their deposits and the pool's virtual supply.
use fei_protocol_core.Prelude.{
  ℕ, zero, suc, ◌+◌, ◌*◌, ◌/◌, ◌≤◌, ◌<◌, ◌≡◌, ◌≢◌, refl, ap, Option, none, some, List, [], ◌∷◌, inl,
  inr, arith, ◌==◌, get_elem?, Bool-cases,
}
use fei_protocol_core.Contracts.TribalChief.Storage.{PoolInfo, Chief}
use fei_protocol_core.Contracts.TribalChief.Allocation.{KeepsPoints}
use fei_protocol_core.Contracts.TribalChief.Staking.{DepositInfo, Staking}

-- The sum of a table's values below `n`.
unfoldable pub total : ℕ → (ℕ → ℕ) → ℕ
total zero f = 0
total (suc n) f = total n f + f n

pub le-total : (n u : ℕ) (f : ℕ → ℕ) → u < n → f u ≤ total n f
unfolding total
le-total zero u f h = absurd (omega arith)
le-total (suc n) u f h = elim (Bool-cases (u == n)) [
  | inl last ↦ let e : u ≡ n = ground arith in rw e (omega arith)
  | inr before ↦ omega (arith, le-total n u f (ground arith))
]

pub total_mono : (n k : ℕ) (f : ℕ → ℕ) → n ≤ k → total n f ≤ total k f
unfolding total
total_mono n zero f h = let none : n ≡ zero = omega arith in rw none (omega arith)
total_mono n (suc k) f h = elim (Bool-cases (n == suc k)) [
  | inl same ↦ let e : n ≡ suc k = ground arith in rw e (omega arith)
  | inr less ↦ omega (arith, total_mono n k f (ground arith))
]

pub total-same : (n : ℕ) (f g : ℕ → ℕ) → ((v : ℕ) → v < n → g v ≡ f v) → total n g ≡ total n f
unfolding total
total-same zero f g h = refl
total-same (suc n) f g h =
    omega (arith, total-same n f g (λ v less. h v (omega arith)), h n (omega arith))

-- One value of a table is changed.
pub total-change :
    (n u : ℕ) (f g : ℕ → ℕ)
    → u < n
    → ((v : ℕ) → v ≢ u → g v ≡ f v)
    → total n g + f u ≡ total n f + g u
unfolding total
total-change zero u f g h same = absurd (omega arith)
total-change (suc n) u f g h same = elim (Bool-cases (u == n)) [
  | inl last ↦
      let e : u ≡ n = ground arith in
      rw e (omega (arith, total-same n f g (λ v less. same v (λ q. absurd (omega arith)))))
  | inr before ↦
      omega (arith, total-change n u f g (ground arith) same, same n (λ q. absurd (ground arith)))
]

-- What deposits count for: `(amount * multiplier) / SCALE_FACTOR`, summed.
unfoldable pub value : ℕ → List DepositInfo → ℕ
value scale [] = 0
value scale (d ∷ ds) = d.amount * d.multiplier / scale + value scale ds

abbrev pub supply_in : Option PoolInfo → ℕ
supply_in none = 0
supply_in (some p) = p.virtual_total_supply

-- The virtual supply of a pool; a pool that is not there has none.
abbrev pub supply_of : Chief → ℕ → ℕ
supply_of s pid = supply_in (get_elem? s.pool_info pid)

abbrev pub virtual_of : Staking → ℕ → ℕ → ℕ
virtual_of s pid who = (s.user_info pid who).virtual_amount

-- The virtual amount of every user covers the deposits, and the virtual supply of a pool the virtual
-- amounts of all users.
pub record IsBacked (s : Staking) : Type 0 where
  pub scaled : 1 ≤ s.chief.scale_factor
  pub covers :
      (pid who : ℕ) → value s.chief.scale_factor (s.deposit_info pid who) ≤ virtual_of s pid who
  pub supplies : (pid n : ℕ) → total n (virtual_of s pid) ≤ supply_of s.chief pid

-- What one action does to the virtual amounts, at most one user's of one pool, and that it leaves the
-- allocation points alone.
pub record Moves (pid who gained lost : ℕ) (s s' : Staking) : Type 0 where
  pub scale : s'.chief.scale_factor ≡ s.chief.scale_factor
  pub allotment : KeepsPoints s.chief s'.chief
  pub supply : supply_of s'.chief pid + lost ≡ supply_of s.chief pid + gained
  pub virtual : virtual_of s' pid who + lost ≤ virtual_of s pid who + gained
  pub deposits : value s.chief.scale_factor (s'.deposit_info pid who) ≤ virtual_of s' pid who
  pub other_pools : (p : ℕ) → p ≢ pid → supply_of s'.chief p ≡ supply_of s.chief p
  pub pools_apart :
      (p u : ℕ)
      → p ≢ pid
      → (s'.user_info p u ≡ s.user_info p u) × (s'.deposit_info p u ≡ s.deposit_info p u)
  pub users_apart :
      (u : ℕ)
      → u ≢ who
      → (s'.user_info pid u ≡ s.user_info pid u) × (s'.deposit_info pid u ≡ s.deposit_info pid u)

module _ (pid who gained lost : ℕ) (s s' : Staking) (m : Moves pid who gained lost s s')
    (h : IsBacked s) where
  moved-covers : (p u : ℕ) → value s'.chief.scale_factor (s'.deposit_info p u) ≤ virtual_of s' p u
  moved-covers p u = elim (Bool-cases (p == pid)) [
    | inl here ↦
        let at_p : p ≡ pid = ground arith in
        elim (Bool-cases (u == who)) [
          | inl self ↦ let at_u : u ≡ who = ground arith in rw (at_p, at_u, m.scale) m.deposits
          | inr other ↦
              let (a, b) = m.users_apart u (ground arith) in
              rw (at_p, m.scale, a, b) (h.covers pid u)
        ]
    | inr away ↦ let (a, b) = m.pools_apart p u (ground arith) in rw (m.scale, a, b) (h.covers p u)
  ]

  moved-supply : (n : ℕ) → total n (virtual_of s' pid) ≤ supply_of s'.chief pid
  moved-supply n =
      let k = n + suc who in
      omega (
        arith,
        total-change k who (virtual_of s pid) (virtual_of s' pid) (omega arith)
            (λ u apart. let (a, b) = m.users_apart u apart in ap (λ x. x.virtual_amount) a),
        total_mono n k (virtual_of s' pid) (omega arith),
        h.supplies pid k,
        m.supply,
        m.virtual,
      )

  moved-supplies : (p n : ℕ) → total n (virtual_of s' p) ≤ supply_of s'.chief p
  moved-supplies p n = elim (Bool-cases (p == pid)) [
    | inl here ↦ let at_p : p ≡ pid = ground arith in rw at_p (moved-supply n)
    | inr away ↦
        let same = total-same n (virtual_of s p) (virtual_of s' p) (λ u less.
          let (a, b) = m.pools_apart p u (ground arith) in ap (λ x. x.virtual_amount) a) in
        rw (same, m.other_pools p (ground arith)) (h.supplies p n)
  ]

  pub Moves-IsBacked : IsBacked s'
  Moves-IsBacked = record {
    scaled = rw m.scale h.scaled;
    covers = moved-covers;
    supplies = moved-supplies;
  }
