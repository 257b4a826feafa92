-- ===== src/Contracts/TribalChief/Staking/Stores.antt =====
-- What a write of a user's data and of the pool's supply does to the virtual amounts.
use fei_protocol_core.Prelude.{
  ℕ, ℤ, ◌+◌, ◌≤◌, ◌≡◌, ◌≢◌, refl, sym, ◌∙◌, ap, some, List, inl, inr, arith, ◌==◌, get_elem?,
  Bool-cases, ok, set as write, get_elem?-set_self, get_elem?-set_ne, lt-length_of_get_elem?,
}
use fei_protocol_core.Contracts.CoreRef.{Context}
use fei_protocol_core.Contracts.TribalChief.Storage.{PoolInfo, Chief}
use fei_protocol_core.Contracts.TribalChief.Admin.{update_pool}
use fei_protocol_core.Contracts.TribalChief.Allocation.{
  Updated, unchanged, accrues, update_pool-Updated, KeepsPoints, Updated-KeepsPoints,
  allocated-write_same,
}
use fei_protocol_core.Contracts.TribalChief.Staking.{
  UserInfo, DepositInfo, Staking, write_at, store,
}
use fei_protocol_core.Contracts.TribalChief.Staking.Supply.{
  value, supply_in, supply_of, virtual_of, Moves,
}

-- A change of the contract that leaves the pools' virtual supplies alone.
pub record KeepsSupply (s s' : Chief) : Type 0 where
  pub scale : s'.scale_factor ≡ s.scale_factor
  pub supply : (p : ℕ) → supply_of s' p ≡ supply_of s p

pub supply_in-write :
    (ps : List PoolInfo) (i p : ℕ) (pool q : PoolInfo)
    → get_elem? ps i ≡ some pool
    → q.virtual_total_supply ≡ pool.virtual_total_supply
    → supply_in (get_elem? (write ps i q) p) ≡ supply_in (get_elem? ps p)
supply_in-write ps i p pool q found same = elim (Bool-cases (i == p)) [
  | inl here ↦
      let e : i ≡ p = ground arith in
      let there = get_elem?-set_self ps i q (lt-length_of_get_elem? ps i found) in
      rw (← e, there, found) same
  | inr away ↦ ap supply_in (get_elem?-set_ne ps i p q (ground arith))
]

pub Updated-KeepsSupply :
    (c : Context) (pid : ℕ) (s s' : Chief) → Updated c pid s s' → KeepsSupply s s'
Updated-KeepsSupply c pid s s' (unchanged same) =
    rw same (record { scale = refl; supply = λ p. refl })
Updated-KeepsSupply c pid s s' (accrues pool acc last found same) =
    rw same
      (record { scale = refl; supply = λ p. supply_in-write s.pool_info pid p pool _ found refl })

pub update_pool-KeepsSupply :
    (c : Context) (pid : ℕ) (s s' : Chief) → update_pool c pid s ≡ ok s' → KeepsSupply s s'
update_pool-KeepsSupply c pid s s' e =
    Updated-KeepsSupply c pid s s' (update_pool-Updated c pid s s' e)

-- A change that leaves alone both what the pools count and how the rewards are allotted.
pub record KeepsPools (s s' : Chief) : Type 0 where
  pub kept : KeepsSupply s s'
  pub allotment : KeepsPoints s s'

pub update_pool-KeepsPools :
    (c : Context) (pid : ℕ) (s s' : Chief) → update_pool c pid s ≡ ok s' → KeepsPools s s'
update_pool-KeepsPools c pid s s' e =
    let updated = update_pool-Updated c pid s s' e in
    record {
      kept = Updated-KeepsSupply c pid s s' updated;
      allotment = Updated-KeepsPoints c pid s s' updated;
    }

module _ {ℓ} {A : Type ℓ} (pid who : ℕ) (x : A) (table : ℕ → ℕ → A) where
  write_at_self : write_at pid who x table pid who ≡ x
  write_at_self = ground arith

  write_at_other_pool : (p u : ℕ) → p ≢ pid → write_at pid who x table p u ≡ table p u
  write_at_other_pool p u h = ground arith

  write_at_other_user : (u : ℕ) → u ≢ who → write_at pid who x table pid u ≡ table pid u
  write_at_other_user u h = ground arith

module _ (pid who gained lost supply : ℕ) (s : Staking) (chief : Chief) (pool : PoolInfo)
    (user : UserInfo) (deposits : List DepositInfo) (kp : KeepsPools s.chief chief)
    (found : get_elem? chief.pool_info pid ≡ some pool)
    (balance : supply + lost ≡ pool.virtual_total_supply + gained)
    (virtual : user.virtual_amount + lost ≤ virtual_of s pid who + gained)
    (covered : value s.chief.scale_factor deposits ≤ user.virtual_amount) where
  pub store-Moves : Moves pid who gained lost s (store pid who chief pool supply user deposits s)
  store-Moves =
      let k = kp.kept in
      let points =
        allocated-write_same chief.pool_info pid pool
          (record pool { virtual_total_supply = supply }) found refl in
      let q = record pool { virtual_total_supply = supply } in
      let here =
        get_elem?-set_self chief.pool_info pid q
          (lt-length_of_get_elem? chief.pool_info pid found) in
      let before = k.supply pid in
      let user_is : (write_at pid who user s.user_info pid who).virtual_amount
          ≡ user.virtual_amount =
        ap (λ x. x.virtual_amount) (write_at_self pid who user s.user_info) in
      let deposits_are = write_at_self pid who deposits s.deposit_info in
      let same_supply : supply_of s.chief pid ≡ pool.virtual_total_supply =
        sym before ∙ ap supply_in found in
      record {
        scale = k.scale;
        allotment = record { points = points ∙ kp.allotment.points; total = kp.allotment.total };
        supply = rw (here, same_supply) balance;
        virtual = omega (arith, virtual, user_is);
        deposits = omega (arith, covered, user_is, ap (value s.chief.scale_factor) deposits_are);
        other_pools = λ p apart.
            ap supply_in (get_elem?-set_ne chief.pool_info pid p q (λ e. apart (sym e)))
            ∙ k.supply p;
        pools_apart = λ p u apart. (
          write_at_other_pool pid who user s.user_info p u apart,
          write_at_other_pool pid who deposits s.deposit_info p u apart,
        );
        users_apart = λ u apart. (
          write_at_other_user pid who user s.user_info u apart,
          write_at_other_user pid who deposits s.deposit_info u apart,
        );
      }

module _ (pid who : ℕ) (debt : ℤ) (s : Staking) (chief : Chief) (kp : KeepsPools s.chief chief)
    (covered : value s.chief.scale_factor (s.deposit_info pid who) ≤ virtual_of s pid who) where
  -- Only the user's reward debt is written.
  pub debt-Moves : Moves pid who 0 0 s (record s {
    chief = chief;
    user_info = write_at pid who (record (s.user_info pid who) { reward_debt = debt }) s.user_info;
  })
  debt-Moves =
      let k = kp.kept in
      let user = record (s.user_info pid who) { reward_debt = debt } in
      let user_is : (write_at pid who user s.user_info pid who).virtual_amount
          ≡ virtual_of s pid who =
        ap (λ x. x.virtual_amount) (write_at_self pid who user s.user_info) in
      record {
        scale = k.scale;
        allotment = kp.allotment;
        supply = omega (arith, k.supply pid);
        virtual = omega (arith, user_is);
        deposits = omega (arith, covered, user_is);
        other_pools = λ p apart. k.supply p;
        pools_apart = λ p u apart. (write_at_other_pool pid who user s.user_info p u apart, refl);
        users_apart = λ u apart. (write_at_other_user pid who user s.user_info u apart, refl);
      }
