-- ===== src/Contracts/TokenTimelock/Clawback.antt =====
-- What a clawback pays to whom.
use fei_protocol_core.Prelude.{
  ℕ, ◌-◌, ◌*◌, ◌/◌, ◌≤◌, ◌<◌, ◌≡◌, ◌≢◌, refl, true, [], ◌∷◌, arith, inl, inr, leb, ◌==◌,
  if◌then◌else◌, Bool-cases, ok,
}
use fei_protocol_core.Contracts.Evm.{uint256_mod, Call}
use fei_protocol_core.Contracts.CoreRef.{Context}
use fei_protocol_core.Contracts.TokenTimelock.{Timelock, send, pay_beneficiary, clawback}
use fei_protocol_core.Contracts.TokenTimelock.Schedule.{elapsed_at, received}
use fei_protocol_core.Contracts.TokenTimelock.Max.{
  mul_mono, share_le, elapsed-le-duration, time_since_start_ok, check_balance_ok, available_ok,
}

-- What the schedule gives of all tokens received.
abbrev pub scheduled : Context → Timelock → ℕ
scheduled c s = received s * elapsed_at c s / s.duration

-- Where the token's transfers to others of at most the balance take the amount from it, and neither
-- the beneficiary nor the admin is the timelock itself: the clawback admin of a timelock that has
-- started, whose duration is not 0, which holds at least what it held at its last check and at most
-- what it received, whose received tokens times the duration fit in 256 bits, and from which no more
-- was released than the schedule allows, can claw back. Once the cliff has passed, the beneficiary is
-- paid what the schedule gives beyond what was released, and the admin all that the schedule does
-- not give; before, the admin is paid all that is there. Nothing stays in the timelock, whose
-- beneficiary is as before.
pub clawback_ok :
    (transfer : ℕ → ℕ → ℕ → Call ℕ) (this : ℕ)
    → ((to balance amount : ℕ)
        → to ≢ this
        → amount ≤ balance
        → transfer to balance amount ≡ ok (balance - amount))
    → (c : Context) (s : Timelock) → s.beneficiary ≢ this
    → s.clawback_admin ≢ this
    → c.sender ≡ s.clawback_admin
    → s.start_time ≤ c.block_timestamp
    → 0 < s.duration
    → s.last_balance ≤ s.total_token
    → s.total_token ≤ received s
    → received s * s.duration < uint256_mod
    → received s - s.total_token ≤ scheduled c s
    → (s' : Timelock) × (clawback transfer c s
        ≡ ok (
          s',
          if leb s.cliff_seconds (elapsed_at c s)
              then (s.beneficiary, scheduled c s - (received s - s.total_token))
                ∷ (s.clawback_admin, received s - scheduled c s)
                ∷ []
              else (s.clawback_admin, s.total_token) ∷ [],
        ))
      × (s'.total_token ≡ 0)
      × (s'.beneficiary ≡ s.beneficiary)
unfolding clawback pay_beneficiary send elapsed_at
clawback_ok transfer this pays c s other other' who started positive le some_gone fits behind =
    let counted : Timelock = record s { initial_balance = received s } in
    let whole = received s in
    let share = scheduled c s in
    let amount = share - (whole - s.total_token) in
    let self = mul_mono 1 s.duration whole positive in
    let most = share_le whole (elapsed_at c s) s.duration (elapsed-le-duration c s) positive in
    let is_admin : c.sender == s.clawback_admin ≡ true = ground arith in
    let rest : s.total_token - amount ≡ whole - share = omega (arith, most, some_gone, behind) in
    let no_rest : (n : ℕ) → n - n ≡ 0 = λ n. omega arith in
    let checks = check_balance_ok s le (omega (arith, self, fits)) in
    let time = time_since_start_ok c counted started in
    elim (Bool-cases (leb s.cliff_seconds (elapsed_at c s))) [
      | inl passed ↦ (
        record counted { total_token = 0; last_balance = 0 },
        rw
            (
              is_admin,
              checks,
              time,
              passed,
              available_ok c counted started positive fits some_gone behind,
              pays s.beneficiary s.total_token amount other (omega (arith, most)),
              rest,
              pays s.clawback_admin (whole - share) (whole - share) other' (omega arith),
              no_rest (whole - share),
            )
            refl,
        refl,
        refl,
      )
      | inr before ↦ (
        record counted { total_token = 0; last_balance = 0 },
        rw
            (
              is_admin,
              checks,
              time,
              before,
              pays s.clawback_admin s.total_token s.total_token other' (omega arith),
              no_rest s.total_token,
            )
            refl,
        refl,
        refl,
      )
    ]
