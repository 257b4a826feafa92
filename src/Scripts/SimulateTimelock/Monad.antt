-- ===== src/Scripts/SimulateTimelock/Monad.antt =====
-- An asynchronous script over the network's state `S`: it ends with a value or a thrown error, and in
-- both cases what it has done to the network stays done.
use fei_protocol_core.Prelude.{Bool, true, false, Option, none, some, Result, ok, err}
use fei_protocol_core.Scripts.Libraries.{Error}

abbrev pub Action : Type 0 → Type 0 → Type 0
Action S A = S → Result Error A × S

module _ {S A : Type 0} where
  abbrev pub pure : A → Action S A
  pure a s = (ok a, s)

  abbrev pub lift : Result Error A → Action S A
  lift r s = (r, s)

  abbrev pub gets : (S → A) → Action S A
  gets f s = (ok (f s), s)

  abbrev pub or_throw : Option A → Error → Action S A
  or_throw none e s = (err e, s)
  or_throw (some a) e s = (ok a, s)

infixl 5 ◌>>=◌ ◌>>◌
abbrev pub ◌>>=◌ : {S A B : Type 0} → Action S A → (A → Action S B) → Action S B
◌>>=◌ m f s = let (r, s') = m s in elim r [ ok a ↦ f a s' | err e ↦ (err e, s') ]

abbrev pub ◌>>◌ : {S A B : Type 0} → Action S A → Action S B → Action S B
m >> k = m >>= λ _. k

module _ {S : Type 0} where
  abbrev pub modify : (S → S) → Action S (Unit {0})
  modify f s = (ok tt, f s)

  -- a transaction, which reverts or changes the state
  abbrev pub try : (S → Result Error S) → Action S (Unit {0})
  try f s = elim (f s) [ ok s' ↦ (ok tt, s') | err e ↦ (err e, s) ]

  abbrev pub when : Bool → Action S (Unit {0}) → Action S (Unit {0})
  when true m s = m s
  when false m s = (ok tt, s)
