-- ===== src/Prelude/Maps.antt =====
-- JavaScript objects used as dictionaries, `{ [key: string]: V }`, as association lists in the
-- order of insertion; and updates of a Solidity mapping, which is a function.
use Prim.Native.String.{String}
use mathlib.Core.Path.{◌≡◌, refl}
use mathlib.Core.Bool.{Bool, true, false, ◌&&◌, ◌||◌, not}
use mathlib.Core.Option.{Option, none, some}
use mathlib.Core.List.{List, [], ◌∷◌}
use native.Mathlib.Omega.{arith}
use text.Mathlib.Text.{◌==◌ as str_eq}
use text.Mathlib.TextEquality.{eq_iff}
use fei_protocol_core.Prelude.Tests.{if◌then◌else◌}

abbrev pub Dict {ℓ} : Type ℓ → Type ℓ
Dict V = List (String × V)

abbrev pub text_eq : String → String → Bool
text_eq = str_eq

module _ {ℓ} {V : Type ℓ} where
  -- `d[k]`, `none` for `undefined`
  unfoldable pub lookup : String → Dict V → Option V
  lookup k [] = none
  lookup k ((j, v) ∷ d) = if text_eq j k then some v else lookup k d

  -- `d[k] = v`
  unfoldable pub insert : String → V → Dict V → Dict V
  insert k v [] = (k, v) ∷ []
  insert k v ((j, w) ∷ d) = if text_eq j k then (k, v) ∷ d else (j, w) ∷ insert k v d

  pub lookup-insert :
      (k j : String) (v : V) (d : Dict V)
      → lookup j (insert k v d) ≡ (if text_eq k j then some v else lookup j d)
  unfolding lookup insert
  lookup-insert k j v [] = refl
  lookup-insert k j v ((i, w) ∷ d) =
      ground (arith, eq_iff k j, eq_iff i k, eq_iff i j, lookup-insert k j v d)

  -- `Object.keys`
  abbrev pub keys : Dict V → List String
  keys [] = []
  keys ((k, v) ∷ d) = k ∷ keys d

-- The loop `for (const k in d) built[k] = f(d[k])`.
unfoldable pub insert_all {ℓ κ} : {A : Type ℓ} {V : Type κ} → (A → V) → Dict A → Dict V → Dict V
insert_all f [] built = built
insert_all f ((k, a) ∷ d) built = insert_all f d (insert k (f a) built)

-- `s in list`
unfoldable pub contains : String → List String → Bool
contains k [] = false
contains k (j ∷ l) = text_eq j k || contains k l

-- No key is listed twice.
unfoldable pub distinct : List String → Bool
distinct [] = true
distinct (k ∷ l) = not (contains k l) && distinct l

module _ {ℓ} {V : Type ℓ} where
  pub lookup-eq-none_of_not-contains :
      (k : String) (d : Dict V) → contains k (keys d) ≡ false → lookup k d ≡ none
  unfolding lookup contains
  lookup-eq-none_of_not-contains k [] h = refl
  lookup-eq-none_of_not-contains k ((j, v) ∷ d) h =
      ground (arith, lookup-eq-none_of_not-contains k d)

-- The loop copies every entry, if no key stands twice; other keys keep their values.
pub lookup-insert_all {ℓ κ} :
    {A : Type ℓ} {V : Type κ} (f : A → V) (k : String) (d : Dict A) (built : Dict V)
    → distinct (keys d) ≡ true
    → lookup k (insert_all f d built)
      ≡ elim (lookup k d) [ none ↦ lookup k built | some a ↦ some (f a) ]
unfolding insert_all distinct lookup
lookup-insert_all f k [] built h = refl
lookup-insert_all f k ((j, a) ∷ d) built h = ground (
  arith,
  eq_iff j k,
  lookup-insert j k (f a) built,
  lookup-eq-none_of_not-contains j d,
  lookup-insert_all f k d (insert j (f a) built),
)

-- An entry that is written adds at most its own key.
module _ {ℓ} {V : Type ℓ} where
  contains-keys-insert :
      (k j : String) (v : V) (d : Dict V)
      → contains j (keys (insert k v d)) ≡ (text_eq k j || contains j (keys d))
  unfolding insert contains
  contains-keys-insert k j v [] = refl
  contains-keys-insert k j v ((i, w) ∷ d) =
      ground (arith, eq_iff k j, eq_iff i k, eq_iff i j, contains-keys-insert k j v d)

  pub distinct-insert :
      (k : String) (v : V) (d : Dict V)
      → distinct (keys d) ≡ true
      → distinct (keys (insert k v d)) ≡ true
  unfolding insert distinct contains
  distinct-insert k v [] h = refl
  distinct-insert k v ((i, w) ∷ d) h =
      ground (arith, eq_iff i k, eq_iff k i, contains-keys-insert k i v d, distinct-insert k v d)

pub distinct-insert_all {ℓ κ} :
    {A : Type ℓ} {V : Type κ} (f : A → V) (d : Dict A) (built : Dict V)
    → distinct (keys built) ≡ true
    → distinct (keys (insert_all f d built)) ≡ true
unfolding insert_all
distinct-insert_all f [] built h = h
distinct-insert_all f ((k, a) ∷ d) built h =
    distinct-insert_all f d (insert k (f a) built) (distinct-insert k (f a) built h)
