-- ===== src/Scripts/ProposalCalldata/Payloads.antt =====
-- What the payloads of a proposal consist of.
use fei_protocol_core.Prelude.{
  ℕ, zero, suc, ◌≤◌, String, ◌≡◌, refl, ap, ap₂, ◌∙◌, List, [], ◌∷◌, ◌++◌, map, arith, length, All,
  ok,
}
use fei_protocol_core.Scripts.Libraries.{Hex, codes, take, drop, Libraries}
use fei_protocol_core.Scripts.ProposalCalldata.{combine, combined_calldatas}

-- A text that begins with '0x'.
abbrev pub HasPrefix : Hex → Type 0
HasPrefix h = codes "0x" ++ drop 2 h ≡ h

take-append : (n : ℕ) (h k : Hex) → n ≤ length h → take n (take n h ++ k) ≡ take n h
take-append zero h k e = refl
take-append (suc n) [] k e = elim e [ ]
take-append (suc n) (c ∷ h) k e = rw (take-append n h k (omega arith))

drop-append : (n : ℕ) (h k : Hex) → n ≤ length h → drop n (take n h ++ k) ≡ k
drop-append zero h k e = refl
drop-append (suc n) [] k e = elim e [ ]
drop-append (suc n) (c ∷ h) k e = drop-append n h k (omega arith)

combine_parts :
    (L : Libraries) (s : String) (c : Hex)
    → 10 ≤ length (L.id s)
    → HasPrefix c
    → (take 10 (combine L s c) ≡ take 10 (L.id s)) × (codes "0x" ++ drop 10 (combine L s c) ≡ c)
unfolding combine
combine_parts L s c long prefixed = (
  take-append 10 (L.id s) (drop 2 c) long,
  ap (λ (rest : Hex). codes "0x" ++ rest) (drop-append 10 (L.id s) (drop 2 c) long) ∙ prefixed,
)

-- Where an identifier has at least ten characters and every encoded list of arguments begins with
-- '0x': the payloads of as many actions as there are signatures and encoded lists of arguments can be
-- combined; the first ten characters of each payload are then the selector of its signature, and
-- '0x' before the others is its list of arguments.
pub combined_calldatas_parts :
    (L : Libraries) (targets : List ℕ) (signatures : List String) (calldatas : List Hex)
    → ((s : String) → 10 ≤ length (L.id s))
    → All HasPrefix calldatas
    → length signatures ≡ length targets
    → length calldatas ≡ length targets
    → (payloads : List Hex) × (combined_calldatas L targets signatures calldatas ≡ ok payloads)
      × (map (take 10) payloads ≡ map (λ s. take 10 (L.id s)) signatures)
      × (map (λ p. codes "0x" ++ drop 10 p) payloads ≡ calldatas)
unfolding combined_calldatas
combined_calldatas_parts L [] [] [] long prefixed ls lc = ([], refl, refl, refl)
combined_calldatas_parts L [] (s ∷ signatures) calldatas long prefixed ls lc = absurd (omega arith)
combined_calldatas_parts L [] [] (c ∷ calldatas) long prefixed ls lc = absurd (omega arith)
combined_calldatas_parts L (t ∷ targets) [] calldatas long prefixed ls lc = absurd (omega arith)
combined_calldatas_parts L (t ∷ targets) (s ∷ signatures) [] long prefixed ls lc =
    absurd (omega arith)
combined_calldatas_parts L (t ∷ targets) (s ∷ signatures) (c ∷ calldatas) long prefixed ls lc =
    let (rest, later, heads, tails) =
      combined_calldatas_parts L targets signatures calldatas long prefixed.1 (omega arith)
        (omega arith) in
    let (head, tail) = combine_parts L s c (long s) prefixed.0 in
    (
      combine L s c ∷ rest,
      rw later,
      ap₂ (λ x xs. x ∷ xs) head heads,
      ap₂ (λ x xs. x ∷ xs) tail tails,
    )
