-- ===== src/Notifier/Nakamoto/Laws.antt =====
-- The coefficient is the least number of validators that hold more than a third.
use gemba_blockchain.Base.{
  All, Bool, Bool-cases, List, [], arith, false, if◌then◌else◌, inl, inr, length, ltb, refl, some,
  subst, suc, take, true, zero, ℕ, ◌*◌, ◌+◌, ◌<◌, ◌∷◌, ◌≡◌, ◌≢◌, ◌≤◌, ◌⊎◌,
}
use gemba_blockchain.Notifier.Nakamoto.{
  Validator, bonded_of, total_tokens, coefficient_from, nakamoto,
}

abbrev pub Descending : List Validator → Type 0
Descending [] = Unit
Descending (v ∷ vs) = All (λ w. w.tokens ≤ v.tokens) vs × Descending vs

-- The validators that a mask picks from a list.
unfoldable pub chosen : List Bool → List Validator → List Validator
chosen [] vs = []
chosen (b ∷ bs) [] = []
chosen (b ∷ bs) (v ∷ vs) = let rest = chosen bs vs in if b then v ∷ rest else rest

take-tail_le :
    (k : ℕ) (v : Validator) (vs : List Validator)
    → Descending (v ∷ vs)
    → total_tokens (take k vs) ≤ total_tokens (take k (v ∷ vs))
unfolding total_tokens
take-tail_le zero v vs d = omega arith
take-tail_le (suc k) v [] d = omega arith
take-tail_le (suc k) v (w ∷ ws) ((le, les), d) = omega (arith, le, take-tail_le k w ws d)

chosen_le :
    (bs : List Bool) (vs : List Validator)
    → Descending vs
    → total_tokens (chosen bs vs) ≤ total_tokens (take (length (chosen bs vs)) vs)
unfolding total_tokens chosen
chosen_le [] vs d = omega arith
chosen_le (b ∷ bs) [] d = omega arith
chosen_le (true ∷ bs) (v ∷ vs) d = omega (arith, chosen_le bs vs d.1)
chosen_le (false ∷ bs) (v ∷ vs) d =
    omega (arith, chosen_le bs vs d.1, take-tail_le (length (chosen bs vs)) v vs d)

-- The loop stops at the first prefix above a third.
coefficient_lem :
    (total acc n j : ℕ) (vs : List Validator)
    → n + j < coefficient_from total acc n vs
    → (acc + total_tokens (take j vs)) * 3 ≤ total ⊎ (j ≡ 0)
unfolding coefficient_from total_tokens
coefficient_lem total acc n j [] h = absurd (omega arith)
coefficient_lem total acc n zero (v ∷ vs) h = inr refl
coefficient_lem total acc n (suc zero) (v ∷ vs) h = ground arith
coefficient_lem total acc n (suc (suc j)) (v ∷ vs) h =
    ground (arith, coefficient_lem total (acc + v.tokens) (n + 1) (suc j) vs)

compare_le : (a b : ℕ) → (a ≤ b) ⊎ (b < a)
compare_le a b = ground arith

coefficient_reached :
    (total acc n : ℕ) (vs : List Validator)
    → total < (acc + total_tokens vs) * 3
    → (k : ℕ) × (coefficient_from total acc n vs ≡ n + k)
      × (total < (acc + total_tokens (take k vs)) * 3)
unfolding coefficient_from total_tokens
coefficient_reached total acc n [] h = (0, omega arith, omega arith)
coefficient_reached total acc n (v ∷ vs) h = elim (Bool-cases (ltb total ((acc + v.tokens) * 3))) [
  | inl above ↦ (1, ground (arith, above), ground (arith, above))
  | inr below ↦
      let (k, e, p) = coefficient_reached total (acc + v.tokens) (n + 1) vs (omega arith) in
      (suc k, ground (arith, below, e), omega (arith, p))
]

-- Documented of `sort` with this comparison: the same validators, the larger stake first.
pub record IsSort (sort : List Validator → List Validator) : Type 0 where
  pub descending : (vs : List Validator) → Descending (sort vs)
  pub same_total : (vs : List Validator) → total_tokens (sort vs) ≡ total_tokens vs

-- The coefficient is the least number of bonded validators that can halt the chain: so many of them
-- hold more than a third of the bonded stake, and every choice of them that does has at least so
-- many, if the sort orders by stake and keeps the total.
pub nakamoto-least :
    (sort : List Validator → List Validator) (vals : List Validator) (n : ℕ) (bs : List Bool)
    → IsSort sort
    → nakamoto sort vals ≡ some n
    → total_tokens (bonded_of vals) < total_tokens (chosen bs (sort (bonded_of vals))) * 3
    → (total_tokens (bonded_of vals) < total_tokens (take n (sort (bonded_of vals))) * 3)
      × (n ≤ length (chosen bs (sort (bonded_of vals))))
unfolding nakamoto total_tokens
nakamoto-least sort vals n bs s e h =
    let vs = sort (bonded_of vals) in
    let total = total_tokens (bonded_of vals) in
    let is_n : (total ≢ 0) × (coefficient_from total 0 0 vs ≡ n) = (ground arith, ground arith) in
    let (k, q, p) =
      coefficient_reached total 0 0 vs (omega (arith, s.same_total (bonded_of vals), is_n.0)) in
    let k_is_n : k ≡ n = omega (arith, q, is_n.1) in
    let m = length (chosen bs vs) in
    (
      subst (λ i. total < total_tokens (take i vs) * 3) k_is_n (omega (arith, p)),
      below m (chosen_le bs vs (s.descending (bonded_of vals))) is_n.1,
    )
  where
    below :
        (m : ℕ)
        → total_tokens (chosen bs (sort (bonded_of vals)))
          ≤ total_tokens (take m (sort (bonded_of vals)))
        → coefficient_from (total_tokens (bonded_of vals)) 0 0 (sort (bonded_of vals)) ≡ n
        → n ≤ m
    below zero c q = absurd (omega (arith, c, h))
    below (suc m) c q = elim (compare_le n (suc m)) [
      | inl le ↦ le
      | inr gt ↦
          elim (coefficient_lem (total_tokens (bonded_of vals)) 0 0 (suc m) (sort (bonded_of vals))
            (omega (arith, q, gt))) [
              | inl small ↦ absurd (omega (arith, small, c, h))
              | inr nil ↦ absurd (omega (arith, nil))
            ]
    ]
