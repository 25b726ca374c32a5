-- ===== src/Notifier/Nakamoto/Insertion.antt =====
-- A sort by stake that does what `Array.prototype.sort` documents.
use gemba_blockchain.Base.{
  All, Bool-cases, List, [], arith, if◌then◌else◌, inl, inr, ltb, ltb→lt, refl, ℕ, ◌+◌, ◌∷◌, ◌≡◌,
  ◌≤◌,
}
use gemba_blockchain.Notifier.Nakamoto.{Validator, total_tokens}
use gemba_blockchain.Notifier.Nakamoto.Laws.{Descending, IsSort}

unfoldable pub put : Validator → List Validator → List Validator
put v [] = v ∷ []
put v (w ∷ ws) = let rest = put v ws in if ltb v.tokens w.tokens then w ∷ rest else v ∷ (w ∷ ws)

unfoldable pub insertion_sort : List Validator → List Validator
insertion_sort [] = []
insertion_sort (v ∷ vs) = put v (insertion_sort vs)

abbrev AtMost : ℕ → List Validator → Type 0
AtMost n vs = All (λ w. w.tokens ≤ n) vs

AtMost-le : (m n : ℕ) (vs : List Validator) → m ≤ n → AtMost m vs → AtMost n vs
AtMost-le m n [] le h = tt
AtMost-le m n (w ∷ ws) le (p, h) = (omega (arith, p), AtMost-le m n ws le h)

put-AtMost :
    (n : ℕ) (v : Validator) (vs : List Validator) → v.tokens ≤ n → AtMost n vs → AtMost n (put v vs)
unfolding put
put-AtMost n v [] le h = (le, tt)
put-AtMost n v (w ∷ ws) le (p, h) = elim (Bool-cases (ltb v.tokens w.tokens)) [
  | inl smaller ↦ rw smaller (p, put-AtMost n v ws le h)
  | inr not_smaller ↦ rw not_smaller (le, (p, h))
]

put-Descending : (v : Validator) (vs : List Validator) → Descending vs → Descending (put v vs)
unfolding put
put-Descending v [] d = (tt, tt)
put-Descending v (w ∷ ws) (h, d) = elim (Bool-cases (ltb v.tokens w.tokens)) [
  | inl smaller ↦ rw smaller (
    put-AtMost w.tokens v ws (omega (arith, ltb→lt v.tokens w.tokens smaller)) h,
    put-Descending v ws d,
  )
  | inr not_smaller ↦
      let le : w.tokens ≤ v.tokens = ground (arith, not_smaller) in
      rw not_smaller ((le, AtMost-le w.tokens v.tokens ws le h), (h, d))
]

put-total :
    (v : Validator) (vs : List Validator) → total_tokens (put v vs) ≡ v.tokens + total_tokens vs
unfolding put total_tokens
put-total v [] = refl
put-total v (w ∷ ws) = ground (arith, put-total v ws)

sort-Descending : (vs : List Validator) → Descending (insertion_sort vs)
unfolding insertion_sort
sort-Descending [] = tt
sort-Descending (v ∷ vs) = put-Descending v (insertion_sort vs) (sort-Descending vs)

sort-total : (vs : List Validator) → total_tokens (insertion_sort vs) ≡ total_tokens vs
unfolding insertion_sort total_tokens
sort-total [] = refl
sort-total (v ∷ vs) = omega (arith, put-total v (insertion_sort vs), sort-total vs)

pub insertion_sort-IsSort : IsSort insertion_sort
insertion_sort-IsSort = record { descending = sort-Descending; same_total = sort-total }
