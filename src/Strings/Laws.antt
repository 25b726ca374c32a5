-- ===== src/Strings/Laws.antt =====
-- Splitting, breaking and trimming.
use gemba_blockchain.Base.{
  All, Bool-cases, List, Option-cases, Text, [], ap, arith, eqb, false, inl, inr, refl, some, ℕ,
  ◌++◌, ◌∙◌, ◌∷◌, ◌≡◌, ◌≢◌,
}
use gemba_blockchain.Strings.{is_space, trim_start, trim_end, trim, split, break_at, join}

abbrev pub Lacks : ℕ → Text → Type 0
Lacks sep s = All (λ c. c ≢ sep) s

abbrev pub IsSpaceless : Text → Type 0
IsSpaceless s = All (λ c. is_space c ≡ false) s

pub split_of_Lacks : (sep : ℕ) (s : Text) → Lacks sep s → split sep s ≡ s ∷ []
unfolding split
split_of_Lacks sep [] h = refl
split_of_Lacks sep (c ∷ s) h = ground (arith, split_of_Lacks sep s h.1)

pub split-append : (sep : ℕ) (s t : Text) → Lacks sep s → split sep (s ++ sep ∷ t) ≡ s ∷ split sep t
unfolding split
split-append sep [] t h = ground arith
split-append sep (c ∷ s) t h = ground (arith, split-append sep s t h.1)

-- Splitting undoes joining, for parts that do not hold the separator.
pub split-join :
    (sep : ℕ) (p : Text) (ps : List Text)
    → All (Lacks sep) (p ∷ ps)
    → split sep (join sep (p ∷ ps)) ≡ p ∷ ps
unfolding join
split-join sep p [] h = split_of_Lacks sep p h.0
split-join sep p (q ∷ qs) h =
    split-append sep p (join sep (q ∷ qs)) h.0 ∙ ap (λ r. p ∷ r) (split-join sep q qs h.1)

pub break_at-append :
    (sep : ℕ) (s t : Text) → Lacks sep s → break_at sep (s ++ sep ∷ t) ≡ some (s, t)
unfolding break_at
break_at-append sep [] t h = ground arith
break_at-append sep (c ∷ s) t h = ground (arith, break_at-append sep s t h.1)

pub trim_start_of_IsSpaceless : (s : Text) → IsSpaceless s → trim_start s ≡ s
unfolding trim_start
trim_start_of_IsSpaceless [] h = refl
trim_start_of_IsSpaceless (c ∷ s) h = rw h.0

pub trim_end_of_IsSpaceless : (s : Text) → IsSpaceless s → trim_end s ≡ s
unfolding trim_end
trim_end_of_IsSpaceless [] h = refl
trim_end_of_IsSpaceless (c ∷ []) h = rw h.0
trim_end_of_IsSpaceless (c ∷ d ∷ s) h = rw (trim_end_of_IsSpaceless (d ∷ s) h.1)

pub trim_of_IsSpaceless : (s : Text) → IsSpaceless s → trim s ≡ s
trim_of_IsSpaceless s h =
    unfold trim in ap trim_end (trim_start_of_IsSpaceless s h) ∙ trim_end_of_IsSpaceless s h

-- What `break_at` returns are the parts around the separator.
pub break_at-parts : (sep : ℕ) (s a b : Text) → break_at sep s ≡ some (a, b) → s ≡ a ++ sep ∷ b
unfolding break_at
break_at-parts sep [] a b h = ground (arith, h)
break_at-parts sep (c ∷ s) a b h = elim (Bool-cases (eqb c sep)) [
  | inl here ↦ ground (arith, h, here)
  | inr on ↦ elim (Option-cases (break_at sep s)) [
    | inl missing ↦ ground (arith, h, on, missing)
    | inr ((x, y), found) ↦ ground (arith, h, on, found, break_at-parts sep s x y found)
  ]
]
