-- ===== src/LoadTest/Run/Laws.antt =====
-- The bounds of the fee and of the rates, the gate of the confirmations, and the batches of wallets.
use gemba_blockchain.Base.{
  ==_refl, Bool, List, Option, Option-cases, Text, [], ap, arith, drop, inl, inr, length, lookup,
  lookup-erase, max, min, none, refl, some, suc, sym, take, text_eq, zero, ℕ, ◌*◌, ◌++◌, ◌+◌, ◌-◌,
  ◌<◌, ◌∙◌, ◌∷◌, ◌≡◌, ◌≤◌,
}
use native.Mathlib.Nat.{le-div_iff_mul-le, div-le_of_le-mul}
use gemba_blockchain.LoadTest.Run.{next_bid, chunks_from, chunks}
use gemba_blockchain.LoadTest.Run.Profile.{ramp, rate_at}
use gemba_blockchain.LoadTest.Run.Gate.{Gate, on_resolved}

-- The bid stays between the floor and two hundred times the floor, once it is there, and covers twice
-- the base fee wherever that bound allows.
pub next_bid-within :
    (floor priority fee : ℕ) (base : Option ℕ)
    → floor ≤ fee
    → fee ≤ floor * 200
    → (floor ≤ next_bid floor priority fee base) × (next_bid floor priority fee base ≤ floor * 200)
unfolding next_bid
next_bid-within floor priority fee none low high = (low, high)
next_bid-within floor priority fee (some base) low high = ground (arith, low, high)

product-sum : (a r e : ℕ) → a * (r + e) ≡ a * r + a * e
product-sum a r e = omega arith

product_comm : (a b : ℕ) → a * b ≡ b * a
product_comm a b = omega arith

-- The rate of a phase is never outside its two ends.
pub rate_at-between :
    (from to elapsed dur : ℕ)
    → elapsed ≤ dur
    → 0 < dur
    → (min from to ≤ rate_at (ramp from to) elapsed dur)
      × (rate_at (ramp from to) elapsed dur ≤ max from to)
unfolding rate_at
rate_at-between from to elapsed dur inside pos =
    let least = min from to in
    let most = max from to in
    let rest = dur - elapsed in
    let whole : rest + elapsed ≡ dur = omega (arith, inside) in
    let low₁ : least * rest ≤ from * rest = grind arith in
    let low₂ : least * elapsed ≤ to * elapsed = grind arith in
    let high₁ : from * rest ≤ most * rest = grind arith in
    let high₂ : to * elapsed ≤ most * elapsed = grind arith in
    let low_sum : least * dur ≡ least * rest + least * elapsed =
      ap (λ d. least * d) (sym whole) ∙ product-sum least rest elapsed in
    let high_sum : dur * most ≡ most * rest + most * elapsed =
      product_comm dur most ∙ ap (λ d. most * d) (sym whole) ∙ product-sum most rest elapsed in
    (
      (le-div_iff_mul-le pos).1 (omega (arith, low₁, low₂, low_sum)),
      div-le_of_le-mul dur (omega (arith, high₁, high₂, high_sum)),
    )

unfoldable pub concat : {A : Type 0} → List (List A) → List A
concat [] = []
concat (xs ∷ xss) = xs ++ concat xss

take-drop : {A : Type 0} (n : ℕ) (xs : List A) → take n xs ++ drop n xs ≡ xs
take-drop zero xs = refl
take-drop (suc n) [] = refl
take-drop (suc n) (x ∷ xs) = ap (λ ys. x ∷ ys) (take-drop n xs)

length-drop : {A : Type 0} (n : ℕ) (xs : List A) → length (drop n xs) ≡ length xs - n
length-drop zero xs = omega arith
length-drop (suc n) [] = omega arith
length-drop (suc n) (x ∷ xs) = omega (arith, length-drop n xs)

chunks_from-concat :
    {A : Type 0} (size fuel : ℕ) (xs : List A)
    → 0 < size
    → length xs ≤ fuel
    → concat (chunks_from size fuel xs) ≡ xs
unfolding chunks_from concat
chunks_from-concat size zero [] pos enough = refl
chunks_from-concat size zero (x ∷ xs) pos enough = absurd (omega (arith, enough))
chunks_from-concat size (suc fuel) [] pos enough = refl
chunks_from-concat size (suc fuel) (x ∷ xs) pos enough =
    let smaller = length-drop size (x ∷ xs) in
    ap (λ ys. take size (x ∷ xs) ++ ys)
      (chunks_from-concat size fuel (drop size (x ∷ xs)) pos (omega (arith, smaller, enough, pos)))
    ∙ take-drop size (x ∷ xs)

-- The batches of wallets, put together, are all of them, each one once and in order.
pub chunks-concat : {A : Type 0} (size : ℕ) (xs : List A) → 0 < size → concat (chunks size xs) ≡ xs
unfolding chunks
chunks-concat size xs pos = chunks_from-concat size (length xs) xs pos (omega arith)

module _ {ℓ} {C : Type ℓ} where
  on_resolved-absent :
      (g : Gate C) (hash : Text) (ok : Bool)
      → lookup hash g.pending ≡ none
      → on_resolved C g hash ok ≡ g
  unfolding on_resolved
  on_resolved-absent g hash ok absent = rw (absent, on_resolved) refl

  on_resolved-forgets :
      (g : Gate C) (hash : Text) (ok : Bool) → lookup hash (on_resolved C g hash ok).pending ≡ none
  unfolding on_resolved
  on_resolved-forgets g hash ok = elim (Option-cases (lookup hash g.pending)) [
    | inl absent ↦ rw (absent, on_resolved) absent
    | inr (e, there) ↦
        rw (there, on_resolved) (ground (arith, lookup-erase hash hash g.pending, ==_refl hash))
  ]

  -- The outcome of a transaction counts once: resolved again, with whatever outcome, it changes nothing.
  pub on_resolved-once :
      (g : Gate C) (hash : Text) (ok ok' : Bool)
      → on_resolved C (on_resolved C g hash ok) hash ok' ≡ on_resolved C g hash ok
  on_resolved-once g hash ok ok' =
      on_resolved-absent (on_resolved C g hash ok) hash ok' (on_resolved-forgets g hash ok)
