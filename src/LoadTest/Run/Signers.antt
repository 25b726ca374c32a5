-- ===== src/LoadTest/Run/Signers.antt =====
-- The round robin over the wallets of endurance/scripts/run.js.
use gemba_blockchain.Base.{
  Bool, Bool-cases, List, Option-cases, Text, [], ap, arith, false, get_elem?, inl, inr, leb,
  leb→le, length, none, refl, some, subst, suc, sym, true, zero, ℕ, ◌%◌, ◌*◌, ◌+◌, ◌-◌, ◌/◌, ◌<◌,
  ◌∙◌, ◌∷◌, ◌≡◌, ◌≢◌,
}
use native.Mathlib.Nat.{mod-lt, mod-eq_of_lt, mod-add-div, add-mul-mod_self_right}
use gemba_blockchain.LoadTest.Run.{next_signer_from, next_signer}

signer_not_none :
    (signers : List Text) (can_send : Text → Bool) (k rr : ℕ) (s : Text)
    → get_elem? signers (rr % length signers) ≡ some s
    → can_send s ≡ true
    → (next_signer_from signers can_send (suc k) rr).0 ≢ none
unfolding next_signer_from
signer_not_none signers can_send k rr s here may missed =
    let found : (next_signer_from signers can_send (suc k) rr).0 ≡ some s =
      rw (here, next_signer_from) (rw (may, next_signer_from) refl) in
    cc

next_signer_from-later :
    (signers : List Text) (can_send : Text → Bool) (k rr : ℕ)
    → (next_signer_from signers can_send (suc k) rr).0 ≡ none
    → (next_signer_from signers can_send k (rr + 1)).0 ≡ none
unfolding next_signer_from
next_signer_from-later signers can_send k rr missed =
    elim (Option-cases (get_elem? signers (rr % length signers))) [
      | inl beyond ↦ ground (arith, missed, beyond)
      | inr (s, here) ↦ ground (arith, missed, here, Bool-cases (can_send s))
    ]

-- A wallet that `nextSigner` passes over may not send.
next_signer_from-none :
    (signers : List Text) (can_send : Text → Bool) (k rr i : ℕ) (s : Text)
    → (next_signer_from signers can_send k rr).0 ≡ none
    → i < k
    → get_elem? signers ((rr + i) % length signers) ≡ some s
    → can_send s ≡ false
unfolding next_signer_from
next_signer_from-none signers can_send zero rr i s missed inside there =
    absurd (omega (arith, inside))
next_signer_from-none signers can_send (suc k) rr zero s missed inside there =
    let here : get_elem? signers (rr % length signers) ≡ some s =
      subst (λ n. get_elem? signers (n % length signers) ≡ some s) (omega arith) there in
    elim (Bool-cases (can_send s)) [
      | inl may ↦ absurd (signer_not_none signers can_send k rr s here may missed)
      | inr may_not ↦ may_not
    ]
next_signer_from-none signers can_send (suc k) rr (suc i) s missed inside there =
    let later : (rr + 1) + i ≡ rr + suc i = omega arith in
    next_signer_from-none signers can_send k (rr + 1) i s
      (next_signer_from-later signers can_send k rr missed) (omega (arith, inside))
      (subst (λ n. get_elem? signers (n % length signers) ≡ some s) (sym later) there)

-- The turns reach every place of the list.
turn-reaches : (n rr j : ℕ) → j < n → (i : ℕ) × (i < n) × ((rr + i) % n ≡ j)
turn-reaches n rr j inside =
    let r = rr % n in
    let q = rr / n in
    let whole : r + n * q ≡ rr = mod-add-div rr n in
    let small : r < n = mod-lt rr (omega (arith, inside)) in
    elim (Bool-cases (leb r j)) [
      | inl below ↦
          let at : rr + (j - r) ≡ j + q * n = omega (arith, whole, leb→le r j below) in
          (
            j - r,
            omega (arith, inside),
            ap (λ m. m % n) at ∙ add-mul-mod_self_right j q n ∙ mod-eq_of_lt inside,
          )
      | inr above ↦
          let over : j < r = ground (arith, above) in
          let at : rr + (n + j - r) ≡ j + (q + 1) * n = omega (arith, whole, over, small) in
          (
            n + j - r,
            omega (arith, over, small),
            ap (λ m. m % n) at ∙ add-mul-mod_self_right j (q + 1) n ∙ mod-eq_of_lt inside,
          )
    ]

get_elem?-lt : (xs : List Text) (j : ℕ) (s : Text) → get_elem? xs j ≡ some s → j < length xs
get_elem?-lt [] j s there = ground (arith, there)
get_elem?-lt (x ∷ xs) zero s there = omega arith
get_elem?-lt (x ∷ xs) (suc j) s there = omega (arith, get_elem?-lt xs j s there)

next_signer-missed :
    (signers : List Text) (can_send : Text → Bool) (rr : ℕ)
    → (next_signer signers can_send rr).0 ≡ none
    → (next_signer_from signers can_send (length signers) rr).0 ≡ none
unfolding next_signer
next_signer-missed signers can_send rr missed = missed

next_signer_from-some :
    (signers : List Text) (can_send : Text → Bool) (k rr : ℕ) (s : Text)
    → (next_signer_from signers can_send k rr).0 ≡ some s
    → can_send s ≡ true
unfolding next_signer_from
next_signer_from-some signers can_send zero rr s found = ground (arith, found)
next_signer_from-some signers can_send (suc k) rr s found =
    let later = next_signer_from-some signers can_send k (rr + 1) s in
    elim (Option-cases (get_elem? signers (rr % length signers))) [
      | inl beyond ↦ later (ground (arith, found, beyond))
      | inr (t, here) ↦ elim (Bool-cases (can_send t)) [
        | inl may ↦ ground (arith, found, here, may)
        | inr may_not ↦ later (ground (arith, found, here, may_not))
      ]
    ]

-- `nextSigner` finds no wallet exactly when none may send.
pub next_signer-none :
    (signers : List Text) (can_send : Text → Bool) (rr j : ℕ) (s : Text)
    → (next_signer signers can_send rr).0 ≡ none
    → get_elem? signers j ≡ some s
    → can_send s ≡ false
next_signer-none signers can_send rr j s missed there =
    let (i, within, at) = turn-reaches (length signers) rr j (get_elem?-lt signers j s there) in
    next_signer_from-none signers can_send (length signers) rr i s
      (next_signer-missed signers can_send rr missed) within
      (subst (λ n. get_elem? signers n ≡ some s) (sym at) there)

pub next_signer-some :
    (signers : List Text) (can_send : Text → Bool) (rr : ℕ) (s : Text)
    → (next_signer signers can_send rr).0 ≡ some s
    → can_send s ≡ true
unfolding next_signer
next_signer-some signers can_send rr s found =
    next_signer_from-some signers can_send (length signers) rr s found
