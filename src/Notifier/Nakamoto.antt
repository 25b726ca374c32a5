-- ===== src/Notifier/Nakamoto.antt =====
-- services/blockchain-notifier/src/index.js: the Nakamoto coefficient of `watchValidators`. The order
-- of `Array.prototype.sort` is a parameter.
pub mod Laws
pub mod Insertion
use gemba_blockchain.Base.{
  Bool, List, Option, Text, [], eqb, if◌then◌else◌, keep, ltb, none, not, some, ℕ, ◌&&◌, ◌*◌, ◌+◌,
  ◌∷◌,
}

pub record Validator : Type 0 where
  pub operator : Text
  pub tokens : ℕ
  pub jailed : Bool
  pub is_bonded : Bool

-- `vals.filter((v) => !v.jailed && v.status === 'BOND_STATUS_BONDED')`
unfoldable pub bonded_of : List Validator → List Validator
bonded_of vals = keep (λ v. not v.jailed && v.is_bonded) vals

unfoldable pub total_tokens : List Validator → ℕ
total_tokens [] = 0
total_tokens (v ∷ vs) = v.tokens + total_tokens vs

-- The loop over `sorted`, with `acc` and `nakamoto`.
unfoldable pub coefficient_from : ℕ → ℕ → ℕ → List Validator → ℕ
coefficient_from total acc n [] = n
coefficient_from total acc n (v ∷ vs) =
    let rest = coefficient_from total (acc + v.tokens) (n + 1) vs in
    if ltb total ((acc + v.tokens) * 3) then n + 1 else rest

-- `none` where the function returns before it: nothing is bonded.
unfoldable pub nakamoto : (List Validator → List Validator) → List Validator → Option ℕ
nakamoto sort vals =
    let total = total_tokens (bonded_of vals) in
    if eqb total 0 then none else some (coefficient_from total 0 0 (sort (bonded_of vals)))
