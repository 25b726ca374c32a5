-- ===== src/Access/Gdpr.antt =====
-- services/access-control/src/gdpr.js: the right to erasure.
pub mod Live
pub mod Laws
use gemba_blockchain.Base.{Bool, List, Option, Text, [], if◌then◌else◌, none, some, suc, ℕ, ◌∷◌}
use gemba_blockchain.Access.Db.{
  Db, with_tenant, get_employee_capabilities, delete_employee, record_failed_revocation,
}

-- What the chain client answers: a transaction hash, or the text of an error.
pub data Answer : Type 0 where
  mined : Text → Answer
  reverted : Text → Answer

-- An entry of the response's `revoked`.
pub record Revocation : Type 0 where
  pub zone : ℕ
  pub wallet : Text
  pub answer : Answer

pub record Erasure : Type 0 where
  pub employee_id : Text
  pub revoked : List Revocation

-- The chain and the database while a request runs: the answer to the n-th revocation, whether the n-th
-- outbox write succeeds, and the id that the database gives its row.
pub record Environment : Type 0 where
  pub revoke_access : ℕ → Text → ℕ → Answer
  pub outbox_up : ℕ → Bool
  pub outbox_id : ℕ → Text

module _ (env : Environment) (tenant : Text) where
  -- One round of the loop: a failed revocation is recorded, and a failed record is swallowed.
  unfoldable pub note_failure : ℕ → ℕ × Text → Answer → Db → Db
  note_failure n (zone, wallet) (mined tx_hash) db = db
  note_failure n (zone, wallet) (reverted reason) db =
      (with_tenant (env.outbox_up n)
        (record_failed_revocation tenant (env.outbox_id n) wallet zone (some reason)) db).0

  unfoldable pub revoke_all : ℕ → List (ℕ × Text) → Db → Db × List Revocation
  revoke_all n [] db = (db, [])
  revoke_all n ((zone, wallet) ∷ caps) db =
      let answer = env.revoke_access n wallet zone in
      let (db', rest) = revoke_all (suc n) caps (note_failure n (zone, wallet) answer db) in
      (db', record { zone = zone; wallet = wallet; answer = answer } ∷ rest)

  -- `none` where the promise is rejected: reading the capabilities or deleting the employee threw.
  -- Its awaits run without another request between them.
  unfoldable pub erase_employee : Bool → Bool → Bool → Text → Db → Db × Option Erasure
  erase_employee revoke_on_chain read_up delete_up id db =
      let (db', read) =
        let r : Db × Option (List (ℕ × Text)) =
          if revoke_on_chain
          then with_tenant read_up (get_employee_capabilities tenant id) db
          else (db, some []) in
        r in
      elim read [
        | none ↦ (db', none)
        | some caps ↦
            let (db'', deleted) = with_tenant delete_up (delete_employee tenant id) db' in
            elim deleted [
              | none ↦ (db'', none)
              | some _ ↦
                  let (final, revoked) = revoke_all 0 caps db'' in
                  (final, some (record { employee_id = id; revoked = revoked }))
            ]
      ]
