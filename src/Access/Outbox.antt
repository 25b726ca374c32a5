-- ===== src/Access/Outbox.antt =====
-- services/access-control/src/outbox.js: the worker that retries failed revocations.
pub mod Laws
use gemba_blockchain.Base.{
  Bool, List, Option, Text, [], if◌then◌else◌, length, none, some, ℕ, ◌&&◌, ◌+◌, ◌∷◌,
}
use gemba_blockchain.Access.Db.{
  Db, OutboxRow, with_tenant, list_pending_revocations, mark_revocation_retried,
}

-- For each row: whether the chain revokes it, and whether marking it succeeds.
pub record Run : Type 0 where
  pub revokes : OutboxRow → Bool
  pub mark_up : OutboxRow → Bool

pub record Tally : Type 0 where
  pub ok : ℕ
  pub failed : ℕ
  pub total : ℕ

module _ (run : Run) (tenant : Text) where
  abbrev pub is_done : OutboxRow → Bool
  is_done row = run.revokes row && run.mark_up row

  -- `try { revokeAccess; markRevocationRetried; ok++ } catch { failed++ }`
  unfoldable pub process_rows : List OutboxRow → Db → ℕ → ℕ → Db × ℕ × ℕ
  process_rows [] db ok failed = (db, ok, failed)
  process_rows (row ∷ rows) db ok failed =
      process_rows rows
        (if run.revokes row
          then (with_tenant (run.mark_up row) (mark_revocation_retried tenant row.id) db).0
          else db)
        (if is_done row then ok + 1 else ok) (if is_done row then failed else failed + 1)

  -- `none` where reading the outbox throws.
  unfoldable pub process_outbox_for : Bool → ℕ → Db → Db × Option Tally
  process_outbox_for list_up limit db =
      let (db', pending) = with_tenant list_up (list_pending_revocations tenant limit) db in
      elim pending [
        | none ↦ (db', none)
        | some rows ↦
            let (final, ok, failed) = process_rows rows db' 0 0 in
            (final, some (record { ok = ok; failed = failed; total = length rows }))
      ]

-- `processOutbox`: a tenant whose outbox cannot be read ends the drain.
unfoldable pub process_outbox :
    Run → (Text → Bool) → ℕ → List Text → Db → ℕ → ℕ → Db × Option (ℕ × ℕ)
process_outbox run list_up limit [] db ok failed = (db, some (ok, failed))
process_outbox run list_up limit (t ∷ ts) db ok failed =
    let (db', tally) = process_outbox_for run t (list_up t) limit db in
    elim tally [
      | none ↦ (db', none)
      | some y ↦ process_outbox run list_up limit ts db' (ok + y.ok) (failed + y.failed)
    ]
