-- ===== src/Access/Outbox/Laws.antt =====
-- What one drain of the outbox does to its rows.
use gemba_blockchain.Base.{
  Bool-cases, List, Text, [], any, arith, if◌then◌else◌, inl, inr, keep, length, map, not, refl,
  some, suc, sym, take, text_eq, true, zero, ℕ, ◌&&◌, ◌+◌, ◌==◌, ◌∙◌, ◌∷◌, ◌≡◌, ◌≤◌,
}
use gemba_blockchain.Access.Db.{
  Db, OutboxRow, with_tenant, list_pending_revocations, mark, mark_revocation_retried,
}
use gemba_blockchain.Access.Outbox.{Run, Tally, is_done, process_rows, process_outbox_for}

module _ (run : Run) (tenant : Text) where
  -- The ids of the rows that are revoked and marked.
  abbrev pub done_ids : List OutboxRow → List Text
  done_ids rows = map (λ r. r.id) (keep (is_done run tenant) rows)

  abbrev pub mark_all : List Text → OutboxRow → OutboxRow
  mark_all ids r =
      if r.tenant_id == tenant && any (λ i. r.id == i) ids then record r { retried = true } else r

  mark_all-mark :
      (i : Text) (ids : List Text) (r : OutboxRow)
      → mark_all ids (mark tenant i r) ≡ mark_all (i ∷ ids) r
  mark_all-mark i ids r = ground arith

  map-mark_all-mark :
      (i : Text) (ids : List Text) (rs : List OutboxRow)
      → map (mark_all ids) (map (mark tenant i) rs) ≡ map (mark_all (i ∷ ids)) rs
  map-mark_all-mark i ids [] = refl
  map-mark_all-mark i ids (r ∷ rs) = λ k. mark_all-mark i ids r k ∷ map-mark_all-mark i ids rs k

  map-mark_all_none : (rs : List OutboxRow) → map (mark_all []) rs ≡ rs
  map-mark_all_none [] = refl
  map-mark_all_none (r ∷ rs) = ground (arith, map-mark_all_none rs)

  process_rows-outbox :
      (rows : List OutboxRow) (db : Db) (ok failed : ℕ)
      → (process_rows run tenant rows db ok failed).0.revocation_outbox
        ≡ map (mark_all (done_ids rows)) db.revocation_outbox
  unfolding process_rows with_tenant mark_revocation_retried keep
  process_rows-outbox [] db ok failed = sym (map-mark_all_none db.revocation_outbox)
  process_rows-outbox (row ∷ rows) db ok failed = elim (Bool-cases (run.revokes row)) [
    | inr refused ↦ rw (refused, process_rows) (process_rows-outbox rows db ok (failed + 1))
    | inl revoked ↦ elim (Bool-cases (run.mark_up row)) [
      | inr down ↦
          rw (revoked, down, process_rows, with_tenant)
            (process_rows-outbox rows db ok (failed + 1))
      | inl up ↦
          rw (revoked, up, process_rows, with_tenant)
            (process_rows-outbox rows
                (record db { revocation_outbox = map (mark tenant row.id) db.revocation_outbox })
                (ok + 1) failed
              ∙ map-mark_all-mark row.id (done_ids rows) db.revocation_outbox)
    ]
  ]

  process_rows-count :
      (rows : List OutboxRow) (db : Db) (ok failed : ℕ)
      → (process_rows run tenant rows db ok failed).1
          + (process_rows run tenant rows db ok failed).2
        ≡ ok + failed + length rows
  unfolding process_rows
  process_rows-count [] db ok failed = omega arith
  process_rows-count (row ∷ rows) db ok failed = ground (
    arith,
    process_rows-count rows
        (if run.revokes row
          then (with_tenant (run.mark_up row) (mark_revocation_retried tenant row.id) db).0
          else db)
        (if is_done run tenant row then ok + 1 else ok)
        (if is_done run tenant row then failed else failed + 1),
  )

  length-take-le : (n : ℕ) (rows : List OutboxRow) → length (take n rows) ≤ n
  length-take-le zero rows = omega arith
  length-take-le (suc n) [] = omega arith
  length-take-le (suc n) (r ∷ rows) = omega (arith, length-take-le n rows)

  -- The rows that a drain picks up: the first `limit` of the tenant that are pending.
  abbrev pub batch : ℕ → Db → List OutboxRow
  batch limit db =
      take limit (keep (λ r. r.tenant_id == tenant && not r.retried) db.revocation_outbox)

  -- One drain, where the outbox can be read, marks exactly those rows of its batch that the chain
  -- revoked and whose mark was written; every other row, of this tenant or another, stays as it
  -- was.
  pub process_outbox_for_marks :
      (limit : ℕ) (db : Db)
      → (process_outbox_for run tenant true limit db).0.revocation_outbox
        ≡ map (mark_all (done_ids (batch limit db))) db.revocation_outbox
  unfolding process_outbox_for with_tenant list_pending_revocations
  process_outbox_for_marks limit db = process_rows-outbox (batch limit db) db 0 0

  -- Each row of the batch of a drain is counted once, as done or as failed, and a batch has at most
  -- `limit` rows.
  pub process_outbox_for_tally :
      (limit : ℕ) (db : Db)
      → (t : Tally) × ((process_outbox_for run tenant true limit db).1 ≡ some t)
        × (t.ok + t.failed ≡ t.total)
        × (t.total ≤ limit)
  unfolding process_outbox_for with_tenant list_pending_revocations
  process_outbox_for_tally limit db = (
    record {
      ok = (process_rows run tenant (batch limit db) db 0 0).1;
      failed = (process_rows run tenant (batch limit db) db 0 0).2;
      total = length (batch limit db);
    },
    refl,
    omega (arith, process_rows-count (batch limit db) db 0 0),
    length-take-le limit _,
  )
