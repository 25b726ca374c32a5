-- ===== src/Access/Gdpr/Laws.antt =====
-- What an erasure leaves behind, whatever the chain answers.
use gemba_blockchain.Base.{
  ==_iff, All, Bool, Bool-cases, List, Option-cases, Text, [], any, ap, arith, false, inl, inr,
  keep, map, none, not, refl, some, subst, suc, sym, text_eq, true, ℕ, ◌++◌, ◌==◌, ◌∙◌, ◌∷◌, ◌≡◌,
  ◌≢◌,
}
use mathlib.Core.List.{append-nil, append_assoc}
use gemba_blockchain.Access.Db.{
  Employee, Capability, AccessLog, OutboxRow, Db, with_tenant, is_own, find_own, join_wallets,
  get_employee_capabilities, forget, delete_employee, record_failed_revocation,
}
use mathlib.Core.Option
use gemba_blockchain.Access.Gdpr.Live.{IsLive, join_wallets-IsLive}
use gemba_blockchain.Access.Db.Laws.{find_own-any, find_own-kept_none}
use gemba_blockchain.Access.Gdpr.{
  Answer, mined, reverted, Erasure, Environment, note_failure, revoke_all, erase_employee,
}

-- No row of the three tables of personal data names the employee.
pub record IsErased (tenant id : Text) (db : Db) : Type 0 where
  pub employee : find_own tenant id db.employees ≡ none
  pub capabilities : All (λ c. (c.employee_id == id) ≡ false) db.capabilities
  pub access_logs : All (λ l. l.employee_id ≢ some id) db.access_logs

-- The outbox row for one revocation, where it failed.
abbrev pub failed_row : Environment → Text → ℕ → ℕ → Text → Answer → List OutboxRow
failed_row env tenant n zone wallet (mined tx_hash) = []
failed_row env tenant n zone wallet (reverted reason) =
    record {
      id = env.outbox_id n;
      tenant_id = tenant;
      wallet = wallet;
      zone = zone;
      reason = some reason;
      retried = false;
    }
    ∷ []

unfoldable pub failed_rows : Environment → Text → ℕ → List (ℕ × Text) → List OutboxRow
failed_rows env tenant n [] = []
failed_rows env tenant n ((zone, wallet) ∷ caps) =
    failed_row env tenant n zone wallet (env.revoke_access n wallet zone)
    ++ failed_rows env tenant (suc n) caps

module _ (env : Environment) (tenant : Text) where
  -- The loop touches the outbox alone.
  note_failure-tables :
      (n : ℕ) (cap : ℕ × Text) (a : Answer) (db : Db)
      → ((note_failure env tenant n cap a db).employees ≡ db.employees)
        × ((note_failure env tenant n cap a db).capabilities ≡ db.capabilities)
        × ((note_failure env tenant n cap a db).access_logs ≡ db.access_logs)
  unfolding note_failure with_tenant record_failed_revocation
  note_failure-tables n (zone, wallet) (mined h) db = (refl, refl, refl)
  note_failure-tables n (zone, wallet) (reverted r) db = ground arith

  pub revoke_all-tables :
      (n : ℕ) (caps : List (ℕ × Text)) (db : Db)
      → ((revoke_all env tenant n caps db).0.employees ≡ db.employees)
        × ((revoke_all env tenant n caps db).0.capabilities ≡ db.capabilities)
        × ((revoke_all env tenant n caps db).0.access_logs ≡ db.access_logs)
  unfolding revoke_all
  revoke_all-tables n [] db = (refl, refl, refl)
  revoke_all-tables n ((zone, wallet) ∷ caps) db =
      let db' = note_failure env tenant n (zone, wallet) (env.revoke_access n wallet zone) db in
      let (e, c, l) = note_failure-tables n (zone, wallet) (env.revoke_access n wallet zone) db in
      let (e', c', l') = revoke_all-tables (suc n) caps db' in (e' ∙ e, c' ∙ c, l' ∙ l)

  -- One entry of the report for each capability, in order.
  pub revoke_all-report :
      (n : ℕ) (caps : List (ℕ × Text)) (db : Db)
      → map (λ r. (r.zone, r.wallet)) (revoke_all env tenant n caps db).1 ≡ caps
  unfolding revoke_all
  revoke_all-report n [] db = refl
  revoke_all-report n ((zone, wallet) ∷ caps) db =
      ap (λ r. (zone, wallet) ∷ r) (revoke_all-report (suc n) caps _)

  note_failure-outbox :
      (n : ℕ) (zone : ℕ) (wallet : Text) (a : Answer) (db : Db)
      → env.outbox_up n ≡ true
      → (note_failure env tenant n (zone, wallet) a db).revocation_outbox
        ≡ db.revocation_outbox ++ failed_row env tenant n zone wallet a
  unfolding note_failure with_tenant record_failed_revocation
  note_failure-outbox n zone wallet (mined h) db up = sym (append-nil db.revocation_outbox)
  note_failure-outbox n zone wallet (reverted r) db up = rw (up, note_failure, with_tenant)

  pub revoke_all-outbox :
      (n : ℕ) (caps : List (ℕ × Text)) (db : Db)
      → ((k : ℕ) → env.outbox_up k ≡ true)
      → (revoke_all env tenant n caps db).0.revocation_outbox
        ≡ db.revocation_outbox ++ failed_rows env tenant n caps
  unfolding revoke_all failed_rows
  revoke_all-outbox n [] db up = sym (append-nil db.revocation_outbox)
  revoke_all-outbox n ((zone, wallet) ∷ caps) db up =
      revoke_all-outbox (suc n) caps _ up
      ∙ ap (λ o. o ++ failed_rows env tenant (suc n) caps)
          (note_failure-outbox n zone wallet (env.revoke_access n wallet zone) db (up n))
      ∙ append_assoc db.revocation_outbox _ _

  -- The database after the deletion of an employee of the tenant.
  abbrev pub deleted : Text → Db → Db
  deleted id db = record db {
    employees = keep (λ e. not (is_own tenant id e)) db.employees;
    capabilities = keep (λ c. not (c.employee_id == id)) db.capabilities;
    access_logs = map (forget tenant id) db.access_logs;
  }

  abbrev pub captured : Bool → Text → Db → List (ℕ × Text)
  captured true id db = join_wallets tenant id db.employees db.capabilities
  captured false id db = []

  delete_found :
      (id : Text) (db : Db)
      → any (is_own tenant id) db.employees ≡ true
      → with_tenant true (delete_employee tenant id) db ≡ (deleted id db, some tt)
  unfolding with_tenant delete_employee
  delete_found id db own = rw (own, with_tenant)

  -- What an erasure does when the database answers, to an employee of the tenant.
  pub erase_employee_lem :
      (revoke_on_chain : Bool) (id : Text) (db : Db)
      → any (is_own tenant id) db.employees ≡ true
      → erase_employee env tenant revoke_on_chain true true id db ≡ (
        (revoke_all env tenant 0 (captured revoke_on_chain id db) (deleted id db)).0,
        some (record {
          employee_id = id;
          revoked = (revoke_all env tenant 0 (captured revoke_on_chain id db) (deleted id db)).1;
        }),
      )
  unfolding erase_employee with_tenant get_employee_capabilities delete_employee
  erase_employee_lem true id db own =
      rw (delete_found id db own, erase_employee) (rw (delete_found id db own))
  erase_employee_lem false id db own =
      rw (delete_found id db own, erase_employee) (rw (delete_found id db own))

  kept_capabilities :
      (id : Text) (cs : List Capability)
      → All (λ c. (c.employee_id == id) ≡ false) (keep (λ c. not (c.employee_id == id)) cs)
  unfolding keep
  kept_capabilities id [] = tt
  kept_capabilities id (c ∷ cs) = elim (Bool-cases (c.employee_id == id)) [
    | inl same ↦ rw same (kept_capabilities id cs)
    | inr other ↦ rw other (other, kept_capabilities id cs)
  ]

  forget-ne : (id : Text) (l : AccessLog) → (forget tenant id l).employee_id ≢ some id
  forget-ne id l = elim (Option-cases l.employee_id) [
    | inl nobody ↦ rw nobody (λ e. cc)
    | inr (who, named) ↦ ground (arith, ==_iff who id)
  ]

  forgotten_logs :
      (id : Text) (ls : List AccessLog)
      → All (λ l. l.employee_id ≢ some id) (map (forget tenant id) ls)
  forgotten_logs id [] = tt
  forgotten_logs id (l ∷ ls) = (forget-ne id l, forgotten_logs id ls)

  deleted-IsErased : (id : Text) (db : Db) → IsErased tenant id (deleted id db)
  deleted-IsErased id db = record {
    employee = find_own-kept_none tenant id db.employees;
    capabilities = kept_capabilities id db.capabilities;
    access_logs = forgotten_logs id db.access_logs;
  }

  -- When the database answers, the erasure of an employee of the tenant succeeds, and afterwards no
  -- employee row of the tenant, no capability and no log names the employee, whatever the chain
  -- answers and whether or not the outbox can be written.
  pub erase_employee-IsErased :
      (revoke_on_chain : Bool) (id : Text) (db : Db) (e : Employee)
      → find_own tenant id db.employees ≡ some e
      → ((erase_employee env tenant revoke_on_chain true true id db).1 ≢ none)
        × IsErased tenant id (erase_employee env tenant revoke_on_chain true true id db).0
  erase_employee-IsErased revoke_on_chain id db e own =
      let caps = captured revoke_on_chain id db in
      let (same_e, same_c, same_l) = revoke_all-tables 0 caps (deleted id db) in
      let v = deleted-IsErased id db in
      rw (erase_employee_lem revoke_on_chain id db (find_own-any tenant id db.employees own)) (
        (λ q. cc),
        record {
          employee = ap (find_own tenant id) same_e ∙ v.employee;
          capabilities =
              subst (All (λ c. (c.employee_id == id) ≡ false)) (sym same_c) v.capabilities;
          access_logs = subst (All (λ l. l.employee_id ≢ some id)) (sym same_l) v.access_logs;
        },
      )

  -- When the database answers, the report of the erasure of an employee of the tenant has one entry
  -- for each live capability of the employee, in order, and, where the outbox can be written, each
  -- one that the chain refused is a pending row behind those that the outbox held.
  pub erase_employee_accounts :
      (id : Text) (db : Db) (e : Employee)
      → find_own tenant id db.employees ≡ some e
      → ((k : ℕ) → env.outbox_up k ≡ true)
      → let r = erase_employee env tenant true true true id db in
        (caps : List (ℕ × Text)) × IsLive tenant id e.wallet db.capabilities caps
        × (Option.map (λ (x : Erasure). map (λ y. (y.zone, y.wallet)) x.revoked) r.1 ≡ some caps)
        × (r.0.revocation_outbox ≡ db.revocation_outbox ++ failed_rows env tenant 0 caps)
  erase_employee_accounts id db e own up =
      rw (erase_employee_lem true id db (find_own-any tenant id db.employees own)) (
        join_wallets tenant id db.employees db.capabilities,
        join_wallets-IsLive tenant id db.employees e db.capabilities own,
        ap (λ c. some c) (revoke_all-report 0 _ (deleted id db)),
        revoke_all-outbox 0 _ (deleted id db) up,
      )

  -- An erasure that is rejected has changed nothing.
  pub erase_employee_rejected :
      (revoke_on_chain read_up delete_up : Bool) (id : Text) (db : Db)
      → (erase_employee env tenant revoke_on_chain read_up delete_up id db).1 ≡ none
      → (erase_employee env tenant revoke_on_chain read_up delete_up id db).0 ≡ db
  unfolding erase_employee with_tenant get_employee_capabilities delete_employee
  erase_employee_rejected revoke_on_chain read_up delete_up id db h = ground arith
