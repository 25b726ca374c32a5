-- ===== src/Access/App/Steps.antt =====
-- Steps of a handler that leave the other tenants alone.
use gemba_blockchain.Base.{
  Bool, List, Option, Option-cases, Text, [], false, inl, inr, none, refl, some, suc, true, ℕ, ◌∙◌,
  ◌∷◌, ◌≡◌, ◌≢◌,
}
use gemba_blockchain.Access.Db.{
  Employee, Db, Tx, with_tenant, find_own, get_employee_wallet, get_employee_capabilities,
  delete_employee, join_wallets,
}
use gemba_blockchain.Access.Db.Isolation.{
  view, Owned, delete_employee-view, record_failed_revocation-view,
}
use gemba_blockchain.Access.Db.Integrity.{delete_employee-Owned, record_failed_revocation-Owned}
use gemba_blockchain.Access.Gdpr.{
  Environment, Answer, mined, reverted, Erasure, note_failure, revoke_all, erase_employee,
}
use gemba_blockchain.Access.App.{M, then_run, ◌>>=◌, pure, or_internal, transact, require_known}

-- The database after a step of a tenant: still in order, and the same to every other tenant.
pub record Isolated (tenant : Text) (db db' : Db) : Type 0 where
  pub owned : Owned db'
  pub others : (other : Text) → tenant ≢ other → view other db' ≡ view other db

module _ (tenant : Text) where
  pub Isolated-refl : (db : Db) → Owned db → Isolated tenant db db
  Isolated-refl db o = record { owned = o; others = λ other ne. refl }

  Isolated-trans : {a b c : Db} → Isolated tenant a b → Isolated tenant b c → Isolated tenant a c
  Isolated-trans p q = record {
    owned = q.owned;
    others = λ other ne. q.others other ne ∙ p.others other ne;
  }

  -- A step may run in every database that satisfies `P`.
  abbrev pub Keeps : {A : Type 0} → (Db → Type 0) → M A → Type 0
  Keeps P m = (db : Db) → P db → Owned db → Isolated tenant db (m db).0

  -- A transaction at the end of a handler.
  pub Keeps-transact :
      {A B : Type 0} (P : Db → Type 0) (up : Bool) (t : Tx A) (f : A → B)
      → ((db : Db) → P db → Owned db → Isolated tenant db (with_tenant up t db).0)
      → Keeps P (transact up t >>= λ a. pure (f a))
  Keeps-transact P up t f k db p o = after (with_tenant up t db) (k db p o)
    where
      after :
          (r : Db × Option _)
          → Isolated tenant db r.0
          → Isolated tenant db (then_run (or_internal r) (λ a. pure (f a))).0
      after (d, none) i = i
      after (d, some a) i = i

  -- The employee is known to the tenant.
  abbrev pub Knows : Text → Db → Type 0
  Knows id db = (e : Employee) × (find_own tenant id db.employees ≡ some e)

  -- Behind the wallet check the employee is known.
  pub Keeps-known :
      {B : Type 0} (id : Text) (up : Bool) (f : Text → M B)
      → ((wallet : Text) → Keeps (Knows id) (f wallet))
      → Keeps
          (λ _. Unit)
          (transact up (get_employee_wallet tenant id) >>= λ found. require_known found >>= f)
  unfolding with_tenant get_employee_wallet
  Keeps-known id false f k db p o = Isolated-refl db o
  Keeps-known id true f k db p o = elim (Option-cases (find_own tenant id db.employees)) [
    | inl unknown ↦ rw (unknown, with_tenant) (Isolated-refl db o)
    | inr (e, found) ↦ rw (found, with_tenant) (k e.wallet db (e, found) o)
  ]

  revoke_all-Isolated :
      (env : Environment) (n : ℕ) (caps : List (ℕ × Text)) (db : Db)
      → Owned db
      → Isolated tenant db (revoke_all env tenant n caps db).0
  unfolding revoke_all note_failure
  revoke_all-Isolated env n [] db o = Isolated-refl db o
  revoke_all-Isolated env n ((zone, wallet) ∷ caps) db o =
      let once = noted (env.revoke_access n wallet zone) in
      Isolated-trans once (revoke_all-Isolated env (suc n) caps _ once.owned)
    where
      noted : (a : Answer) → Isolated tenant db (note_failure env tenant n (zone, wallet) a db)
      noted (mined h) = Isolated-refl db o
      noted (reverted r) = record {
        owned =
            record_failed_revocation-Owned tenant (env.outbox_id n) wallet zone (some r)
              (env.outbox_up n) db o;
        others = λ other ne.
            record_failed_revocation-view tenant other ne (env.outbox_id n) wallet zone (some r)
              (env.outbox_up n) db;
      }

  pub erase_employee-Isolated :
      (env : Environment) (read_up delete_up : Bool) (id : Text) (db : Db)
      → Owned db
      → Isolated tenant db (erase_employee env tenant true read_up delete_up id db).0
  unfolding erase_employee with_tenant get_employee_capabilities
  erase_employee-Isolated env false delete_up id db o = Isolated-refl db o
  erase_employee-Isolated env true delete_up id db o =
      revoked (with_tenant delete_up (delete_employee tenant id) db) (record {
        owned = delete_employee-Owned tenant id delete_up db o;
        others = λ other ne. delete_employee-view tenant other ne id delete_up db o;
      })
    where
      caps : List (ℕ × Text)
      caps = join_wallets tenant id db.employees db.capabilities

      revoked :
          (r : Db × Option (Unit {0}))
          → Isolated tenant db r.0
          → Isolated tenant db (
              let final : Db × Option Erasure = elim r.1 [
                | none ↦ (r.0, none)
                | some _ ↦
                    let (final, revoked) = revoke_all env tenant 0 caps r.0 in
                    (final, some (record { employee_id = id; revoked = revoked }))
              ] in
              final.0)
      revoked (d, none) i = i
      revoked (d, some u) i = Isolated-trans i (revoke_all-Isolated env 0 caps d i.owned)
