-- ===== src/Access/Db.antt =====
-- services/access-control/src/db.js: the repository under row-level security. The tables and their
-- policies are those of services/access-control/db/schema.sql. The database itself is not code of the
-- repository's services: a transaction that fails, for whatever reason, is the argument `up = false`.
pub mod Laws
pub mod Isolation
pub mod Integrity
use gemba_blockchain.Base.{
  Bool, List, Option, Text, [], any, false, if◌then◌else◌, keep, map, none, not, some, take,
  text_eq, true, ℕ, ◌&&◌, ◌++◌, ◌==◌, ◌||◌, ◌∷◌,
}

pub record Employee : Type 0 where
  pub id : Text
  pub tenant_id : Text
  pub full_name : Text
  pub email : Option Text
  pub wallet : Text

pub record Capability : Type 0 where
  pub id : Text
  pub tenant_id : Text
  pub employee_id : Text
  pub zone : ℕ
  pub grant_tx : Text
  pub revoked : Bool

pub record AccessLog : Type 0 where
  pub tenant_id : Text
  pub employee_id : Option Text
  pub zone : ℕ
  pub granted : Bool

pub record OutboxRow : Type 0 where
  pub id : Text
  pub tenant_id : Text
  pub wallet : Text
  pub zone : ℕ
  pub reason : Option Text
  pub retried : Bool

pub record Db : Type 0 where
  pub employees : List Employee
  pub capabilities : List Capability
  pub access_logs : List AccessLog
  pub revocation_outbox : List OutboxRow

-- A query in a transaction: `none` where it throws.
abbrev pub Tx : Type 0 → Type 0
Tx A = Db → Option (A × Db)

-- `withTenant`: commit on success, roll back on a throw.
unfoldable pub with_tenant : {A : Type 0} → Bool → Tx A → Db → Db × Option A
with_tenant false f db = (db, none)
with_tenant true f db = elim (f db) [ none ↦ (db, none) | some (a, db') ↦ (db', some a) ]

-- `assertSafeDbRole`: whether it returns.
unfoldable pub assert_safe_db_role : Bool → Bool → Bool
assert_safe_db_role is_superuser bypassrls = not (is_superuser || bypassrls)

-- What the policies and the key select: the rows of the tenant with the id.
abbrev pub is_own : Text → Text → Employee → Bool
is_own tenant id e = e.tenant_id == tenant && e.id == id

-- Ids are compared as texts; the `uuid` columns compare values, so the model takes ids in one spelling.
unfoldable pub find_own : Text → Text → List Employee → Option Employee
find_own tenant id [] = none
find_own tenant id (e ∷ es) = if is_own tenant id e then some e else find_own tenant id es

module _ (tenant : Text) where
  -- The new id is the database's choice. A second wallet of the tenant breaks UNIQUE.
  unfoldable pub create_employee : Text → Text → Option Text → Text → Tx (Text × Text)
  create_employee id full_name email wallet db =
      if any (λ e. e.tenant_id == tenant && e.wallet == wallet) db.employees
      then none
      else some (
        (id, wallet),
        record db {
          employees =
              db.employees
              ++ record {
                id = id;
                tenant_id = tenant;
                full_name = full_name;
                email = email;
                wallet = wallet;
              }
                ∷ [];
        },
      )

  unfoldable pub list_employees : Tx (List Employee)
  list_employees db = some (keep (λ e. e.tenant_id == tenant) db.employees, db)

  unfoldable pub get_employee_wallet : Text → Tx (Option Text)
  get_employee_wallet id db = elim (find_own tenant id db.employees) [
    | none ↦ some (none, db)
    | some e ↦ some (some e.wallet, db)
  ]

  -- The foreign key is checked without the policies: any tenant's employee satisfies it.
  unfoldable pub create_capability : Text → Text → ℕ → Text → Tx Text
  create_capability id employee_id zone grant_tx db =
      if any (λ e. e.id == employee_id) db.employees
      then some (
        id,
        record db {
          capabilities =
              db.capabilities
              ++ record {
                id = id;
                tenant_id = tenant;
                employee_id = employee_id;
                zone = zone;
                grant_tx = grant_tx;
                revoked = false;
              }
                ∷ [];
        },
      )
      else none

  -- The join of the tenant's live capabilities of the employee with the employee's wallet.
  unfoldable pub join_wallets : Text → List Employee → List Capability → List (ℕ × Text)
  join_wallets id es [] = []
  join_wallets id es (c ∷ cs) =
      if c.tenant_id == tenant && c.employee_id == id && not c.revoked
      then elim (find_own tenant id es) [
        | none ↦ join_wallets id es cs
        | some e ↦ (c.zone, e.wallet) ∷ join_wallets id es cs
      ]
      else join_wallets id es cs

  unfoldable pub get_employee_capabilities : Text → Tx (List (ℕ × Text))
  get_employee_capabilities id db = some (join_wallets id db.employees db.capabilities, db)

  unfoldable pub log_access : Text → ℕ → Bool → Tx (Unit {0})
  log_access employee_id zone granted db =
      if any (λ e. e.id == employee_id) db.employees
      then some (
        tt,
        record db {
          access_logs =
              db.access_logs
              ++ record {
                tenant_id = tenant;
                employee_id = some employee_id;
                zone = zone;
                granted = granted;
              }
                ∷ [];
        },
      )
      else none

  abbrev pub forget : Text → AccessLog → AccessLog
  forget id l = elim l.employee_id [
    | none ↦ l
    | some e ↦ if e == id then record l { employee_id = none } else l
  ]

  -- The cascades run without the policies, where a row is deleted.
  unfoldable pub delete_employee : Text → Tx (Unit {0})
  delete_employee id db =
      if any (is_own tenant id) db.employees
      then some (
        tt,
        record db {
          employees = keep (λ e. not (is_own tenant id e)) db.employees;
          capabilities = keep (λ c. not (c.employee_id == id)) db.capabilities;
          access_logs = map (forget id) db.access_logs;
        },
      )
      else some (tt, db)

  unfoldable pub record_failed_revocation : Text → Text → ℕ → Option Text → Tx (Unit {0})
  record_failed_revocation id wallet zone reason db = some (
    tt,
    record db {
      revocation_outbox =
          db.revocation_outbox
          ++ record {
            id = id;
            tenant_id = tenant;
            wallet = wallet;
            zone = zone;
            reason = reason;
            retried = false;
          }
            ∷ [];
    },
  )

  -- Rows stand in the order of their creation.
  unfoldable pub list_pending_revocations : ℕ → Tx (List OutboxRow)
  list_pending_revocations limit db =
      some
        (take limit (keep (λ r. r.tenant_id == tenant && not r.retried) db.revocation_outbox), db)

  abbrev pub mark : Text → OutboxRow → OutboxRow
  mark id r = if r.tenant_id == tenant && r.id == id then record r { retried = true } else r

  unfoldable pub mark_revocation_retried : Text → Tx (Unit {0})
  mark_revocation_retried id db =
      some (tt, record db { revocation_outbox = map (mark id) db.revocation_outbox })
