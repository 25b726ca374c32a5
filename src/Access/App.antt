-- ===== src/Access/App.antt =====
-- services/access-control/src/app.js: the handlers. A handler runs against the database and an
-- environment that answers for the chain and says which transactions succeed.
pub mod Steps
pub mod Isolation
use gemba_blockchain.Base.{Bool, Map, Option, Text, codes, none, some, true, ℕ}
use gemba_blockchain.Js.{Value, boolean}
use gemba_blockchain.Access.Validation.{
  ValidationError, unknown_employee, not_boolean, Checked, valid, invalid, require_evm_address,
  require_uuid, require_zone, require_non_empty_string, optional_email,
}
use gemba_blockchain.Access.Auth.{Headers, api_key_auth}
use gemba_blockchain.Access.Db.{
  Db, Tx, with_tenant, create_employee, get_employee_wallet, create_capability, log_access,
}
use gemba_blockchain.Access.Gdpr.{Environment, Erasure, erase_employee}

pub data Reply : Type 0 where
  unauthorized : Reply
  refused : ValidationError → Reply
  internal_error : Reply
  employee_created : Text → Text → Reply
  capability_created : Text → Reply
  access_logged : Reply
  access : Text → ℕ → Bool → Reply
  erased : Erasure → Reply

unfoldable pub status : Reply → ℕ
status unauthorized = 401
status (refused _) = 400
status internal_error = 500
status (employee_created _ _) = 201
status (capability_created _) = 201
status access_logged = 201
status (access _ _ _) = 200
status (erased _) = 200

-- A step of a handler: a value, or the reply of the error handler.
pub data Outcome (A : Type 0) : Type 0 where
  ok : A → Outcome A
  throw : Reply → Outcome A

abbrev pub M : Type 0 → Type 0
M A = Db → Db × Outcome A

abbrev pub then_run : {A B : Type 0} → Db × Outcome A → (A → M B) → Db × Outcome B
then_run (db, ok a) f = f a db
then_run (db, throw r) f = (db, throw r)

infixl 5 ◌>>=◌
abbrev pub ◌>>=◌ : {A B : Type 0} → M A → (A → M B) → M B
◌>>=◌ m f db = then_run (m db) f

abbrev pub pure : {A : Type 0} → A → M A
pure a db = (db, ok a)

-- A guard of validation.js: `err.status` is 400.
abbrev pub check : {A : Type 0} → Checked A → M A
check (valid a) db = (db, ok a)
check (invalid e) db = (db, throw (refused e))

-- A failure with no status of its own is answered 500.
abbrev pub or_internal : {A : Type 0} → Db × Option A → Db × Outcome A
or_internal (db, none) = (db, throw internal_error)
or_internal (db, some a) = (db, ok a)

abbrev pub transact : {A : Type 0} → Bool → Tx A → M A
transact up f db = or_internal (with_tenant up f db)

-- A call of the chain client, made with no transaction open.
abbrev pub call_chain : {A : Type 0} → Option A → M A
call_chain none db = (db, throw internal_error)
call_chain (some a) db = (db, ok a)

abbrev pub require_known : Option Text → M Text
require_known none db =
    (db, throw (refused (record { field = codes "employee_id"; problem = unknown_employee })))
require_known (some wallet) db = (db, ok wallet)

abbrev pub require_boolean : Value → M Bool
require_boolean (boolean b) db = (db, ok b)
require_boolean _ db =
    (db, throw (refused (record { field = codes "granted"; problem = not_boolean })))

pub record AppEnvironment : Type 0 where
  pub read_up : Bool
  pub write_up : Bool
  pub new_id : Text
  pub grant_access : Text → ℕ → Option Text
  pub has_access : Text → ℕ → Option Bool
  pub erasure : Environment

module _ (env : AppEnvironment) (tenant : Text) where
  unfoldable pub post_employee : Value → Value → Value → M Reply
  post_employee full_name email wallet = do
    name ← check (require_non_empty_string (codes "full_name") full_name)
    mail ← check (optional_email (codes "email") email)
    address ← check (require_evm_address (codes "wallet") wallet)
    created ← transact env.write_up (create_employee tenant env.new_id name mail address)
    pure (employee_created created.0 created.1)

  unfoldable pub post_capability : Value → Value → M Reply
  post_capability employee_id zone_id = do
    id ← check (require_uuid (codes "employee_id") employee_id)
    zone ← check (require_zone (codes "zone") zone_id)
    found ← transact env.read_up (get_employee_wallet tenant id)
    wallet ← require_known found
    grant_tx ← call_chain (env.grant_access wallet zone)
    created ← transact env.write_up (create_capability tenant env.new_id id zone grant_tx)
    pure (capability_created created)

  unfoldable pub post_access_log : Value → Value → Value → M Reply
  post_access_log employee_id zone_id granted = do
    id ← check (require_uuid (codes "employee_id") employee_id)
    zone ← check (require_zone (codes "zone") zone_id)
    is_granted ← require_boolean granted
    found ← transact env.read_up (get_employee_wallet tenant id)
    known ← require_known found
    done ← transact env.write_up (log_access tenant id zone is_granted)
    pure access_logged

  unfoldable pub get_access : Value → Value → M Reply
  get_access wallet zone_id = do
    address ← check (require_evm_address (codes "wallet") wallet)
    zone ← check (require_zone (codes "zone") zone_id)
    has ← call_chain (env.has_access address zone)
    pure (access address zone has)

  unfoldable pub delete_employee_route : Value → M Reply
  delete_employee_route employee_id = do
    id ← check (require_uuid (codes "id") employee_id)
    erasure ←
        λ db. or_internal (erase_employee env.erasure tenant true env.read_up env.write_up id db)
    pure (erased erasure)

pub data Request : Type 0 where
  employees : Value → Value → Value → Request
  capabilities : Value → Value → Request
  access_logs : Value → Value → Value → Request
  access_check : Value → Value → Request
  employee_deletion : Value → Request

unfoldable pub route : AppEnvironment → Text → Request → M Reply
route env tenant (employees full_name email wallet) =
    post_employee env tenant full_name email wallet
route env tenant (capabilities id zone) = post_capability env tenant id zone
route env tenant (access_logs id zone granted) = post_access_log env tenant id zone granted
route env tenant (access_check wallet zone) = get_access env tenant wallet zone
route env tenant (employee_deletion id) = delete_employee_route env tenant id

abbrev pub reply_of : Outcome Reply → Reply
reply_of (ok r) = r
reply_of (throw r) = r

-- A whole request: the authentication first, then the handler, then the error handler.
unfoldable pub serve : Map Text Text → AppEnvironment → Headers → Request → Db → Db × Reply
serve keys env h request db = elim (api_key_auth keys h) [
  | none ↦ (db, unauthorized)
  | some tenant ↦ let (db', outcome) = route env tenant request db in (db', reply_of outcome)
]
