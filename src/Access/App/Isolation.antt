-- ===== src/Access/App/Isolation.antt =====
-- Tenant isolation of the whole API.
use gemba_blockchain.Base.{
  Map, Option, Option-cases, Text, ap, codes, inl, inr, none, refl, some, true, ℕ, ◌∙◌, ◌≡◌, ◌≢◌,
}
use gemba_blockchain.Js.{Value, boolean}
use gemba_blockchain.Access.Validation.{
  Checked, valid, invalid, require_evm_address, require_uuid, require_zone,
  require_non_empty_string, optional_email,
}
use gemba_blockchain.Access.Auth.{Headers, api_key_auth}
use gemba_blockchain.Access.Db.{
  Db, create_employee, get_employee_wallet, create_capability, log_access,
}
use gemba_blockchain.Access.Db.Isolation.{
  view, Owned, create_employee-view, create_capability-view, log_access-view,
}
use gemba_blockchain.Access.Db.Integrity.{
  IsFreshId, create_employee-Owned, create_capability-Owned, log_access-Owned,
}
use gemba_blockchain.Access.Gdpr.{Erasure, erase_employee}
use gemba_blockchain.Access.App.{
  employee_created, capability_created, access_logged, access, erased, then_run, ◌>>=◌, pure, check,
  or_internal, transact, call_chain, require_known, require_boolean, AppEnvironment, post_employee,
  post_capability, post_access_log, get_access, delete_employee_route, Request, employees,
  capabilities, access_logs, access_check, employee_deletion, route, serve,
}
use gemba_blockchain.Access.App.Steps.{
  Isolated, Isolated-refl, Keeps, Keeps-transact, Knows, Keeps-known, erase_employee-Isolated,
}

-- The id that the database gives a new employee is in no row.
abbrev pub IsFreshFor : AppEnvironment → Request → Db → Type 0
IsFreshFor env (employees _ _ _) db = IsFreshId env.new_id db
IsFreshFor env _ db = Unit

module _ (tenant : Text) (env : AppEnvironment) where
  employees-Isolated :
      (n : Checked Text) (m : Checked (Option Text)) (w : Checked Text)
      → Keeps tenant (IsFreshId env.new_id) (
          check n >>= λ name. check m >>= λ mail. check w >>= λ address.
          transact env.write_up (create_employee tenant env.new_id name mail address) >>= λ c.
          pure (employee_created c.0 c.1))
  employees-Isolated (invalid e) m w db p o = Isolated-refl tenant db o
  employees-Isolated (valid name) (invalid e) w db p o = Isolated-refl tenant db o
  employees-Isolated (valid name) (valid mail) (invalid e) db p o = Isolated-refl tenant db o
  employees-Isolated (valid name) (valid mail) (valid address) db p o =
      Keeps-transact tenant (IsFreshId env.new_id) env.write_up
        (create_employee tenant env.new_id name mail address) (λ c. employee_created c.0 c.1)
        (λ d f v. record {
          owned = create_employee-Owned tenant env.new_id name mail address env.write_up d f v;
          others = λ other ne.
              create_employee-view tenant other ne env.new_id name mail address env.write_up d;
        })
        db p o

  capability-Isolated :
      (id : Text) (zone : ℕ) (granted : Option Text)
      → Keeps tenant (Knows tenant id) (
          call_chain granted >>= λ grant_tx.
          transact env.write_up (create_capability tenant env.new_id id zone grant_tx) >>= λ c.
          pure (capability_created c))
  capability-Isolated id zone none db p o = Isolated-refl tenant db o
  capability-Isolated id zone (some grant_tx) db p o =
      Keeps-transact tenant (Knows tenant id) env.write_up
        (create_capability tenant env.new_id id zone grant_tx) (λ c. capability_created c)
        (λ d k v. record {
          owned =
              create_capability-Owned tenant env.new_id id zone grant_tx env.write_up d k.0 k.1 v;
          others = λ other ne.
              create_capability-view tenant other ne env.new_id id zone grant_tx env.write_up d;
        })
        db p o

  capabilities-Isolated :
      (i : Checked Text) (z : Checked ℕ)
      → Keeps tenant
          (λ _. Unit)
          (check i >>= λ id. check z >>= λ zone.
            transact env.read_up (get_employee_wallet tenant id) >>= λ found.
            require_known found >>= λ wallet.
            call_chain (env.grant_access wallet zone) >>= λ grant_tx.
            transact env.write_up (create_capability tenant env.new_id id zone grant_tx) >>= λ c.
            pure (capability_created c))
  capabilities-Isolated (invalid e) z db p o = Isolated-refl tenant db o
  capabilities-Isolated (valid id) (invalid e) db p o = Isolated-refl tenant db o
  capabilities-Isolated (valid id) (valid zone) db p o =
      Keeps-known tenant id env.read_up
        (λ wallet. call_chain (env.grant_access wallet zone) >>= λ grant_tx.
          transact env.write_up (create_capability tenant env.new_id id zone grant_tx) >>= λ c.
          pure (capability_created c))
        (λ wallet. capability-Isolated id zone (env.grant_access wallet zone)) db p o

  access_logs-Isolated :
      (i : Checked Text) (z : Checked ℕ) (granted : Value)
      → Keeps tenant
          (λ _. Unit)
          (check i >>= λ id. check z >>= λ zone. require_boolean granted >>= λ b.
            transact env.read_up (get_employee_wallet tenant id) >>= λ found.
            require_known found >>= λ known.
            transact env.write_up (log_access tenant id zone b) >>= λ done. pure access_logged)
  access_logs-Isolated (invalid e) z granted db p o = Isolated-refl tenant db o
  access_logs-Isolated (valid id) (invalid e) granted db p o = Isolated-refl tenant db o
  access_logs-Isolated (valid id) (valid zone) (boolean b) db p o =
      Keeps-known tenant id env.read_up
        (λ known.
          transact env.write_up (log_access tenant id zone b) >>= λ done. pure access_logged)
        (λ known.
          Keeps-transact tenant (Knows tenant id) env.write_up (log_access tenant id zone b)
            (λ _. access_logged)
            (λ d k v. record {
              owned = log_access-Owned tenant id zone b env.write_up d k.0 k.1 v;
              others = λ other ne. log_access-view tenant other ne id zone b env.write_up d;
            }))
        db p o
  access_logs-Isolated (valid id) (valid zone) _ db p o = Isolated-refl tenant db o

  access_check-Isolated :
      (w : Checked Text) (z : Checked ℕ)
      → Keeps tenant
          (λ _. Unit)
          (check w >>= λ address. check z >>= λ zone.
            call_chain (env.has_access address zone) >>= λ has. pure (access address zone has))
  access_check-Isolated (invalid e) z db p o = Isolated-refl tenant db o
  access_check-Isolated (valid address) (invalid e) db p o = Isolated-refl tenant db o
  access_check-Isolated (valid address) (valid zone) db p o =
      elim (Option-cases (env.has_access address zone)) [
        | inl down ↦ rw (down, call_chain) (Isolated-refl tenant db o)
        | inr (has, up) ↦ rw (up, call_chain) (Isolated-refl tenant db o)
      ]

  deletion-Isolated :
      (i : Checked Text)
      → Keeps tenant
          (λ _. Unit)
          (check i >>= λ id.
            (λ d.
              or_internal (erase_employee env.erasure tenant true env.read_up env.write_up id d))
            >>= λ erasure. pure (erased erasure))
  deletion-Isolated (invalid e) db p o = Isolated-refl tenant db o
  deletion-Isolated (valid id) db p o =
      answered (erase_employee env.erasure tenant true env.read_up env.write_up id db)
        (erase_employee-Isolated tenant env.erasure env.read_up env.write_up id db o)
    where
      answered :
          (r : Db × Option Erasure)
          → Isolated tenant db r.0
          → Isolated tenant db (then_run (or_internal r) (λ e. pure (erased e))).0
      answered (d, none) i = i
      answered (d, some e) i = i

  route-Isolated :
      (request : Request) (db : Db)
      → IsFreshFor env request db
      → Owned db
      → Isolated tenant db (route env tenant request db).0
  unfolding route post_employee post_capability post_access_log get_access delete_employee_route
  route-Isolated (employees full_name email wallet) =
      employees-Isolated (require_non_empty_string (codes "full_name") full_name)
        (optional_email (codes "email") email) (require_evm_address (codes "wallet") wallet)
  route-Isolated (capabilities employee_id zone_id) =
      capabilities-Isolated (require_uuid (codes "employee_id") employee_id)
        (require_zone (codes "zone") zone_id)
  route-Isolated (access_logs employee_id zone_id granted) =
      access_logs-Isolated (require_uuid (codes "employee_id") employee_id)
        (require_zone (codes "zone") zone_id) granted
  route-Isolated (access_check wallet zone_id) =
      access_check-Isolated (require_evm_address (codes "wallet") wallet)
        (require_zone (codes "zone") zone_id)
  route-Isolated (employee_deletion employee_id) =
      deletion-Isolated (require_uuid (codes "id") employee_id)

-- A request, authenticated as one tenant or not at all, leaves the rows of every other tenant
-- exactly as they were, and the tables in order, whatever the body, the chain and the database do,
-- if the tables were in order and the database gives a new employee an id that no row names.
pub serve-Isolated :
    (keys : Map Text Text) (env : AppEnvironment) (h : Headers) (request : Request) (db : Db)
    (other : Text)
    → IsFreshFor env request db
    → Owned db
    → api_key_auth keys h ≢ some other
    → Owned (serve keys env h request db).0
      × (view other (serve keys env h request db).0 ≡ view other db)
unfolding serve
serve-Isolated keys env h request db other fresh o ne = elim (Option-cases (api_key_auth keys h)) [
  | inl stranger ↦ rw (stranger, serve) (o, refl)
  | inr (tenant, known) ↦
      let i = route-Isolated tenant env request db fresh o in
      rw (known, serve) (i.owned, i.others other (λ q. ne (known ∙ ap (λ t. some t) q)))
]
