-- ===== src/Access/Db/Isolation.antt =====
-- Row-level security: what a tenant does to the tables leaves the rows of every other tenant alone.
use gemba_blockchain.Base.{
  ==_iff, ==_ne, All, Bool, Bool-cases, List, Option, Option-cases, Text, [], any, arith, false,
  inl, inr, keep, keep-concat_of_false, keep-keep_of_imp, keep-map_of_fixed, map, none, not, refl,
  some, subst, sym, text_eq, true, ℕ, ◌&&◌, ◌==◌, ◌∙◌, ◌∷◌, ◌≡◌, ◌≢◌,
}
use gemba_blockchain.Access.Db.{
  Employee, Capability, AccessLog, Db, with_tenant, is_own, create_employee, create_capability,
  log_access, forget, delete_employee, record_failed_revocation, mark, mark_revocation_retried,
}

-- The rows that the policies show to a tenant.
abbrev pub view : Text → Db → Db
view tenant db = record {
  employees = keep (λ e. e.tenant_id == tenant) db.employees;
  capabilities = keep (λ c. c.tenant_id == tenant) db.capabilities;
  access_logs = keep (λ l. l.tenant_id == tenant) db.access_logs;
  revocation_outbox = keep (λ r. r.tenant_id == tenant) db.revocation_outbox;
}

-- An employee that a row names belongs to the row's tenant.
abbrev pub Matches : Text → Text → Employee → Type 0
Matches tenant id e = e.id ≡ id → e.tenant_id ≡ tenant

abbrev pub OwnsCapability : List Employee → Capability → Type 0
OwnsCapability es c = All (Matches c.tenant_id c.employee_id) es

abbrev pub OwnsLog : List Employee → AccessLog → Type 0
OwnsLog es l = elim l.employee_id [ none ↦ Unit | some id ↦ All (Matches l.tenant_id id) es ]

-- The primary key.
abbrev pub Unique : List Employee → Type 0
Unique [] = Unit
Unique (e ∷ es) = All (λ x. x.id ≢ e.id) es × Unique es

pub record Owned (db : Db) : Type 0 where
  pub unique : Unique db.employees
  pub capabilities : All (OwnsCapability db.employees) db.capabilities
  pub access_logs : All (OwnsLog db.employees) db.access_logs

-- An employee of the tenant with the id decides whose rows may name the id.
tenant_of_own :
    (tenant other id : Text) (es : List Employee)
    → any (is_own tenant id) es ≡ true
    → All (Matches other id) es
    → other ≡ tenant
tenant_of_own tenant other id [] h m = cc
tenant_of_own tenant other id (e ∷ es) h (m, ms) = elim (Bool-cases (is_own tenant id e)) [
  | inl own ↦
      let same_tenant : e.tenant_id ≡ tenant = (==_iff e.tenant_id tenant).0 (ground arith) in
      let same_id : e.id ≡ id = (==_iff e.id id).0 (ground arith) in sym (m same_id) ∙ same_tenant
  | inr foreign ↦ tenant_of_own tenant other id es (ground arith) ms
]

foreign_capabilities :
    (tenant other id : Text) (es : List Employee) (cs : List Capability)
    → tenant ≢ other
    → any (is_own tenant id) es ≡ true
    → All (OwnsCapability es) cs
    → keep (λ c. c.tenant_id == other) (keep (λ c. not (c.employee_id == id)) cs)
      ≡ keep (λ c. c.tenant_id == other) cs
unfolding keep
foreign_capabilities tenant other id es [] ne h o = refl
foreign_capabilities tenant other id es (c ∷ cs) ne h (o, os) =
    elim (Bool-cases (c.employee_id == id)) [
      | inr no_id ↦ ground (arith, foreign_capabilities tenant other id es cs ne h os)
      | inl with_id ↦
          let own : c.tenant_id ≡ tenant =
            tenant_of_own tenant c.tenant_id id es h (
              subst (λ i. All (Matches c.tenant_id i) es) ((==_iff c.employee_id id).0 with_id)
                o) in
          let hidden : (c.tenant_id == other) ≡ false = ground (arith, ==_iff c.tenant_id other) in
          ground (arith, foreign_capabilities tenant other id es cs ne h os)
    ]

forget_tenant : (tenant id : Text) (l : AccessLog) → (forget tenant id l).tenant_id ≡ l.tenant_id
forget_tenant tenant id l = ground arith

-- A log that another tenant owns names no employee of the tenant.
foreign_log :
    (tenant other id : Text) (es : List Employee) (l : AccessLog)
    → tenant ≢ other
    → any (is_own tenant id) es ≡ true
    → OwnsLog es l
    → (l.tenant_id == other) ≡ true
    → forget tenant id l ≡ l
foreign_log tenant other id es l ne h o visible = elim (Option-cases l.employee_id) [
  | inl nobody ↦ rw nobody
  | inr (who, named) ↦ elim (Bool-cases (who == id)) [
    | inr another ↦ ground arith
    | inl same ↦ absurd (
        ne (
          sym (
            sym ((==_iff l.tenant_id other).0 visible)
            ∙ tenant_of_own tenant l.tenant_id id es h (
                subst (λ w. All (Matches l.tenant_id w) es) ((==_iff who id).0 same)
                  (rw named at o)))))
  ]
]

foreign_logs :
    (tenant other id : Text) (es : List Employee) (ls : List AccessLog)
    → tenant ≢ other
    → any (is_own tenant id) es ≡ true
    → All (OwnsLog es) ls
    → keep (λ l. l.tenant_id == other) (map (forget tenant id) ls)
      ≡ keep (λ l. l.tenant_id == other) ls
unfolding keep
foreign_logs tenant other id es [] ne h o = refl
foreign_logs tenant other id es (l ∷ ls) ne h (o, os) = ground (
  arith,
  foreign_log tenant other id es l ne h o,
  forget_tenant tenant id l,
  foreign_logs tenant other id es ls ne h os,
)

module _ (tenant other : Text) (ne : tenant ≢ other) where
  hidden : (tenant == other) ≡ false
  hidden = ==_ne tenant other ne

  pub create_employee-view :
      (id name : Text) (email : Option Text) (wallet : Text) (up : Bool) (db : Db)
      → view other (with_tenant up (create_employee tenant id name email wallet) db).0
        ≡ view other db
  unfolding with_tenant create_employee
  create_employee-view id name email wallet false db = refl
  create_employee-view id name email wallet true db =
      elim (Bool-cases (any (λ e. e.tenant_id == tenant && e.wallet == wallet) db.employees)) [
        | inl taken ↦ rw (taken, with_tenant)
        | inr free ↦
            rw (free, with_tenant)
              (λ i. record (view other db) {
                employees =
                    keep-concat_of_false (λ e. e.tenant_id == other) db.employees
                      (record {
                        id = id;
                        tenant_id = tenant;
                        full_name = name;
                        email = email;
                        wallet = wallet;
                      })
                      hidden i;
              })
      ]

  pub create_capability-view :
      (id employee : Text) (zone : ℕ) (tx : Text) (up : Bool) (db : Db)
      → view other (with_tenant up (create_capability tenant id employee zone tx) db).0
        ≡ view other db
  unfolding with_tenant create_capability
  create_capability-view id employee zone tx false db = refl
  create_capability-view id employee zone tx true db =
      elim (Bool-cases (any (λ e. e.id == employee) db.employees)) [
        | inr unknown ↦ rw (unknown, with_tenant)
        | inl known ↦
            rw (known, with_tenant)
              (λ i. record (view other db) {
                capabilities =
                    keep-concat_of_false (λ c. c.tenant_id == other) db.capabilities
                      (record {
                        id = id;
                        tenant_id = tenant;
                        employee_id = employee;
                        zone = zone;
                        grant_tx = tx;
                        revoked = false;
                      })
                      hidden i;
              })
      ]

  pub log_access-view :
      (employee : Text) (zone : ℕ) (granted up : Bool) (db : Db)
      → view other (with_tenant up (log_access tenant employee zone granted) db).0 ≡ view other db
  unfolding with_tenant log_access
  log_access-view employee zone granted false db = refl
  log_access-view employee zone granted true db =
      elim (Bool-cases (any (λ e. e.id == employee) db.employees)) [
        | inr unknown ↦ rw (unknown, with_tenant)
        | inl known ↦
            rw (known, with_tenant)
              (λ i. record (view other db) {
                access_logs =
                    keep-concat_of_false (λ l. l.tenant_id == other) db.access_logs
                      (record {
                        tenant_id = tenant;
                        employee_id = some employee;
                        zone = zone;
                        granted = granted;
                      })
                      hidden i;
              })
      ]

  pub record_failed_revocation-view :
      (id wallet : Text) (zone : ℕ) (reason : Option Text) (up : Bool) (db : Db)
      → view other (with_tenant up (record_failed_revocation tenant id wallet zone reason) db).0
        ≡ view other db
  unfolding with_tenant record_failed_revocation
  record_failed_revocation-view id wallet zone reason false db = refl
  record_failed_revocation-view id wallet zone reason true db = λ i. record (view other db) {
    revocation_outbox =
        keep-concat_of_false (λ r. r.tenant_id == other) db.revocation_outbox
          (record {
            id = id;
            tenant_id = tenant;
            wallet = wallet;
            zone = zone;
            reason = reason;
            retried = false;
          })
          hidden i;
  }

  pub mark_revocation_retried-view :
      (id : Text) (up : Bool) (db : Db)
      → view other (with_tenant up (mark_revocation_retried tenant id) db).0 ≡ view other db
  unfolding with_tenant mark_revocation_retried
  mark_revocation_retried-view id false db = refl
  mark_revocation_retried-view id true db = λ i. record (view other db) {
    revocation_outbox =
        keep-map_of_fixed (λ r. r.tenant_id == other) (mark tenant id) db.revocation_outbox
          (λ r. ground arith)
          (λ r h. ground (arith, ==_iff r.tenant_id other, ==_iff r.tenant_id tenant)) i;
  }

  pub delete_employee-view :
      (id : Text) (up : Bool) (db : Db)
      → Owned db
      → view other (with_tenant up (delete_employee tenant id) db).0 ≡ view other db
  unfolding with_tenant delete_employee
  delete_employee-view id false db o = refl
  delete_employee-view id true db o = elim (Bool-cases (any (is_own tenant id) db.employees)) [
    | inr absent ↦ rw (absent, with_tenant)
    | inl found ↦
        rw (found, with_tenant)
          (λ i. record {
            employees =
                keep-keep_of_imp (λ e. e.tenant_id == other) (λ e. not (is_own tenant id e))
                  db.employees
                  (λ e h. ground (arith, ==_iff e.tenant_id other, ==_iff e.tenant_id tenant)) i;
            capabilities =
                foreign_capabilities tenant other id db.employees db.capabilities ne found
                  o.capabilities i;
            access_logs =
                foreign_logs tenant other id db.employees db.access_logs ne found o.access_logs i;
            revocation_outbox = keep (λ r. r.tenant_id == other) db.revocation_outbox;
          })
  ]
