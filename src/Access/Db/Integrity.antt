-- ===== src/Access/Db/Integrity.antt =====
-- Referential integrity: the repository keeps every row's employee inside the row's tenant.
use gemba_blockchain.Base.{
  ==_iff, All, All-append, All-keep, Bool, Bool-cases, List, Option, Option-cases, Text, [], any,
  ap, arith, false, inl, inr, keep, kept, map, none, not, some, sym, text_eq, true, ℕ, ◌&&◌, ◌++◌,
  ◌==◌, ◌∙◌, ◌∷◌, ◌≡◌, ◌≢◌,
}
use gemba_blockchain.Access.Db.Laws.{find_own-any_id}
use gemba_blockchain.Access.Db.{
  Employee, Capability, AccessLog, Db, with_tenant, is_own, find_own, create_employee,
  create_capability, log_access, forget, delete_employee, record_failed_revocation,
}
use gemba_blockchain.Access.Db.Isolation.{Matches, OwnsCapability, OwnsLog, Unique, Owned}

-- No row of the database names the id.
pub record IsFreshId (id : Text) (db : Db) : Type 0 where
  pub employees : All (λ e. e.id ≢ id) db.employees
  pub capabilities : All (λ c. c.employee_id ≢ id) db.capabilities
  pub access_logs : All (λ l. l.employee_id ≢ some id) db.access_logs

All-map {ℓ κ μ} :
    {A : Type ℓ} (P : A → Type κ) (Q : A → Type μ) (xs : List A)
    → ((a : A) → P a → Q a)
    → All P xs
    → All Q xs
All-map P Q [] f h = tt
All-map P Q (x ∷ xs) f h = (f x h.0, All-map P Q xs f h.1)

All-map₂ {ℓ κ μ ν} :
    {A : Type ℓ} (P : A → Type κ) (R : A → Type ν) (Q : A → Type μ) (xs : List A)
    → ((a : A) → P a → R a → Q a)
    → All P xs
    → All R xs
    → All Q xs
All-map₂ P R Q [] f h k = tt
All-map₂ P R Q (x ∷ xs) f h k = (f x h.0 k.0, All-map₂ P R Q xs f h.1 k.1)

Unique-concat :
    (es : List Employee) (n : Employee)
    → Unique es
    → All (λ e. e.id ≢ n.id) es
    → Unique (es ++ n ∷ [])
Unique-concat [] n u f = (tt, tt)
Unique-concat (e ∷ es) n (a, u) (f, fs) =
    (All-append (λ x. x.id ≢ e.id) es (n ∷ []) a ((λ q. f (sym q)), tt), Unique-concat es n u fs)

Unique-keep : (p : Employee → Bool) (es : List Employee) → Unique es → Unique (keep p es)
unfolding keep
Unique-keep p [] u = tt
Unique-keep p (e ∷ es) (a, u) = elim (Bool-cases (p e)) [
  | inl kept ↦ rw kept (All-keep (λ x. x.id ≢ e.id) p es a, Unique-keep p es u)
  | inr dropped ↦ rw dropped (Unique-keep p es u)
]

find_own-rest :
    (tenant id : Text) (x : Employee) (es : List Employee) {e : Employee}
    → is_own tenant id x ≡ false
    → find_own tenant id (x ∷ es) ≡ some e
    → find_own tenant id es ≡ some e
unfolding find_own
find_own-rest tenant id x es {e} other h = ground arith

-- What is found has the id, so nothing else has it.
find_own-others :
    (tenant id : Text) (es : List Employee) (x : Employee) {e : Employee}
    → All (λ y. y.id ≢ x.id) es
    → x.id ≡ id
    → find_own tenant id es ≡ some e
    → ⊥
unfolding find_own
find_own-others tenant id [] x a q h = cc
find_own-others tenant id (y ∷ es) x {e} (n, a) q h = elim (Bool-cases (is_own tenant id y)) [
  | inl own ↦ n ((==_iff y.id id).0 (ground arith) ∙ sym q)
  | inr other ↦ find_own-others tenant id es x {e = e} a q (ground arith)
]

-- The employee that a tenant finds by an id is the only one with it.
find_own-Matches :
    (tenant id : Text) (es : List Employee) {e : Employee}
    → Unique es
    → find_own tenant id es ≡ some e
    → All (Matches tenant id) es
unfolding find_own
find_own-Matches tenant id [] u h = tt
find_own-Matches tenant id (x ∷ es) {e} (a, u) h = elim (Bool-cases (is_own tenant id x)) [
  | inl own ↦
      let same_tenant : x.tenant_id ≡ tenant = (==_iff x.tenant_id tenant).0 (ground arith) in
      let same_id : x.id ≡ id = (==_iff x.id id).0 (ground arith) in
      (
        (λ _. same_tenant),
        All-map (λ y. y.id ≢ x.id) (Matches tenant id) es (λ y ne q. absurd (ne (q ∙ sym same_id)))
            a,
      )
  | inr other ↦ (
    (λ q. absurd (
        find_own-others tenant id es x {e = e} a q (find_own-rest tenant id x es {e = e} other h))),
    find_own-Matches tenant id es {e = e} u (find_own-rest tenant id x es {e = e} other h),
  )
]

OwnsCapability-concat :
    (es : List Employee) (n : Employee) (c : Capability)
    → OwnsCapability es c
    → c.employee_id ≢ n.id
    → OwnsCapability (es ++ n ∷ []) c
OwnsCapability-concat es n c o ne =
    All-append (Matches c.tenant_id c.employee_id) es (n ∷ []) o ((λ q. absurd (ne (sym q))), tt)

OwnsLog-concat :
    (es : List Employee) (n : Employee) (l : AccessLog)
    → OwnsLog es l
    → l.employee_id ≢ some n.id
    → OwnsLog (es ++ n ∷ []) l
OwnsLog-concat es n l o ne = elim (Option-cases l.employee_id) [
  | inl nobody ↦ rw nobody tt
  | inr (who, named) ↦ rw named (
      All-append (Matches l.tenant_id who) es (n ∷ []) (rw named at o)
        ((λ q. absurd (ne (named ∙ ap (λ x. some x) (sym q)))), tt))
]

OwnsLog-keep :
    (tenant id : Text) (p : Employee → Bool) (es : List Employee) (l : AccessLog)
    → OwnsLog es l
    → OwnsLog (keep p es) (forget tenant id l)
OwnsLog-keep tenant id p es l o = by_employee l.employee_id o
  where
    by_employee :
        (named : Option Text)
        → OwnsLog es (record l { employee_id = named })
        → OwnsLog (keep p es) (forget tenant id (record l { employee_id = named }))
    by_employee none h = tt
    by_employee (some who) h = elim (Bool-cases (who == id)) [
      | inl same ↦ rw same tt
      | inr other ↦ rw other (All-keep (Matches l.tenant_id who) p es h)
    ]

OwnsLogs-keep :
    (tenant id : Text) (p : Employee → Bool) (es : List Employee) (ls : List AccessLog)
    → All (OwnsLog es) ls
    → All (OwnsLog (keep p es)) (map (forget tenant id) ls)
OwnsLogs-keep tenant id p es [] o = tt
OwnsLogs-keep tenant id p es (l ∷ ls) (o, os) =
    (OwnsLog-keep tenant id p es l o, OwnsLogs-keep tenant id p es ls os)

module _ (tenant : Text) where
  pub create_employee-Owned :
      (id name : Text) (email : Option Text) (wallet : Text) (up : Bool) (db : Db)
      → IsFreshId id db
      → Owned db
      → Owned (with_tenant up (create_employee tenant id name email wallet) db).0
  unfolding with_tenant create_employee
  create_employee-Owned id name email wallet false db f o = o
  create_employee-Owned id name email wallet true db f o =
      elim (Bool-cases (any (λ e. e.tenant_id == tenant && e.wallet == wallet) db.employees)) [
        | inl taken ↦ rw (taken, with_tenant) o
        | inr free ↦
            let n : Employee = record {
              id = id;
              tenant_id = tenant;
              full_name = name;
              email = email;
              wallet = wallet;
            } in
            rw (free, with_tenant)
              (record {
                unique = Unique-concat db.employees n o.unique f.employees;
                capabilities =
                    All-map₂ (OwnsCapability db.employees) (λ c. c.employee_id ≢ id)
                      (OwnsCapability (db.employees ++ n ∷ [])) db.capabilities
                      (OwnsCapability-concat db.employees n) o.capabilities f.capabilities;
                access_logs =
                    All-map₂ (OwnsLog db.employees) (λ l. l.employee_id ≢ some id)
                      (OwnsLog (db.employees ++ n ∷ [])) db.access_logs
                      (OwnsLog-concat db.employees n) o.access_logs f.access_logs;
              })
      ]

  pub create_capability-Owned :
      (id employee : Text) (zone : ℕ) (tx : Text) (up : Bool) (db : Db) (e : Employee)
      → find_own tenant employee db.employees ≡ some e
      → Owned db
      → Owned (with_tenant up (create_capability tenant id employee zone tx) db).0
  unfolding with_tenant create_capability
  create_capability-Owned id employee zone tx false db e found o = o
  create_capability-Owned id employee zone tx true db e found o =
      rw (find_own-any_id tenant employee db.employees found, with_tenant)
        (record {
          unique = o.unique;
          capabilities =
              All-append (OwnsCapability db.employees) db.capabilities _ o.capabilities
                (find_own-Matches tenant employee db.employees o.unique found, tt);
          access_logs = o.access_logs;
        })

  pub log_access-Owned :
      (employee : Text) (zone : ℕ) (granted up : Bool) (db : Db) (e : Employee)
      → find_own tenant employee db.employees ≡ some e
      → Owned db
      → Owned (with_tenant up (log_access tenant employee zone granted) db).0
  unfolding with_tenant log_access
  log_access-Owned employee zone granted false db e found o = o
  log_access-Owned employee zone granted true db e found o =
      rw (find_own-any_id tenant employee db.employees found, with_tenant)
        (record {
          unique = o.unique;
          capabilities = o.capabilities;
          access_logs =
              All-append (OwnsLog db.employees) db.access_logs _ o.access_logs
                (find_own-Matches tenant employee db.employees o.unique found, tt);
        })

  pub delete_employee-Owned :
      (id : Text) (up : Bool) (db : Db)
      → Owned db
      → Owned (with_tenant up (delete_employee tenant id) db).0
  unfolding with_tenant delete_employee
  delete_employee-Owned id false db o = o
  delete_employee-Owned id true db o = elim (Bool-cases (any (is_own tenant id) db.employees)) [
    | inr absent ↦ rw (absent, with_tenant) o
    | inl found ↦
        let p : Employee → Bool = λ e. not (is_own tenant id e) in
        rw (found, with_tenant)
          (record {
            unique = Unique-keep p db.employees o.unique;
            capabilities =
                All-map (OwnsCapability db.employees) (OwnsCapability (keep p db.employees)) _
                  (λ c h. All-keep (Matches c.tenant_id c.employee_id) p db.employees h)
                  (All-keep (OwnsCapability db.employees) _ db.capabilities o.capabilities);
            access_logs = OwnsLogs-keep tenant id p db.employees db.access_logs o.access_logs;
          })
  ]

  pub record_failed_revocation-Owned :
      (id wallet : Text) (zone : ℕ) (reason : Option Text) (up : Bool) (db : Db)
      → Owned db
      → Owned (with_tenant up (record_failed_revocation tenant id wallet zone reason) db).0
  unfolding with_tenant record_failed_revocation
  record_failed_revocation-Owned id wallet zone reason false db o = o
  record_failed_revocation-Owned id wallet zone reason true db o = record {
    unique = o.unique;
    capabilities = o.capabilities;
    access_logs = o.access_logs;
  }
