-- ===== src/Access/Auth/Laws.antt =====
-- The key table can be written and read back, and the tenant is a function of the credential.
use gemba_blockchain.Base.{
  All, All-append, List, Map, Text, [], ap, arith, insert, lookup, map, refl, some, subst, sym,
  text_eq, ◌++◌, ◌↔◌, ◌∙◌, ◌∷◌, ◌≡◌, ◌≢◌,
}
use gemba_blockchain.Strings.{trim, join}
use gemba_blockchain.Strings.Laws.{
  Lacks, IsSpaceless, split-join, break_at-append, trim_of_IsSpaceless,
}
use gemba_blockchain.Access.Auth.Presented.{
  Presents, Presents-presented_key, presented_key-Presents,
}
use gemba_blockchain.Access.Auth.{
  comma, colon, add_key, add_pairs, parse_api_keys, Headers, presented_key, truthy, get_key,
  api_key_auth,
}

-- `key1:tenantUuid1,key2:tenantUuid2`, the documented format of ACCESS_API_KEYS.
abbrev pub format_pair : Text × Text → Text
format_pair (key, tenant) = key ++ colon ∷ tenant

abbrev pub format_keys : List (Text × Text) → Text
format_keys ps = join comma (map format_pair ps)

pub record IsEntry (p : Text × Text) : Type 0 where
  pub key_present : p.0 ≢ []
  pub tenant_present : p.1 ≢ []
  pub key_spaceless : IsSpaceless p.0
  pub tenant_spaceless : IsSpaceless p.1
  pub key_no_colon : Lacks colon p.0
  pub key_no_comma : Lacks comma p.0
  pub tenant_no_comma : Lacks comma p.1

-- The table that the pairs describe: a later pair overrides an earlier one for the same key.
unfoldable pub table : Map Text Text → List (Text × Text) → Map Text Text
table keys [] = keys
table keys ((key, tenant) ∷ ps) = table (insert key tenant keys) ps

add_key_lem :
    (keys : Map Text Text) (key tenant : Text)
    → key ≢ []
    → tenant ≢ []
    → trim key ≡ key
    → trim tenant ≡ tenant
    → add_key keys (some (key, tenant)) ≡ insert key tenant keys
unfolding add_key
add_key_lem keys [] tenant k t e f = absurd (k refl)
add_key_lem keys (c ∷ key) [] k t e f = absurd (t refl)
add_key_lem keys (c ∷ key) (d ∷ tenant) k t e f = rw (e, f) (ground arith)

format_pair-Lacks : (p : Text × Text) → IsEntry p → Lacks comma (format_pair p)
format_pair-Lacks (key, tenant) v =
    All-append _ key (colon ∷ tenant) v.key_no_comma (omega arith, v.tenant_no_comma)

formats-Lacks : (ps : List (Text × Text)) → All IsEntry ps → All (Lacks comma) (map format_pair ps)
formats-Lacks [] h = tt
formats-Lacks (p ∷ ps) h = (format_pair-Lacks p h.0, formats-Lacks ps h.1)

add_pairs-table :
    (keys : Map Text Text) (ps : List (Text × Text))
    → All IsEntry ps
    → add_pairs keys (map format_pair ps) ≡ table keys ps
unfolding add_pairs table
add_pairs-table keys [] h = refl
add_pairs-table keys ((key, tenant) ∷ ps) (v, h) =
    ap (λ m. add_pairs m (map format_pair ps))
      (ap (add_key keys) (break_at-append colon key tenant v.key_no_colon)
        ∙ add_key_lem keys key tenant v.key_present v.tenant_present
            (trim_of_IsSpaceless key v.key_spaceless)
            (trim_of_IsSpaceless tenant v.tenant_spaceless))
    ∙ add_pairs-table (insert key tenant keys) ps h

-- Reading back the documented format of ACCESS_API_KEYS gives the table that was written, for one
-- entry or more, if keys and tenants are not empty and hold no space and no comma, and keys no
-- colon.
pub parse_api_keys-format :
    (p : Text × Text) (ps : List (Text × Text))
    → All IsEntry (p ∷ ps)
    → parse_api_keys (some (format_keys (p ∷ ps))) ≡ table [] (p ∷ ps)
unfolding parse_api_keys
parse_api_keys-format p ps h =
    rw (split-join comma (format_pair p) (map format_pair ps) (formats-Lacks (p ∷ ps) h))
      (add_pairs-table [] (p ∷ ps) h)

presented_key_iff :
    (keys : Map Text Text) (h : Headers) (tenant : Text)
    → (api_key_auth keys h ≡ some tenant)
      ↔ ((lookup (presented_key h) keys ≡ some tenant) × (presented_key h ≢ []) × (tenant ≢ []))
unfolding api_key_auth
presented_key_iff keys h tenant = split_key (presented_key h)
  where
    split_key :
        (k : Text)
        → (truthy (get_key keys k) ≡ some tenant)
          ↔ ((lookup k keys ≡ some tenant) × (k ≢ []) × (tenant ≢ []))
    split_key [] = ground arith
    split_key (c ∷ k) = ground arith

-- A request is let through as a tenant exactly when it presents a key, not empty, for which the
-- table holds that tenant, not empty; it presents what stands in `x-api-key`, or where that is
-- missing or empty what stands in `authorization`, behind `Bearer` in any case or bare, without the
-- white space around it; no other header, `x-tenant-id` included, has a say.
pub api_key_auth_iff :
    (keys : Map Text Text) (h : Headers) (tenant : Text)
    → (api_key_auth keys h ≡ some tenant) ↔ (
        (key : Text) × Presents h key
        × (lookup key keys ≡ some tenant)
        × (key ≢ [])
        × (tenant ≢ []))
api_key_auth_iff keys h tenant = (
  λ e.
      let (found, some_key, some_tenant) = (presented_key_iff keys h tenant).0 e in
      (presented_key h, presented_key-Presents h some_key, found, some_key, some_tenant),
  λ given.
      let (key, presents, found, some_key, some_tenant) = given in
      let same : key ≡ presented_key h = sym (Presents-presented_key h key presents) in
      (presented_key_iff keys h tenant).1 (
        subst (λ k. (lookup k keys ≡ some tenant) × (k ≢ []) × (tenant ≢ [])) same
          (found, some_key, some_tenant)),
)
