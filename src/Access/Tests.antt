-- ===== src/Access/Tests.antt =====
-- The access-control service at concrete requests of two tenants.
use mathlib.Core.Option
use gemba_blockchain.Base.{
  ==_false-ne, List, Map, Text, [], ap, arith, codes, false, lookup, map, none, refl, some, text_eq,
  true, ℕ, ◌++◌, ◌↔◌, ◌∷◌, ◌≡◌, ◌≢◌,
}
use gemba_blockchain.Js.{text}
use gemba_blockchain.Strings.{join, is_space}
use gemba_blockchain.Access.Validation.{matches_uuid}
use gemba_blockchain.Access.Validation.Laws.{IsUuid, matches_uuid_iff}
use gemba_blockchain.Access.Auth.{Headers, parse_api_keys, api_key_auth, presented_key}
use gemba_blockchain.Access.Auth.Presented.{Presents}
use gemba_blockchain.Access.Auth.Laws.{IsEntry, table, parse_api_keys-format, api_key_auth_iff}
use gemba_blockchain.Access.Db.{Employee, Capability, AccessLog, OutboxRow, Db, find_own}
use gemba_blockchain.Access.Db.Isolation.{view, Owned}
use gemba_blockchain.Access.Gdpr.{reverted, Erasure, Environment, erase_employee}
use gemba_blockchain.Access.Gdpr.Live.{IsLive}
use gemba_blockchain.Access.Gdpr.Laws.{
  IsErased, failed_rows, erase_employee-IsErased, erase_employee_accounts,
}
use gemba_blockchain.Access.Outbox.{Run, process_outbox_for}
use gemba_blockchain.Access.Outbox.Laws.{mark_all, done_ids, batch, process_outbox_for_marks}
use gemba_blockchain.Access.App.{AppEnvironment, employee_deletion, serve}
use gemba_blockchain.Access.App.Isolation.{serve-Isolated}

abbrev uuid : Text
uuid = codes "0000000a-0000-0000-0000-00000000000B"

matches_uuid_iff_example : (matches_uuid uuid ≡ true) ↔ IsUuid uuid
matches_uuid_iff_example = matches_uuid_iff uuid

abbrev clinic : Text
clinic = codes "clinic"

abbrev school : Text
school = codes "school"

abbrev first_entry : Text × Text
first_entry = (codes "k1", clinic)

abbrev second_entry : Text × Text
second_entry = (codes "k2", school)

first_entry-IsEntry : IsEntry first_entry
unfolding is_space
first_entry-IsEntry = record {
  key_present = ==_false-ne (codes "k1") [] refl;
  tenant_present = ==_false-ne clinic [] refl;
  key_spaceless = (refl, (refl, tt));
  tenant_spaceless = (refl, (refl, (refl, (refl, (refl, (refl, tt))))));
  key_no_colon = (omega arith, (omega arith, tt));
  key_no_comma = (omega arith, (omega arith, tt));
  tenant_no_comma =
      (omega arith, (omega arith, (omega arith, (omega arith, (omega arith, (omega arith, tt))))));
}

second_entry-IsEntry : IsEntry second_entry
unfolding is_space
second_entry-IsEntry = record {
  key_present = ==_false-ne (codes "k2") [] refl;
  tenant_present = ==_false-ne school [] refl;
  key_spaceless = (refl, (refl, tt));
  tenant_spaceless = (refl, (refl, (refl, (refl, (refl, (refl, tt))))));
  key_no_colon = (omega arith, (omega arith, tt));
  key_no_comma = (omega arith, (omega arith, tt));
  tenant_no_comma =
      (omega arith, (omega arith, (omega arith, (omega arith, (omega arith, (omega arith, tt))))));
}

parse_api_keys-format_example :
    parse_api_keys (some (codes "k1:clinic,k2:school")) ≡ table [] (first_entry ∷ second_entry ∷ [])
unfolding join
parse_api_keys-format_example =
    parse_api_keys-format first_entry (second_entry ∷ [])
      (first_entry-IsEntry, (second_entry-IsEntry, tt))

abbrev keys : Map Text Text
keys = first_entry ∷ second_entry ∷ []

abbrev clinic_headers : Headers
clinic_headers = record {
  authorization = none;
  x_api_key = some (codes "k1");
  x_tenant_id = some school;
}

api_key_auth_iff_example : (api_key_auth keys clinic_headers ≡ some clinic) ↔ (
    (key : Text) × Presents clinic_headers key
    × (lookup key keys ≡ some clinic)
    × (key ≢ [])
    × (clinic ≢ []))
api_key_auth_iff_example = api_key_auth_iff keys clinic_headers clinic

abbrev ana : Employee
ana = record {
  id = uuid;
  tenant_id = clinic;
  full_name = codes "Ana";
  email = none;
  wallet = codes "0xa";
}

abbrev boris : Employee
boris = record {
  id = codes "b";
  tenant_id = school;
  full_name = codes "Boris";
  email = none;
  wallet = codes "0xb";
}

abbrev ana_pass : Capability
ana_pass = record {
  id = codes "p";
  tenant_id = clinic;
  employee_id = uuid;
  zone = 7;
  grant_tx = codes "0x1";
  revoked = false;
}

abbrev ana_entered : AccessLog
ana_entered = record { tenant_id = clinic; employee_id = some uuid; zone = 7; granted = true }

abbrev pending : OutboxRow
pending = record {
  id = codes "r";
  tenant_id = clinic;
  wallet = codes "0xc";
  zone = 3;
  reason = none;
  retried = false;
}

abbrev db : Db
db = record {
  employees = ana ∷ boris ∷ [];
  capabilities = ana_pass ∷ [];
  access_logs = ana_entered ∷ [];
  revocation_outbox = pending ∷ [];
}

-- The chain refuses every revocation.
abbrev chain_down : Environment
chain_down = record {
  revoke_access = λ n wallet zone. reverted (codes "down");
  outbox_up = λ n. true;
  outbox_id = λ n. codes "new";
}

ana_found : find_own clinic uuid db.employees ≡ some ana
unfolding find_own
ana_found = refl

erase_employee-IsErased_example :
    ((erase_employee chain_down clinic true true true uuid db).1 ≢ none)
    × IsErased clinic uuid (erase_employee chain_down clinic true true true uuid db).0
erase_employee-IsErased_example =
    erase_employee-IsErased chain_down clinic true uuid db ana ana_found

erase_employee_accounts_example :
    let r = erase_employee chain_down clinic true true true uuid db in
    (caps : List (ℕ × Text)) × IsLive clinic uuid ana.wallet db.capabilities caps
    × (Option.map (λ (x : Erasure). map (λ y. (y.zone, y.wallet)) x.revoked) r.1 ≡ some caps)
    × (r.0.revocation_outbox ≡ db.revocation_outbox ++ failed_rows chain_down clinic 0 caps)
erase_employee_accounts_example =
    erase_employee_accounts chain_down clinic uuid db ana ana_found (λ k. refl)

abbrev chain_up : Run
chain_up = record { revokes = λ row. true; mark_up = λ row. true }

process_outbox_for_marks_example :
    (process_outbox_for chain_up clinic true 100 db).0.revocation_outbox
    ≡ map
        (mark_all chain_up clinic (done_ids chain_up clinic (batch chain_up clinic 100 db)))
        db.revocation_outbox
process_outbox_for_marks_example = process_outbox_for_marks chain_up clinic 100 db

abbrev world : AppEnvironment
world = record {
  read_up = true;
  write_up = true;
  new_id = codes "n";
  grant_access = λ wallet zone. none;
  has_access = λ wallet zone. none;
  erasure = chain_down;
}

db-Owned : Owned db
db-Owned = record {
  unique = ((==_false-ne (codes "b") uuid refl, tt), (tt, tt));
  capabilities = ((λ q. refl, (λ q. absurd (==_false-ne (codes "b") uuid refl q), tt)), tt);
  access_logs = ((λ q. refl, (λ q. absurd (==_false-ne (codes "b") uuid refl q), tt)), tt);
}

school_is_not_clinic : api_key_auth keys clinic_headers ≢ some school
unfolding api_key_auth presented_key lookup
school_is_not_clinic =
    λ e. absurd (==_false-ne clinic school refl (ap (λ o. elim o [ none ↦ clinic | some t ↦ t ]) e))

serve-Isolated_example :
    Owned (serve keys world clinic_headers (employee_deletion (text uuid)) db).0
    × (view school (serve keys world clinic_headers (employee_deletion (text uuid)) db).0
        ≡ view school db)
serve-Isolated_example =
    serve-Isolated keys world clinic_headers (employee_deletion (text uuid)) db school tt db-Owned
      school_is_not_clinic
