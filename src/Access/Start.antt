-- ===== src/Access/Start.antt =====
-- services/access-control/src/server.js: the start of the API. The role that the database reports is an
-- argument, nothing where the query fails.
use gemba_blockchain.Base.{
  Bool, Map, Option, Text, arith, eqb, false, if◌then◌else◌, length, none, not, some, ℕ, ◌<◌, ◌≡◌,
}
use gemba_blockchain.Access.Auth.{parse_api_keys}
use gemba_blockchain.Access.Db.{assert_safe_db_role}

pub record Settings : Type 0 where
  pub access_api_keys : Option Text
  pub access_api_port : Option ℕ
  pub outbox_retry_ms : Option ℕ

pub data Startup : Type 0 where
  no_database : Startup
  unsafe_role : Startup
  no_keys : Startup
  -- the outbox worker runs with its period, and then the API listens with its keys on a port
  listening : ℕ → Map Text Text → ℕ → Startup

-- `process.env.X || d`.
abbrev or_default : Option ℕ → ℕ → ℕ
or_default o d = elim o [ none ↦ d | some n ↦ n ]

unfoldable pub start : Settings → Option (Bool × Bool) → Startup
start env role =
    let keys = parse_api_keys env.access_api_keys in
    let up =
      listening (or_default env.outbox_retry_ms 60000) keys (or_default env.access_api_port 3001) in
    elim role [
      | none ↦ no_database
      | some r ↦
          if not (assert_safe_db_role r.0 r.1)
          then unsafe_role
          else if eqb (length keys) 0
          then no_keys
          else up
    ]

-- The API listens only on a role that row security binds and with a key at least, and it serves the
-- keys of its setting.
pub start-listening :
    (env : Settings) (role : Bool × Bool) (retry port : ℕ) (keys : Map Text Text)
    → start env (some role) ≡ listening retry keys port
    → (role.0 ≡ false)
      × (role.1 ≡ false)
      × (0 < length keys)
      × (keys ≡ parse_api_keys env.access_api_keys)
unfolding start assert_safe_db_role
start-listening env role retry port keys up = ground (arith, up)
