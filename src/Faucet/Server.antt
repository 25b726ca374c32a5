-- ===== src/Faucet/Server.antt =====
-- services/testnet-faucet/src/faucet.js and src/server.js: one request of `POST /drip`, cut at its two
-- awaits. `admit` is the code before the balance query, `on_balance` the code from there to the send,
-- `on_sent` the rest. What the chain answers is an argument.
pub mod Branches
use gemba_blockchain.Base.{Option, Text, eqb, if◌then◌else◌, ltb, none, some, ℕ, ◌&&◌}
use gemba_blockchain.Js.{Value, text}
use gemba_blockchain.Faucet.Limiter.{CooldownLimiter, try_acquire, remaining, release}
use gemba_blockchain.Faucet.Budget.{Budget, global_budget_allow, global_budget_release}
use gemba_blockchain.Faucet.Validation.{is_evm_address, matches_evm_address}

pub record Config : Type 0 where
  pub daily_global_max : ℕ
  pub min_balance_wei : ℕ

pub record Server : Type 0 where
  pub by_address : CooldownLimiter
  pub by_ip : CooldownLimiter
  pub budget : Budget

pub data Response : Type 0 where
  bad_address : Response
  address_on_cooldown : ℕ → Response
  ip_on_cooldown : ℕ → Response
  budget_reached : Response
  below_floor : Response
  dripped : Text → Text → Response
  internal_error : Response

unfoldable pub status : Response → ℕ
status bad_address = 400
status (address_on_cooldown _) = 429
status (ip_on_cooldown _) = 429
status budget_reached = 429
status below_floor = 503
status (dripped _ _) = 200
status internal_error = 500

pub record Receipt : Type 0 where
  pub status : ℕ
  pub hash : Text

-- What the chain made of a send: the submission or the wait threw, or the wait returned.
pub data Sent : Type 0 where
  threw : Sent
  waited : Option Receipt → Sent

-- `faucet.drip`: `none` where it throws.
unfoldable pub drip : Text → Sent → Option Text
drip to threw = none
drip to (waited none) = none
drip to (waited (some r)) = if matches_evm_address to && eqb r.status 1 then some r.hash else none

pub data Admission : Type 0 where
  answered : Response → Admission
  awaits_balance : Text → Admission

-- The two cooldowns of a request are rolled back.
unfoldable pub release_cooldowns : Server → Text → Text → Server
release_cooldowns s to ip = record s {
  by_address = release s.by_address to;
  by_ip = release s.by_ip ip;
}

-- The cooldowns and the place in the daily budget.
unfoldable pub roll_back : Server → Text → Text → Server
unfolding release_cooldowns
roll_back s to ip = record (release_cooldowns s to ip) { budget = global_budget_release s.budget }

unfoldable pub take_budget : Config → Server → Text → Text → ℕ → Server × Admission
take_budget cfg s to ip now =
    let (b, ok) = global_budget_allow cfg.daily_global_max s.budget now in
    let s' = record s { budget = b } in
    if ok then (s', awaits_balance to) else (release_cooldowns s' to ip, answered budget_reached)

unfoldable pub take_ip : Config → Server → Text → Text → ℕ → Server × Admission
take_ip cfg s to ip now =
    let (l, ok) = try_acquire s.by_ip ip now in
    let s' = record s { by_ip = l } in
    if ok then take_budget cfg s' to ip now else (
      record s' { by_address = release s.by_address to },
      answered (ip_on_cooldown (remaining l ip now)),
    )

unfoldable pub take_address : Config → Server → Text → Text → ℕ → Server × Admission
take_address cfg s to ip now =
    let (l, ok) = try_acquire s.by_address to now in
    let s' = record s { by_address = l } in
    if ok
    then take_ip cfg s' to ip now
    else (s', answered (address_on_cooldown (remaining l to now)))

unfoldable pub admit : Config → Server → Value → Text → ℕ → Server × Admission
admit cfg s (text to) ip now =
    if is_evm_address (text to) then take_address cfg s to ip now else (s, answered bad_address)
admit cfg s _ ip now = (s, answered bad_address)

pub data Verdict : Type 0 where
  replied : Response → Verdict
  sends : Verdict

-- After `await _faucet.balance()`; `none` where the query throws.
unfoldable pub on_balance : Config → Server → Text → Text → Option ℕ → Server × Verdict
on_balance cfg s to ip none = (s, replied internal_error)
on_balance cfg s to ip (some balance) =
    if ltb balance cfg.min_balance_wei then (roll_back s to ip, replied below_floor) else (s, sends)

-- After `await _faucet.drip(to)`.
unfoldable pub on_sent : Server → Text → Text → Sent → Server × Response
on_sent s to ip sent = elim (drip to sent) [
  | some hash ↦ (s, dripped to hash)
  | none ↦ (roll_back s to ip, internal_error)
]

pub data ChainError : Type 0 where
  raw_mode_on_mainnet : ChainError

-- `assertNotRawModeOnMainnet`: `none` where it returns.
unfoldable pub assert_not_raw_mode_on_mainnet : Option Text → ℕ → Option ChainError
assert_not_raw_mode_on_mainnet (some contract) chain_id = none
assert_not_raw_mode_on_mainnet none chain_id =
    if eqb chain_id 821206 then some raw_mode_on_mainnet else none
