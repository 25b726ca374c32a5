-- ===== src/Faucet/Limiter.antt =====
-- services/testnet-faucet/src/ratelimit.js: the per-key cooldown limiter. Times are milliseconds;
-- `now` is an argument, as in the source, and may run backwards.
pub mod Laws
use gemba_blockchain.Base.{
  Bool, Map, Text, erase, false, filter_map, if◌then◌else◌, insert, leb, lookup, ltb, none, not,
  some, text_eq, true, ℕ, ◌+◌, ◌-◌,
}

pub record CooldownLimiter : Type 0 where
  pub cooldown_ms : ℕ
  -- key -> last-acquire timestamp
  pub last : Map Text ℕ

-- `Math.max(0, cooldownMs - (now - t))`, at integers of any sign.
unfoldable pub remaining : CooldownLimiter → Text → ℕ → ℕ
remaining l key now = elim (lookup key l.last) [ none ↦ 0 | some t ↦ l.cooldown_ms + t - now ]

-- `now - t >= cooldownMs`
abbrev pub has_elapsed : ℕ → ℕ → ℕ → Bool
has_elapsed cooldown now t = leb (cooldown + t) now

unfoldable pub sweep : CooldownLimiter → ℕ → CooldownLimiter
sweep l now = record l { last = filter_map (λ t. not (has_elapsed l.cooldown_ms now t)) l.last }

unfoldable pub try_acquire : CooldownLimiter → Text → ℕ → CooldownLimiter × Bool
try_acquire l key now =
    if ltb 0 (remaining l key now)
    then (l, false)
    else let swept = sweep l now in (record swept { last = insert key now swept.last }, true)

unfoldable pub release : CooldownLimiter → Text → CooldownLimiter
release l key = record l { last = erase key l.last }
