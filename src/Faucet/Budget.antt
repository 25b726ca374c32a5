-- ===== src/Faucet/Budget.antt =====
-- services/testnet-faucet/src/server.js: the global daily budget.
pub mod Laws
use gemba_blockchain.Base.{Bool, eqb, false, if◌then◌else◌, leb, ltb, true, ℕ, ◌+◌, ◌-◌, ◌/◌}

-- The module variables `dripDay` and `dripCountToday`.
pub record Budget : Type 0 where
  pub drip_day : ℕ
  pub drip_count_today : ℕ

-- `Math.floor(now / 86_400_000)`
abbrev pub day_of : ℕ → ℕ
day_of now = now / 86_400_000

-- The day's roll-over at the head of `globalBudgetAllow`.
abbrev pub rolled : Budget → ℕ → Budget
rolled b now =
    if eqb (day_of now) b.drip_day
    then b
    else record { drip_day = day_of now; drip_count_today = 0 }

unfoldable pub global_budget_allow : ℕ → Budget → ℕ → Budget × Bool
global_budget_allow daily_max b now =
    let b' = rolled b now in
    if leb daily_max b'.drip_count_today
    then (b', false)
    else (record b' { drip_count_today = b'.drip_count_today + 1 }, true)

unfoldable pub global_budget_release : Budget → Budget
global_budget_release b =
    if ltb 0 b.drip_count_today then record b { drip_count_today = b.drip_count_today - 1 } else b
