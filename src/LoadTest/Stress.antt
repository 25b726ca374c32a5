-- ===== src/LoadTest/Stress.antt =====
-- stress: the older load test, where it differs from endurance. This file has the collector of
-- stress/lib/receiptCollector.js and the search for the knee of stress/scripts/run.js.
pub mod Profile
pub mod Report
pub mod Rows
pub mod Log
pub mod Workload
pub mod Laws
mod Tests
use gemba_blockchain.Base.{
  Bool, List, Option, Text, [], eqb, if◌then◌else◌, leb, ltb, none, some, suc, zero, ℕ, ◌&&◌, ◌*◌,
  ◌+◌, ◌-◌, ◌||◌, ◌∷◌,
}

-- The inner loop of `_blockLoop`, over so many blocks from `n` on: those that `getBlock` returned.
unfoldable pub scan_from : (ℕ → Bool) → ℕ → ℕ → List ℕ
scan_from fetched n zero = []
scan_from fetched n (suc k) =
    let rest = scan_from fetched (n + 1) k in if fetched n then n ∷ rest else rest

-- A round of `_blockLoop`: `lastBlock` becomes the height, whatever was fetched.
unfoldable pub stress_round : (ℕ → Bool) → ℕ → Option ℕ → List ℕ × ℕ
stress_round fetched last none = ([], last)
stress_round fetched last (some bn) =
    let from = if eqb last 0 then bn else last + 1 in
    if ltb last bn then (scan_from fetched from (bn + 1 - from), bn) else ([], last)

-- A transaction in flight, with the hash that it was tracked under.
pub record Tracked : Type 0 where
  pub hash : Text
  pub from : Text
  pub submit_ms : ℕ

-- A round of `_sweepLoop`: what stays in flight, and the wallets that are settled.
unfoldable pub stress_sweep : ℕ → ℕ → List Tracked → List Tracked × List Text
stress_sweep timeout now [] = ([], [])
stress_sweep timeout now (m ∷ ms) =
    let rest = stress_sweep timeout now ms in
    if ltb timeout (now - m.submit_ms) then (rest.0, m.from ∷ rest.1) else (m ∷ rest.0, rest.1)

-- The knee of a profile: latency, and the two ratios in hundredths.
pub record KneeTest : Type 0 where
  pub p95_ms : ℕ
  pub err_rate : ℕ
  pub plateau_ratio : ℕ

-- What a step of the ramp measures: the transactions, its length and the last snapshot.
pub record Step : Type 0 where
  pub submitted : ℕ
  pub mined : ℕ
  pub dt_ms : ℕ
  pub p95 : ℕ
  pub interval_submitted : ℕ
  pub interval_failed : ℕ

-- `submitRate >= target * 0.8 && minedRate < submitRate * k.plateauRatio`, without the quotients; the
-- rounding of doubles is left out.
unfoldable pub is_plateau : KneeTest → ℕ → Step → Bool
is_plateau k target s =
    leb (target * 8 * s.dt_ms) (s.submitted * 10000)
    && ltb (s.mined * 100) (s.submitted * k.plateau_ratio)

pub data Reason : Type 0 where
  by_p95 : Reason
  by_plateau : Reason
  by_errors : Reason

unfoldable pub is_slow : KneeTest → Step → Bool
is_slow k s = ltb k.p95_ms s.p95

-- `cond`. The error rate of an interval without submissions is 0.
unfoldable pub has_pressure : KneeTest → ℕ → Step → Bool
has_pressure k target s =
    is_slow k s
    || (ltb 0 s.interval_submitted
        && ltb (k.err_rate * s.interval_submitted) (s.interval_failed * 100))
    || is_plateau k target s

unfoldable pub reason_of : KneeTest → ℕ → Step → Reason
reason_of k target s =
    if is_slow k s then by_p95 else if is_plateau k target s then by_plateau else by_errors

-- The loop of `runRamp`, from a target and a count of bad steps on, over the steps until the run stops or
-- its time is over: the knee, or the last target without one. The rates that go with it are left out.
pub data Ramp : Type 0 where
  knee : ℕ → Reason → Ramp
  max_duration : ℕ → Ramp

unfoldable pub run_ramp : KneeTest → ℕ → ℕ → ℕ → List Step → Ramp
run_ramp k step_tps target bad [] = max_duration target
run_ramp k step_tps target bad (s ∷ later) =
    let next = target + step_tps in
    let calm = run_ramp k step_tps next 0 later in
    let worse = run_ramp k step_tps next (bad + 1) later in
    if has_pressure k next s
    then (if leb 2 (bad + 1) then knee next (reason_of k next s) else worse)
    else calm
