-- ===== src/LoadTest/Run/Profile.antt =====
-- endurance/config/profiles.js with `runPhases` of endurance/scripts/run.js. A variable of the environment
-- that is set holds a whole number. Rates are in thousandths, as in LoadTest.Rate.
use gemba_blockchain.Base.{
  List, Option, Text, [], codes, eqb, if◌then◌else◌, ltb, none, some, text_eq, ℕ, ◌*◌, ◌++◌, ◌+◌,
  ◌-◌, ◌/◌, ◌==◌, ◌∷◌,
}

pub record Environment : Type 0 where
  pub target_tps : Option ℕ
  pub ramp_sec : Option ℕ
  pub steady_sec : Option ℕ
  pub start_tps : Option ℕ
  pub concurrency : Option ℕ

-- A phase holds a rate, or goes from one to another.
pub data Pace : Type 0 where
  steady : ℕ → Pace
  ramp : ℕ → ℕ → Pace

pub record Phase : Type 0 where
  pub pace : Pace
  pub duration_sec : ℕ

pub record Profile : Type 0 where
  pub name : Text
  pub concurrency : ℕ
  pub phases : List Phase

abbrev pub or_default : Option ℕ → ℕ → ℕ
or_default o d = elim o [ none ↦ d | some n ↦ n ]

-- `Number(env.CONCURRENCY) || d`: 0 falls back as well.
abbrev pub or_positive : Option ℕ → ℕ → ℕ
or_positive o d = elim o [ none ↦ d | some n ↦ if eqb n 0 then d else n ]

-- `buildProfile`: nothing where it throws.
unfoldable pub build_profile : Text → Environment → Option Profile
build_profile name env =
    let tps = or_default env.target_tps 4 * 1000 in
    let start = or_default env.start_tps 1 * 1000 in
    if name == codes "ENDURANCE"
    then some (record {
      name = codes "ENDURANCE";
      concurrency = or_positive env.concurrency 20;
      phases =
          record { pace = ramp start tps; duration_sec = or_default env.ramp_sec 300 }
          ∷ record { pace = steady tps; duration_sec = or_default env.steady_sec 86400 }
          ∷ [];
    })
    else none

-- The rate of a phase when `elapsed` of its `dur` milliseconds are over:
-- `fromTps + (toTps - fromTps) * (elapsed / dur)`, with the difference spread over the products.
unfoldable pub rate_at : Pace → ℕ → ℕ → ℕ
rate_at (steady tps) elapsed dur = tps
rate_at (ramp from to) elapsed dur = (from * (dur - elapsed) + to * elapsed) / dur

-- The loop of a phase over the readings of the clock, in milliseconds since its start: the rates that it
-- sets. `dur` is the duration in milliseconds.
unfoldable pub run_phase : Pace → ℕ → List ℕ → List ℕ
run_phase pace dur [] = []
run_phase pace dur (elapsed ∷ later) =
    let rest = run_phase pace dur later in
    if ltb elapsed dur then rate_at pace elapsed dur ∷ rest else []

-- `runPhases`, with the readings of each phase, while the run is on.
unfoldable pub run_phases : List (Phase × List ℕ) → List ℕ
run_phases [] = []
run_phases ((ph, readings) ∷ rest) =
    run_phase ph.pace (ph.duration_sec * 1000) readings ++ run_phases rest
