-- ===== src/LoadTest/Stress/Profile.antt =====
-- stress/config/profiles.js: the three profiles. A variable that is set holds a whole number, and
-- `Math.round` rounds a half up.
use gemba_blockchain.Base.{
  List, Option, Text, [], codes, if◌then◌else◌, max, none, some, text_eq, ℕ, ◌*◌, ◌+◌, ◌/◌, ◌==◌,
  ◌∷◌,
}
use gemba_blockchain.LoadTest.Run.Profile.{Pace, steady, ramp, Phase, or_default, or_positive}
use gemba_blockchain.LoadTest.Stress.{KneeTest}

pub record Environment : Type 0 where
  pub target_tps : Option ℕ
  pub soak_tps : Option ℕ
  pub block_ms : Option ℕ
  pub concurrency : Option ℕ

pub record RampPlan : Type 0 where
  pub warmup_sec : ℕ
  pub start_tps : ℕ
  pub step_tps : ℕ
  pub step_sec : ℕ
  pub max_duration_sec : ℕ
  pub knee : KneeTest

pub data Mode : Type 0 where
  by_ramp : RampPlan → Mode
  by_phases : List Phase → Mode

pub record StressProfile : Type 0 where
  pub name : Text
  pub weights : Text
  pub concurrency : ℕ
  pub mode : Mode

-- `Math.round(n * tenths / 10)`.
abbrev pub round_tenths : ℕ → ℕ → ℕ
round_tenths n tenths = (n * tenths + 5) / 10

abbrev pub phase : Pace → ℕ → Phase
phase pace sec = record { pace = pace; duration_sec = sec }

unfoldable pub target_of : Environment → ℕ
target_of env = or_default env.target_tps 50

unfoldable pub soak_of : Environment → ℕ
soak_of env = or_default env.soak_tps (max 5 (round_tenths (target_of env) 4))

-- `buildProfile`: nothing where it throws.
unfoldable pub build_stress_profile : Text → Environment → Option StressProfile
build_stress_profile name env =
    let target = target_of env in
    let soak = soak_of env in
    if name == codes "A"
    then some (record {
      name = codes "A";
      weights = codes "all";
      concurrency = or_positive env.concurrency 600;
      mode = by_ramp (record {
        warmup_sec = 60;
        start_tps = 15;
        step_tps = 30;
        step_sec = 45;
        max_duration_sec = 1800;
        knee = record {
          p95_ms = 4 * or_default env.block_ms 5200;
          err_rate = 15;
          plateau_ratio = 70;
        };
      });
    })
    else if name == codes "B"
    then some (record {
      name = codes "B";
      weights = codes "all";
      concurrency = or_positive env.concurrency 350;
      mode = by_phases (
          phase (ramp 5 target) 300
          ∷ phase (steady (round_tenths target 8)) 6660
          ∷ phase (steady (round_tenths target 15)) 120
          ∷ phase (steady (round_tenths target 5)) 120
          ∷ []);
    })
    else if name == codes "C"
    then some (record {
      name = codes "C";
      weights = codes "soak";
      concurrency = or_positive env.concurrency 200;
      mode = by_phases (phase (ramp 5 soak) 300 ∷ phase (steady soak) 14100 ∷ []);
    })
    else none
