-- ===== src/LoadTest/Stress/Tests.antt =====
-- The ramp and the report at concrete measurements.
use gemba_blockchain.Base.{
  List, [], codes, erase, false, insert, lookup, refl, some, text_eq, ◌∷◌, ◌≡◌,
}
use gemba_blockchain.LoadTest.Stress.{KneeTest, Step, run_ramp}
use gemba_blockchain.LoadTest.Stress.Laws.{pressures, has_two_in_row, is_knee, run_ramp-knee_iff}
use gemba_blockchain.LoadTest.Stress.Rows.{
  StressEvent, tracks, scans, reads, sweeps, fresh, stress_events, stress_event, stress_track,
  stress_block, stress_mine, stress_receipt, stress_expire,
}

abbrev knee_test : KneeTest
knee_test = record { p95_ms = 20800; err_rate = 15; plateau_ratio = 70 }

abbrev slow_step : Step
slow_step = record {
  submitted = 2000;
  mined = 1500;
  dt_ms = 45000;
  p95 = 25000;
  interval_submitted = 90;
  interval_failed = 0;
}

run_ramp-knee_iff_example :
    is_knee (run_ramp knee_test 30 15 0 (slow_step ∷ slow_step ∷ []))
    ≡ has_two_in_row false (pressures knee_test 30 15 (slow_step ∷ slow_step ∷ []))
run_ramp-knee_iff_example = run_ramp-knee_iff knee_test 30 15 (slow_step ∷ slow_step ∷ [])

abbrev stress_run : List StressEvent
stress_run =
    tracks (codes "h1") (record { type = codes "revertOp"; submit_ms = 10 })
    ∷ tracks (codes "h2") (record { type = codes "dexSwap"; submit_ms = 20 })
    ∷ scans 500 (codes "h1" ∷ [])
    ∷ reads (some 0)
    ∷ sweeps 130000
    ∷ []

-- In that run one transaction was reverted.
stress_run_test : (stress_events (fresh 120000) stress_run).reverts ≡ 1
unfolding stress_events stress_event stress_track stress_block stress_mine stress_receipt
    stress_expire insert lookup erase
stress_run_test = refl
