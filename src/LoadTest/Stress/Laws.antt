-- ===== src/LoadTest/Stress/Laws.antt =====
-- The knee is two steps under pressure in a row, a block that fails is lost, and the sweep settles what is late.
use gemba_blockchain.Base.{
  All, All-append, Bool, Bool-cases, List, Option, [], all, arith, eqb, false, if◌then◌else◌, inl,
  inr, length, ltb, ltb→lt, none, refl, some, suc, true, zero, ℕ, ◌&&◌, ◌++◌, ◌+◌, ◌-◌, ◌<◌, ◌||◌,
  ◌∷◌, ◌≡◌, ◌≤◌,
}
use gemba_blockchain.LoadTest.Stress.{
  scan_from, stress_round, Tracked, stress_sweep, KneeTest, Step, has_pressure, Ramp, knee,
  max_duration, run_ramp,
}

-- Which steps are under pressure, each against its own target.
unfoldable pub pressures : KneeTest → ℕ → ℕ → List Step → List Bool
pressures k step_tps target [] = []
pressures k step_tps target (s ∷ later) =
    has_pressure k (target + step_tps) s ∷ pressures k step_tps (target + step_tps) later

-- Whether two of them are true in a row, where the one before was as given.
unfoldable pub has_two_in_row : Bool → List Bool → Bool
has_two_in_row before [] = false
has_two_in_row before (p ∷ ps) = (before && p) || has_two_in_row p ps

unfoldable pub is_knee : Ramp → Bool
is_knee (knee target reason) = true
is_knee (max_duration target) = false

run_ramp-from :
    (k : KneeTest) (step_tps target bad : ℕ) (steps : List Step)
    → bad ≤ 1
    → is_knee (run_ramp k step_tps target bad steps)
      ≡ has_two_in_row (eqb bad 1) (pressures k step_tps target steps)
unfolding run_ramp is_knee has_two_in_row pressures
run_ramp-from k step_tps target bad [] small = refl
run_ramp-from k step_tps target bad (s ∷ later) small =
    let next = target + step_tps in
    let calm = run_ramp-from k step_tps next 0 later (omega arith) in
    elim (Bool-cases (has_pressure k next s)) [
      | inr light ↦ rw (light, run_ramp, pressures) (ground (arith, calm))
      | inl heavy ↦ elim (Bool-cases (eqb bad 1)) [
        | inl second ↦ rw (heavy, run_ramp, pressures) (ground (arith, second))
        | inr first ↦
            let worse =
              run_ramp-from k step_tps next (bad + 1) later (ground (arith, small, first)) in
            rw (heavy, run_ramp, pressures) (ground (arith, small, first, worse))
      ]
    ]

-- The ramp ends with a knee exactly when two steps in a row are under pressure, each against its
-- own target.
pub run_ramp-knee_iff :
    (k : KneeTest) (step_tps target : ℕ) (steps : List Step)
    → is_knee (run_ramp k step_tps target 0 steps)
      ≡ has_two_in_row false (pressures k step_tps target steps)
run_ramp-knee_iff k step_tps target steps = run_ramp-from k step_tps target 0 steps (omega arith)

All-scan_from :
    (fetched : ℕ → Bool) (last n k : ℕ) → last < n → All (λ b. last < b) (scan_from fetched n k)
unfolding scan_from
All-scan_from fetched last n zero past = tt
All-scan_from fetched last n (suc k) past =
    ground (arith, past, All-scan_from fetched last (n + 1) k (omega (arith, past)))

-- Rounds of the loop, each with the height and what `getBlock` finds.
unfoldable pub stress_rounds : ℕ → List (Option ℕ × (ℕ → Bool)) → List ℕ
stress_rounds last [] = []
stress_rounds last (r ∷ rs) = let now = stress_round r.1 last r.0 in now.0 ++ stress_rounds now.1 rs

stress_round-past :
    (fetched : ℕ → Bool) (last : ℕ) (height : Option ℕ)
    → let r = stress_round fetched last height in (last ≤ r.1) × All (λ b. last < b) r.0
unfolding stress_round
stress_round-past fetched last none = (omega arith, tt)
stress_round-past fetched last (some bn) = elim (Bool-cases (ltb last bn)) [
  | inr behind ↦ rw (behind, stress_round) (omega arith, tt)
  | inl ahead ↦
      let up : last < bn = ltb→lt last bn ahead in
      let from : ℕ = if eqb last 0 then bn else last + 1 in
      let past : last < from = ground (arith, up) in
      rw (ahead, stress_round)
        (omega (arith, up), All-scan_from fetched last from (bn + 1 - from) past)
]

All-weaken : (a b : ℕ) (xs : List ℕ) → a ≤ b → All (λ x. b < x) xs → All (λ x. a < x) xs
All-weaken a b [] le all = tt
All-weaken a b (x ∷ xs) le all = (omega (arith, le, all.0), All-weaken a b xs le all.1)

-- Later rounds scan only blocks above the last one: a block of an earlier round whose `getBlock` failed is
-- never scanned, and its transactions run into their timeout.
pub stress_rounds-past :
    (rs : List (Option ℕ × (ℕ → Bool))) (last : ℕ) → All (λ b. last < b) (stress_rounds last rs)
unfolding stress_rounds
stress_rounds-past [] last = tt
stress_rounds-past (r ∷ rs) last =
    let now = stress_round-past r.1 last r.0 in
    let mid = (stress_round r.1 last r.0).1 in
    All-append (λ b. last < b) (stress_round r.1 last r.0).0 (stress_rounds mid rs) now.1
      (All-weaken last mid (stress_rounds mid rs) now.0 (stress_rounds-past rs mid))

-- A sweep settles as many wallets as it takes out of flight, and leaves those that are in time.
pub stress_sweep-settles :
    (timeout now : ℕ) (ms : List Tracked)
    → let r = stress_sweep timeout now ms in
      (length r.0 + length r.1 ≡ length ms) × All (λ m. now ≤ m.submit_ms + timeout) r.0
unfolding stress_sweep
stress_sweep-settles timeout now [] = (omega arith, tt)
stress_sweep-settles timeout now (m ∷ ms) =
    let rest = stress_sweep-settles timeout now ms in
    elim (Bool-cases (ltb timeout (now - m.submit_ms))) [
      | inl late ↦ rw (late, stress_sweep) (omega (arith, rest.0), rest.1)
      | inr in_time ↦
          rw (in_time, stress_sweep) (omega (arith, rest.0), (ground (arith, in_time), rest.1))
    ]
