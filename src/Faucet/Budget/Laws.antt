-- ===== src/Faucet/Budget/Laws.antt =====
-- The daily budget over a history of calls.
use gemba_blockchain.Base.{
  All, List, [], arith, if◌then◌else◌, suc, zero, ℕ, ◌+◌, ◌<◌, ◌∷◌, ◌≡◌, ◌≢◌, ◌≤◌,
}
use gemba_blockchain.Faucet.Budget.{Budget, day_of, global_budget_allow, global_budget_release}

pub data Call : Type 0 where
  allow : ℕ → Call
  give_back : Call

-- The budget after the calls, with the number of drips allowed and of drips given back.
unfoldable pub run : ℕ → Budget → List Call → ℕ → ℕ → Budget × ℕ × ℕ
run daily_max b [] granted released = (b, granted, released)
run daily_max b (allow now ∷ cs) granted released =
    let (b', ok) = global_budget_allow daily_max b now in
    run daily_max b' cs (if ok then granted + 1 else granted) released
run daily_max b (give_back ∷ cs) granted released =
    run daily_max (global_budget_release b) cs granted (released + 1)

-- Every request of the history falls on the day `d`.
abbrev pub IsOn : ℕ → Call → Type 0
IsOn d (allow now) = day_of now ≡ d
IsOn d give_back = Unit

run_bounded :
    (daily_max d : ℕ) (cs : List Call) (b : Budget) (granted released : ℕ)
    → All (IsOn d) cs
    → b.drip_day ≡ d
    → b.drip_count_today ≤ daily_max
    → granted ≤ b.drip_count_today + released
    → (run daily_max b cs granted released).1 ≤ daily_max + (run daily_max b cs granted released).2
unfolding run global_budget_allow global_budget_release
run_bounded daily_max d [] b granted released f e h k = omega arith
run_bounded daily_max d (allow now ∷ cs) b granted released (f, fs) e h k = ground (
  arith,
  run_bounded daily_max d cs (global_budget_allow daily_max b now).0 (granted + 1) released fs,
  run_bounded daily_max d cs (global_budget_allow daily_max b now).0 granted released fs,
)
run_bounded daily_max d (give_back ∷ cs) b granted released (f, fs) e h k =
    ground (arith, run_bounded daily_max d cs (global_budget_release b) granted (released + 1) fs)

-- Within one day, from the first request of that day on, at most `DAILY_GLOBAL_MAX` drips are
-- allowed over those that were given back.
pub daily_budget_bound :
    (daily_max d first : ℕ) (cs : List Call) (b : Budget)
    → All (IsOn d) (allow first ∷ cs)
    → b.drip_day ≢ d
    → (run daily_max b (allow first ∷ cs) 0 0).1
      ≤ daily_max + (run daily_max b (allow first ∷ cs) 0 0).2
unfolding run global_budget_allow
daily_budget_bound daily_max d first cs b (f, fs) h = ground (
  arith,
  run_bounded daily_max d cs (global_budget_allow daily_max b first).0 1 0 fs,
  run_bounded daily_max d cs (global_budget_allow daily_max b first).0 0 0 fs,
)

-- So many requests at one time, and the calls behind them.
unfoldable pub allows : ℕ → ℕ → List Call → List Call
allows zero now rest = rest
allows (suc k) now rest = allow now ∷ allows k now rest

run-allows :
    (daily_max now k count granted : ℕ) (rest : List Call)
    → count + k ≤ daily_max
    → run daily_max
        (record { drip_day = day_of now; drip_count_today = count })
        (allows k now rest)
        granted
        0
      ≡ run daily_max
          (record { drip_day = day_of now; drip_count_today = count + k })
          rest
          (granted + k)
          0
unfolding run allows global_budget_allow
run-allows daily_max now zero count granted rest h = ground arith
run-allows daily_max now (suc k) count granted rest h =
    ground (arith, run-allows daily_max now k (count + 1) (granted + 1) rest)

-- A drip that was allowed on an earlier day and is given back today frees a place of today: the
-- budget then allows, on one day, one drip more than `DAILY_GLOBAL_MAX`, though none of that day
-- was given back.
pub stale_release_exceeds_budget :
    (daily_max before now : ℕ) (b : Budget)
    → 0 < daily_max
    → b.drip_day ≢ day_of before
    → day_of before ≢ day_of now
    → run daily_max b (allow before ∷ allows daily_max now (give_back ∷ allow now ∷ [])) 0 0
      ≡ (record { drip_day = day_of now; drip_count_today = daily_max }, 1 + (daily_max + 1), 1)
unfolding run allows global_budget_allow global_budget_release
stale_release_exceeds_budget zero before now b pos other later_day = absurd (omega arith)
stale_release_exceeds_budget (suc k) before now b pos other later_day =
    ground (arith, run-allows (suc k) now k 1 2 (give_back ∷ allow now ∷ []))
