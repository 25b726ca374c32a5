-- ===== src/Notifier/History.antt =====
-- services/blockchain-notifier/src/index.js: the hourly snapshots `state.bondedHistory` and
-- `state.shareSnapshots`, and the look back over seven days. Times are milliseconds.
pub mod Laws
use gemba_blockchain.Base.{
  Bool, List, Option, [], if◌then◌else◌, leb, length, ltb, none, some, true, ℕ, ◌++◌, ◌+◌, ◌∷◌,
}

abbrev pub hour : ℕ
hour = 3_600_000

abbrev pub week : ℕ
week = 604_800_000

-- `!last || now - last.t > 3600_000`
abbrev pub is_due : ℕ → Option ℕ → Bool
is_due now none = true
is_due now (some t) = ltb (t + hour) now

module _ {A : Type 0} where
  -- The time of the last snapshot.
  unfoldable pub last_time : List (ℕ × A) → Option ℕ
  last_time [] = none
  last_time ((t, x) ∷ []) = some t
  last_time ((t, x) ∷ (s ∷ ss)) = last_time (s ∷ ss)

  abbrev pub shift : List (ℕ × A) → List (ℕ × A)
  shift [] = []
  shift (s ∷ ss) = ss

  unfoldable pub snapshot : ℕ → A → List (ℕ × A) → List (ℕ × A)
  snapshot now x hs =
      if is_due now (last_time hs)
      then if ltb 250 (length (hs ++ (now, x) ∷ []))
        then shift (hs ++ (now, x) ∷ [])
        else hs ++ (now, x) ∷ []
      else hs

  -- `find((s) => now - s.t >= 7 * 86400_000)`
  unfoldable pub week_ago : ℕ → List (ℕ × A) → Option (ℕ × A)
  week_ago now [] = none
  week_ago now ((t, x) ∷ ss) =
      let rest = week_ago now ss in if leb (t + week) now then some (t, x) else rest
