-- ===== src/Notifier/History/Laws.antt =====
-- The history stays small, and a full one reaches back a week.
use gemba_blockchain.Base.{
  Bool-cases, List, [], arith, inl, inr, length, ltb, none, some, true, ℕ, ◌*◌, ◌++◌, ◌+◌, ◌-◌, ◌<◌,
  ◌∷◌, ◌≡◌, ◌≢◌, ◌≤◌,
}
use gemba_blockchain.Notifier.History.{hour, week, last_time, is_due, shift, snapshot, week_ago}

module _ {A : Type 0} where
  -- Snapshots more than an hour apart.
  abbrev pub IsHourly : List (ℕ × A) → Type 0
  IsHourly [] = Unit
  IsHourly ((t, x) ∷ []) = Unit
  IsHourly ((t, x) ∷ ((u, y) ∷ ss)) = (t + hour < u) × IsHourly ((u, y) ∷ ss)

  append-IsHourly :
      (hs : List (ℕ × A)) (now : ℕ) (x : A)
      → IsHourly hs
      → is_due now (last_time hs) ≡ true
      → IsHourly (hs ++ (now, x) ∷ [])
  unfolding last_time
  append-IsHourly [] now x h due = tt
  append-IsHourly ((t, y) ∷ []) now x h due = (ground arith, tt)
  append-IsHourly ((t, y) ∷ ((u, z) ∷ ss)) now x (lt, h) due =
      (lt, append-IsHourly ((u, z) ∷ ss) now x h due)

  shift-IsHourly : (hs : List (ℕ × A)) → IsHourly hs → IsHourly (shift hs)
  shift-IsHourly [] h = tt
  shift-IsHourly (s ∷ []) h = tt
  shift-IsHourly (s ∷ (u ∷ ss)) h = h.1

  length-snoc : (hs : List (ℕ × A)) (s : ℕ × A) → length (hs ++ s ∷ []) ≡ length hs + 1
  length-snoc [] s = omega arith
  length-snoc (h ∷ hs) s = omega (arith, length-snoc hs s)

  length-shift : (hs : List (ℕ × A)) → length (shift hs) ≡ length hs - 1
  length-shift [] = omega arith
  length-shift (s ∷ ss) = omega arith

  -- A snapshot keeps the history at no more than 250 entries, each more than an hour after the one
  -- before it.
  pub snapshot-IsHourly :
      (now : ℕ) (x : A) (hs : List (ℕ × A))
      → IsHourly hs
      → length hs ≤ 250
      → IsHourly (snapshot now x hs) × (length (snapshot now x hs) ≤ 250)
  unfolding snapshot
  snapshot-IsHourly now x hs h le = elim (Bool-cases (is_due now (last_time hs))) [
    | inr early ↦ rw (early, snapshot) (h, le)
    | inl due ↦
        let v = append-IsHourly hs now x h due in
        elim (Bool-cases (ltb 250 (length (hs ++ (now, x) ∷ [])))) [
          | inr room ↦ rw (due, room, snapshot) (v, ground arith)
          | inl full ↦
              rw (due, full, snapshot)
                (
                  shift-IsHourly _ v,
                  omega (arith, length-shift (hs ++ (now, x) ∷ []), length-snoc hs (now, x)),
                )
        ]
  ]

  hourly_span :
      (t u : ℕ) (x : A) (ss : List (ℕ × A))
      → IsHourly ((t, x) ∷ ss)
      → last_time ((t, x) ∷ ss) ≡ some u
      → t + length ss * hour ≤ u
  unfolding last_time
  hourly_span t u x [] h e = ground arith
  hourly_span t u x ((v, y) ∷ ss) (lt, h) e = omega (arith, hourly_span v u y ss h e)

  -- With 169 snapshots or more, more than an hour apart, the look back finds one that is at least a
  -- week old.
  pub week_ago-found :
      (now u : ℕ) (hs : List (ℕ × A))
      → IsHourly hs
      → 169 ≤ length hs
      → last_time hs ≡ some u
      → u ≤ now
      → week_ago now hs ≢ none
  unfolding week_ago
  week_ago-found now u [] h le e p q = absurd (omega arith)
  week_ago-found now u ((t, x) ∷ ss) h le e p q =
      let far : t + week ≤ now = omega (arith, hourly_span t u x ss h e) in ground (arith, far, q)
