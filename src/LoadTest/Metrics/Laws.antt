-- ===== src/LoadTest/Metrics/Laws.antt =====
-- The totals agree with their classes, the reservoir is bounded and the percentiles are in order.
use gemba_blockchain.Base.{
  All, Bool-cases, List, Map, Text, [], all, arith, get_elem?, inl, inr, insert, leb, leb→le,
  length, length-append, length-drop-one, lookup, ltb, min, none, some, suc, text_eq, zero, ℕ, ◌++◌,
  ◌+◌, ◌-◌, ◌<◌, ◌==◌, ◌∷◌, ◌≡◌, ◌≤◌,
}
use gemba_blockchain.LoadTest.Metrics.{
  Metrics, classify, bump, on_submit, on_submit_fail, on_soft, on_mined, on_revert, on_timeout,
  sort_in, sort, pct, snapshot,
}

pub data Event : Type 0 where
  submits : Text → ℕ → Event
  submit_fails : Text → Event
  is_soft : Text → Event
  is_mined : ℕ → ℕ → Event
  reverts : Event
  times_out : Event
  snapshots : ℕ → ℕ → Event

unfoldable pub record_event : (ℕ → ℕ → ℕ) → Metrics → Event → Metrics
record_event floors m (submits type now) = on_submit m type now
record_event floors m (submit_fails msg) = on_submit_fail m msg
record_event floors m (is_soft msg) = on_soft m msg
record_event floors m (is_mined latency now) = on_mined m latency now
record_event floors m reverts = on_revert m
record_event floors m times_out = on_timeout m
record_event floors m (snapshots inflight now) = (snapshot floors m inflight now).0

unfoldable pub record_events : (ℕ → ℕ → ℕ) → Metrics → List Event → Metrics
record_events floors m [] = m
record_events floors m (e ∷ es) = record_events floors (record_event floors m e) es

unfoldable pub sum_values : Map Text ℕ → ℕ
sum_values [] = 0
sum_values ((k, n) ∷ m) = n + sum_values m

sum_values-insert :
    (k : Text) (n : ℕ) (m : Map Text ℕ)
    → sum_values (insert k n m) + (elim (lookup k m) [ none ↦ 0 | some old ↦ old ])
      ≡ sum_values m + n
unfolding sum_values insert lookup
sum_values-insert k n [] = omega arith
sum_values-insert k n ((j, old) ∷ m) = elim (Bool-cases (j == k)) [
  | inl same ↦ rw same (omega arith)
  | inr other ↦ rw other (omega (arith, sum_values-insert k n m))
]

pub sum_values-bump : (k : Text) (m : Map Text ℕ) → sum_values (bump k m) ≡ sum_values m + 1
unfolding bump
sum_values-bump k m =
    omega (arith, sum_values-insert k ((elim (lookup k m) [ none ↦ 0 | some old ↦ old ]) + 1) m)

-- The totals are the sums of their classes, and at most 5000 latencies are kept.
abbrev pub IsCounted : Metrics → Type 0
IsCounted m =
    (sum_values m.by_type ≡ m.submitted)
    × (sum_values m.errors ≡ m.failed_submit)
    × (sum_values m.soft_errors ≡ m.soft_submit)
    × (length m.lat ≤ 5000)
    × (length m.lat ≤ m.mined)

on_mined-IsCounted :
    (m : Metrics) (latency now : ℕ) → IsCounted m → IsCounted (on_mined m latency now)
unfolding on_mined
on_mined-IsCounted m latency now ok =
    let lat = m.lat ++ latency ∷ [] in
    let grows = length-append m.lat (latency ∷ []) in
    let shifts = length-drop-one lat in
    elim (Bool-cases (ltb 5000 (length lat))) [
      | inl over ↦
          rw over
            (ok.0, ok.1, ok.2, omega (arith, shifts, grows, ok), omega (arith, shifts, grows, ok))
      | inr fits ↦ rw fits (ok.0, ok.1, ok.2, ground (arith, fits), omega (arith, grows, ok))
    ]

record_event-IsCounted :
    (floors : ℕ → ℕ → ℕ) (m : Metrics) (e : Event)
    → IsCounted m
    → IsCounted (record_event floors m e)
unfolding record_event on_submit on_submit_fail on_soft on_revert on_timeout snapshot
record_event-IsCounted floors m (submits type now) ok =
    omega (arith, ok, sum_values-bump type m.by_type)
record_event-IsCounted floors m (submit_fails msg) ok =
    omega (arith, ok, sum_values-bump (classify msg) m.errors)
record_event-IsCounted floors m (is_soft msg) ok =
    omega (arith, ok, sum_values-bump (classify msg) m.soft_errors)
record_event-IsCounted floors m (is_mined latency now) ok = on_mined-IsCounted m latency now ok
record_event-IsCounted floors m reverts ok = ok
record_event-IsCounted floors m times_out ok = ok
record_event-IsCounted floors m (snapshots inflight now) ok = ok

-- Whatever a run counts, the submissions are those of all types, the failures those of all classes
-- of errors, and the latencies are at most 5000 and those of mined transactions.
pub record_events-IsCounted :
    (floors : ℕ → ℕ → ℕ) (es : List Event) (m : Metrics)
    → IsCounted m
    → IsCounted (record_events floors m es)
unfolding record_events
record_events-IsCounted floors [] m ok = ok
record_events-IsCounted floors (e ∷ es) m ok =
    record_events-IsCounted floors es (record_event floors m e)
      (record_event-IsCounted floors m e ok)

-- The order of the sorted latencies.
abbrev pub IsSorted : List ℕ → Type 0
IsSorted [] = Unit
IsSorted (x ∷ xs) = All (λ y. x ≤ y) xs × IsSorted xs

All-sort_in :
    (x y : ℕ) (ys : List ℕ) → x ≤ y → All (λ z. x ≤ z) ys → All (λ z. x ≤ z) (sort_in y ys)
unfolding sort_in
All-sort_in x y [] le all = (le, tt)
All-sort_in x y (z ∷ ys) le all = ground (arith, All-sort_in x y ys le all.1)

All-weaken : (x y : ℕ) (ys : List ℕ) → x ≤ y → All (λ z. y ≤ z) ys → All (λ z. x ≤ z) ys
All-weaken x y [] le all = tt
All-weaken x y (z ∷ ys) le all = (omega arith, All-weaken x y ys le all.1)

sort_in-IsSorted : (x : ℕ) (ys : List ℕ) → IsSorted ys → IsSorted (sort_in x ys)
unfolding sort_in
sort_in-IsSorted x [] ok = (tt, tt)
sort_in-IsSorted x (y ∷ ys) ok = elim (Bool-cases (leb x y)) [
  | inl le ↦ rw le ((leb→le x y le, All-weaken x y ys (leb→le x y le) ok.0), ok)
  | inr gt ↦ rw gt (All-sort_in y x ys (ground (arith, gt)) ok.0, sort_in-IsSorted x ys ok.1)
]

sort-IsSorted : (xs : List ℕ) → IsSorted (sort xs)
unfolding sort
sort-IsSorted [] = tt
sort-IsSorted (x ∷ xs) = sort_in-IsSorted x (sort xs) (sort-IsSorted xs)

-- An element of a list, past its end 0.
abbrev at : List ℕ → ℕ → ℕ
at xs i = elim (get_elem? xs i) [ none ↦ 0 | some x ↦ x ]

at-All : (x : ℕ) (ys : List ℕ) (i : ℕ) → All (λ z. x ≤ z) ys → i < length ys → x ≤ at ys i
at-All x [] i all inside = absurd (omega (arith, inside))
at-All x (y ∷ ys) zero all inside = all.0
at-All x (y ∷ ys) (suc i) all inside = at-All x ys i all.1 (omega (arith, inside))

at-le : (xs : List ℕ) (i j : ℕ) → IsSorted xs → i ≤ j → j < length xs → at xs i ≤ at xs j
at-le [] i j ok le inside = absurd (omega (arith, inside))
at-le (x ∷ xs) zero zero ok le inside = omega arith
at-le (x ∷ xs) zero (suc j) ok le inside = at-All x xs j ok.0 (omega (arith, inside))
at-le (x ∷ xs) (suc i) zero ok le inside = absurd (omega (arith, le))
at-le (x ∷ xs) (suc i) (suc j) ok le inside =
    at-le xs i j ok.1 (omega (arith, le)) (omega (arith, inside))

pct-le : (xs : List ℕ) (i j : ℕ) → IsSorted xs → i ≤ j → pct xs i ≤ pct xs j
unfolding pct
pct-le [] i j ok le = omega arith
pct-le (x ∷ xs) i j ok le =
    at-le (x ∷ xs) (min (length (x ∷ xs) - 1) i) (min (length (x ∷ xs) - 1) j) ok
      (omega (arith, le)) (omega arith)

-- The percentiles of a snapshot are in order, if the positions in the sorted latencies are.
pub snapshot-percentiles :
    (floors : ℕ → ℕ → ℕ) (m : Metrics) (inflight now : ℕ)
    → ((n : ℕ) → (floors 50 n ≤ floors 95 n) × (floors 95 n ≤ floors 99 n))
    → let s = (snapshot floors m inflight now).1 in (s.p50 ≤ s.p95) × (s.p95 ≤ s.p99)
unfolding snapshot
snapshot-percentiles floors m inflight now ordered =
    let lat = sort m.lat in
    let n = length lat in
    (
      pct-le lat (floors 50 n) (floors 95 n) (sort-IsSorted m.lat) (ordered n).0,
      pct-le lat (floors 95 n) (floors 99 n) (sort-IsSorted m.lat) (ordered n).1,
    )
