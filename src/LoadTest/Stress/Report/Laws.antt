-- ===== src/LoadTest/Stress/Report/Laws.antt =====
-- The counts of a report.
use gemba_blockchain.Base.{
  Bool-cases, List, Option-cases, Text, [], arith, eqb, inl, inr, length, length-append, ℕ, ◌+◌,
  ◌∷◌, ◌≡◌, ◌≤◌,
}
use gemba_blockchain.LoadTest.Metrics.{bump}
use gemba_blockchain.LoadTest.Metrics.Laws.{sum_values, sum_values-bump}
use gemba_blockchain.LoadTest.Stress.Report.{
  RowStatus, absent, timed_out, numeric, Row, Tally, add_latency, judge_row, count_row, count_rows,
}

abbrev pub IsTallied : Tally → Type 0
IsTallied c =
    (c.tx_total ≡ c.ok + c.reverted + c.timeout)
    × (sum_values c.by_type ≡ c.tx_total)
    × (sum_values c.by_type_revert ≡ c.reverted)
    × (length c.lat ≤ 300000)

add_latency-bounded :
    (t : Row) (lat : List ℕ) → length lat ≤ 300000 → length (add_latency t lat) ≤ 300000
unfolding add_latency
add_latency-bounded t lat fits = elim (Option-cases t.latency_ms) [
  | inl missing ↦ rw (missing, add_latency) fits
  | inr (ms, there) ↦ rw (there, add_latency) (ground (arith, fits, length-append lat (ms ∷ [])))
]

-- A tally with one row more than its branches have counted.
judge_row-IsTallied :
    (c : Tally) (type : Text) (status : RowStatus)
    → c.tx_total ≡ c.ok + c.reverted + c.timeout + 1
    → sum_values c.by_type ≡ c.tx_total
    → sum_values c.by_type_revert ≡ c.reverted
    → length c.lat ≤ 300000
    → IsTallied (judge_row c type status)
unfolding judge_row
judge_row-IsTallied c type absent total types reverts fits =
    (omega (arith, total), types, reverts, fits)
judge_row-IsTallied c type timed_out total types reverts fits =
    (omega (arith, total), types, reverts, fits)
judge_row-IsTallied c type (numeric n) total types reverts fits = elim (Bool-cases (eqb n 0)) [
  | inl failed ↦
      rw (failed, judge_row)
        (
          omega (arith, total),
          types,
          omega (arith, reverts, sum_values-bump type c.by_type_revert),
          fits,
        )
  | inr went ↦ rw (went, judge_row) (omega (arith, total), types, reverts, fits)
]

count_row-IsTallied : (c : Tally) (t : Row) → IsTallied c → IsTallied (count_row c t)
unfolding count_row
count_row-IsTallied c t ok =
    let counted : Tally = record c {
      tx_total = c.tx_total + 1;
      by_type = bump t.type c.by_type;
      lat = add_latency t c.lat;
    } in
    judge_row-IsTallied counted t.type t.status (omega (arith, ok.0))
      (omega (arith, ok.1, sum_values-bump t.type c.by_type)) ok.2
      (add_latency-bounded t c.lat ok.3)

-- Whatever rows are counted, each one is mined, reverted or timed out, and the types add up.
pub count_rows-IsTallied : (ts : List Row) (c : Tally) → IsTallied c → IsTallied (count_rows c ts)
unfolding count_rows
count_rows-IsTallied [] c ok = ok
count_rows-IsTallied (t ∷ ts) c ok =
    count_rows-IsTallied ts (count_row c t) (count_row-IsTallied c t ok)
