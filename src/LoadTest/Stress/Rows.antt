-- ===== src/LoadTest/Stress/Rows.antt =====
-- stress/lib/receiptCollector.js: the rows that the collector writes to the logs `tx` and `errors`, with its counters.
use gemba_blockchain.Base.{
  List, Map, Option, Text, [], codes, eqb, erase, if◌then◌else◌, insert, length, lookup, ltb, none,
  some, text_eq, ℕ, ◌++◌, ◌+◌, ◌-◌, ◌∷◌,
}
use gemba_blockchain.LoadTest.Stress.Report.{Row, absent, timed_out, ErrorRow, of_kind}

-- `{submitMs, row}`, with the type of the row; the row that run.js tracks has no status.
pub record Pending : Type 0 where
  pub type : Text
  pub submit_ms : ℕ

-- A receipt still to be asked for.
pub record Job : Type 0 where
  pub job_hash : Text
  pub job_type : Text

pub record StressCollector : Type 0 where
  pub timeout_ms : ℕ
  pub inflight : Map Text Pending
  pub receipt_queue : List Job
  pub tx_log : List Row
  pub errors_log : List ErrorRow
  -- the counters of the metrics
  pub mined : ℕ
  pub timeouts : ℕ
  pub reverts : ℕ

unfoldable pub stress_track : StressCollector → Text → Pending → StressCollector
stress_track c hash m = record c { inflight = insert hash m c.inflight }

-- One hash of a block, at a reading of the clock.
unfoldable pub stress_mine : ℕ → StressCollector → Text → StressCollector
stress_mine now c hash = elim (lookup hash c.inflight) [
  | none ↦ c
  | some m ↦ record c {
    inflight = erase hash c.inflight;
    mined = c.mined + 1;
    tx_log =
        c.tx_log
        ++ record { type = m.type; status = absent; latency_ms = some (now - m.submit_ms) } ∷ [];
    receipt_queue =
        if ltb (length c.receipt_queue) 100000
        then c.receipt_queue ++ record { job_hash = hash; job_type = m.type } ∷ []
        else c.receipt_queue;
  }
]

unfoldable pub stress_block : ℕ → StressCollector → List Text → StressCollector
stress_block now c [] = c
stress_block now c (hash ∷ hashes) = stress_block now (stress_mine now c hash) hashes

-- One round of `_receiptWorker`: the status of the receipt, if one came; the answer is taken to come before the next
-- event, and the counts do not depend on it. A revert is written to `errors` alone.
unfoldable pub stress_receipt : StressCollector → Option ℕ → StressCollector
stress_receipt c status = elim c.receipt_queue [
  | [] ↦ c
  | job ∷ jobs ↦
      let taken = record c { receipt_queue = jobs } in
      elim status [
        | none ↦ taken
        | some s ↦
            if eqb s 0
            then record taken {
              reverts = c.reverts + 1;
              errors_log = c.errors_log ++ of_kind (codes "revert") ∷ [];
            }
            else taken
      ]
]

-- One round of `_sweepLoop`, from an entry of the map on.
unfoldable pub stress_expire : ℕ → Map Text Pending → StressCollector → StressCollector
stress_expire now [] c = c
stress_expire now ((hash, m) ∷ rest) c =
    let lost : StressCollector = record c {
      inflight = erase hash c.inflight;
      timeouts = c.timeouts + 1;
      tx_log =
          c.tx_log
          ++ record { type = m.type; status = timed_out; latency_ms = some (now - m.submit_ms) }
            ∷ [];
      errors_log = c.errors_log ++ of_kind (codes "timeout") ∷ [];
    } in
    stress_expire now rest (if ltb c.timeout_ms (now - m.submit_ms) then lost else c)

-- What happens to the collector.
pub data StressEvent : Type 0 where
  tracks : Text → Pending → StressEvent
  scans : ℕ → List Text → StressEvent
  reads : Option ℕ → StressEvent
  sweeps : ℕ → StressEvent

unfoldable pub stress_event : StressCollector → StressEvent → StressCollector
stress_event c (tracks hash m) = stress_track c hash m
stress_event c (scans now hashes) = stress_block now c hashes
stress_event c (reads status) = stress_receipt c status
stress_event c (sweeps now) = stress_expire now c.inflight c

unfoldable pub stress_events : StressCollector → List StressEvent → StressCollector
stress_events c [] = c
stress_events c (e ∷ es) = stress_events (stress_event c e) es

abbrev pub fresh : ℕ → StressCollector
fresh timeout = record {
  timeout_ms = timeout;
  inflight = [];
  receipt_queue = [];
  tx_log = [];
  errors_log = [];
  mined = 0;
  timeouts = 0;
  reverts = 0;
}
