-- ===== src/LoadTest/Stress/Log.antt =====
-- stress/lib/receiptCollector.js with stress/scripts/analyze.js: what the report counts of the rows that the
-- collector writes.
use gemba_blockchain.Base.{List, [], codes, if◌then◌else◌, text_eq, ℕ, ◌+◌, ◌==◌, ◌∷◌, ◌≡◌}
use gemba_blockchain.LoadTest.Stress.Rows.{StressCollector}
use gemba_blockchain.LoadTest.Stress.Report.{no_rows, count_rows, ErrorRow, submit, of_kind}

-- The errors of kind `revert`.
unfoldable pub revert_rows : List ErrorRow → ℕ
revert_rows [] = 0
revert_rows (submit msg ∷ es) = revert_rows es
revert_rows (of_kind kind ∷ es) = (if kind == codes "revert" then 1 else 0) + revert_rows es

-- The report of the rows has the counters of the metrics, but for the reverts.
abbrev pub IsReported : StressCollector → Type 0
IsReported c =
    let r = count_rows no_rows c.tx_log in
    (r.ok ≡ c.mined)
    × (r.timeout ≡ c.timeouts)
    × (r.reverted ≡ 0)
    × (revert_rows c.errors_log ≡ c.reverts)
