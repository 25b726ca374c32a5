-- ===== src/LoadTest/Stress/Report.antt =====
-- stress/scripts/analyze.js: the counters of the report and the problems that it suspects. The rows of the logs
-- are arguments, and numbers that the source divides are compared without the quotient.
pub mod Laws
use gemba_blockchain.Base.{
  Bool, List, Map, Option, Text, [], codes, eqb, false, if◌then◌else◌, length, lookup, ltb, max,
  none, not, some, text_eq, true, ℕ, ◌&&◌, ◌*◌, ◌++◌, ◌+◌, ◌-◌, ◌/◌, ◌||◌, ◌∷◌,
}
use gemba_blockchain.LoadTest.Metrics.{bump, classify}

-- A row of the log `tx`: `status` is absent, a text, or a number.
pub data RowStatus : Type 0 where
  absent : RowStatus
  timed_out : RowStatus
  numeric : ℕ → RowStatus

pub record Row : Type 0 where
  pub type : Text
  pub status : RowStatus
  pub latency_ms : Option ℕ

pub record Tally : Type 0 where
  pub tx_total : ℕ
  pub ok : ℕ
  pub reverted : ℕ
  pub timeout : ℕ
  pub by_type : Map Text ℕ
  pub by_type_revert : Map Text ℕ
  pub lat : List ℕ

abbrev pub no_rows : Tally
no_rows = record {
  tx_total = 0;
  ok = 0;
  reverted = 0;
  timeout = 0;
  by_type = [];
  by_type_revert = [];
  lat = [];
}

abbrev is_timeout : RowStatus → Bool
is_timeout absent = false
is_timeout timed_out = true
is_timeout (numeric n) = false

-- `if (lat.length < 300000) lat.push(t.latencyMs)`, for a number of a row without timeout.
unfoldable pub add_latency : Row → List ℕ → List ℕ
add_latency t lat = elim t.latency_ms [
  | none ↦ lat
  | some ms ↦ if not (is_timeout t.status) && ltb (length lat) 300000 then lat ++ ms ∷ [] else lat
]

-- The branches on the status.
unfoldable pub judge_row : Tally → Text → RowStatus → Tally
judge_row c type timed_out = record c { timeout = c.timeout + 1 }
judge_row c type absent = record c { ok = c.ok + 1 }
judge_row c type (numeric n) =
    if eqb n 0
    then record c { reverted = c.reverted + 1; by_type_revert = bump type c.by_type_revert }
    else record c { ok = c.ok + 1 }

unfoldable pub count_row : Tally → Row → Tally
count_row c t =
    judge_row
      (record c {
        tx_total = c.tx_total + 1;
        by_type = bump t.type c.by_type;
        lat = add_latency t c.lat;
      })
      t.type t.status

unfoldable pub count_rows : Tally → List Row → Tally
count_rows c [] = c
count_rows c (t ∷ ts) = count_rows (count_row c t) ts

-- A row of the log `errors`: the message of a failed submission, or another kind.
pub data ErrorRow : Type 0 where
  submit : Text → ErrorRow
  of_kind : Text → ErrorRow

unfoldable pub count_errors : Map Text ℕ → List ErrorRow → Map Text ℕ
count_errors counts [] = counts
count_errors counts (submit msg ∷ es) = count_errors (bump (classify msg) counts) es
count_errors counts (of_kind kind ∷ es) = count_errors (bump kind counts) es

-- A row of the log `blocks`; what is not there is `none`.
pub record BlockRow : Type 0 where
  pub gas_used : ℕ
  pub gas_limit : Option ℕ
  pub tx_count : ℕ
  pub base_fee_wei : Option ℕ

pub record Blocks : Type 0 where
  pub blk_n : ℕ
  pub gas_used_sum : ℕ
  pub gas_limit : ℕ
  pub max_tx : ℕ
  pub max_gas : ℕ
  pub base_min : Option ℕ
  pub base_max : Option ℕ

unfoldable pub least : Option ℕ → ℕ → Option ℕ
least none v = some v
least (some m) v = if ltb v m then some v else some m

unfoldable pub greatest : Option ℕ → ℕ → Option ℕ
greatest none v = some v
greatest (some m) v = if ltb m v then some v else some m

unfoldable pub count_block : Blocks → BlockRow → Blocks
count_block c b = record {
  blk_n = c.blk_n + 1;
  gas_used_sum = c.gas_used_sum + b.gas_used;
  gas_limit = elim b.gas_limit [ none ↦ c.gas_limit | some l ↦ l ];
  max_tx = max c.max_tx b.tx_count;
  max_gas = if ltb c.max_gas b.gas_used then b.gas_used else c.max_gas;
  base_min = elim b.base_fee_wei [ none ↦ c.base_min | some v ↦ least c.base_min v ];
  base_max = elim b.base_fee_wei [ none ↦ c.base_max | some v ↦ greatest c.base_max v ];
}

-- `gasUsedSum / BigInt(Math.max(1, blkN)) * 100n / gasLimit`.
unfoldable pub fill_pct : Blocks → ℕ
fill_pct c = if ltb 0 c.gas_limit then c.gas_used_sum / max 1 c.blk_n * 100 / c.gas_limit else 0

pub data Problem : Type 0 where
  high_reverts : Problem
  submit_errors : Text → Problem
  never_mined : Problem
  block_time_drift : Problem
  blocks_full : Problem
  catching_up : Problem
  disk_grew : Problem
  still_in_flight : Problem
  no_red_flags : Problem

abbrev pub count_of : Text → Map Text ℕ → ℕ
count_of k m = elim (lookup k m) [ none ↦ 0 | some n ↦ n ]

-- `reverted - byTypeRevert.revertOp - …`; the reverts of a type are among all of them.
unfoldable pub unintended_reverts : Tally → ℕ
unintended_reverts c =
    c.reverted
    - count_of (codes "revertOp") c.by_type_revert
    - count_of (codes "dexRemoveLiq") c.by_type_revert
    - count_of (codes "dexSwap") c.by_type_revert

abbrev pub flagged_errors : List Text
flagged_errors =
    codes "mempool_full"
    ∷ codes "nonce"
    ∷ codes "rpc_timeout"
    ∷ codes "rate_limited"
    ∷ codes "tx_too_large"
    ∷ codes "fee_too_low"
    ∷ codes "connection"
    ∷ []

unfoldable pub error_problems : Map Text ℕ → List Text → List Problem
error_problems counts [] = []
error_problems counts (k ∷ ks) =
    let rest = error_problems counts ks in
    if ltb 0 (count_of k counts) then submit_errors k ∷ rest else rest

abbrev pub when : Bool → Problem → List Problem
when b p = if b then p ∷ [] else []

-- The rows of the log `node`, with the free disk in tenths of a gigabyte.
pub record NodeRow : Type 0 where
  pub disk_free : Option ℕ
  pub mempool : Option ℕ
  pub block_time_ms : ℕ
  pub catching_up : Bool

pub record Nodes : Type 0 where
  pub disk_start : Option ℕ
  pub disk_end : Option ℕ
  pub mem_peak : ℕ
  pub bt_max : ℕ
  pub bt_sum : ℕ
  pub bt_n : ℕ
  pub caught_up : Bool

unfoldable pub count_node : Nodes → NodeRow → Nodes
count_node c n =
    let timed = ltb 0 n.block_time_ms in
    record {
      disk_start = elim c.disk_start [ none ↦ n.disk_free | some d ↦ some d ];
      disk_end = elim n.disk_free [ none ↦ c.disk_end | some d ↦ some d ];
      mem_peak = elim n.mempool [ none ↦ c.mem_peak | some m ↦ max c.mem_peak m ];
      bt_max = max c.bt_max n.block_time_ms;
      bt_sum = c.bt_sum + n.block_time_ms;
      bt_n = if timed then c.bt_n + 1 else c.bt_n;
      caught_up = n.catching_up || c.caught_up;
    }

-- `diskStart - diskEnd > 5`.
unfoldable pub has_grown : Nodes → Bool
has_grown c = elim c.disk_start [
  | none ↦ false
  | some start ↦ elim c.disk_end [ none ↦ false | some end ↦ ltb (end + 50) start ]
]

-- The list of problems.
unfoldable pub problems : Tally → Map Text ℕ → Blocks → Nodes → ℕ → List Problem
problems c errors blocks nodes pending =
    let found =
      when (ltb 0 c.tx_total && ltb c.tx_total (unintended_reverts c * 20)) high_reverts
      ++ error_problems errors flagged_errors
      ++ when (ltb 0 c.timeout) never_mined
      ++ when (ltb 0 nodes.bt_n && ltb (6500 * nodes.bt_n) nodes.bt_sum) block_time_drift
      ++ when (ltb 90 (fill_pct blocks)) blocks_full
      ++ when nodes.caught_up catching_up
      ++ when (has_grown nodes) disk_grew
      ++ when (ltb 0 pending) still_in_flight in
    if eqb (length found) 0 then no_red_flags ∷ [] else found
