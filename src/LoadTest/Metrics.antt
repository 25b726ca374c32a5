-- ===== src/LoadTest/Metrics.antt =====
-- endurance/lib/metrics.js: the counters of a run, its windows and its latencies. A message is an
-- ASCII text; `Date.now()` is an argument.
pub mod Laws
use gemba_blockchain.Base.{
  List, Map, Text, [], codes, drop, get_elem?, if◌then◌else◌, insert, leb, length, lookup, ltb, min,
  none, some, text_eq, ℕ, ◌&&◌, ◌*◌, ◌++◌, ◌+◌, ◌-◌, ◌||◌, ◌∷◌,
}
use gemba_blockchain.Strings.{includes, to_lower}

pub record Metrics : Type 0 where
  pub submitted : ℕ
  pub mined : ℕ
  pub failed_submit : ℕ
  pub reverted : ℕ
  pub timed_out : ℕ
  pub soft_submit : ℕ
  pub by_type : Map Text ℕ
  pub errors : Map Text ℕ
  pub soft_errors : Map Text ℕ
  pub sub_window : List ℕ
  pub min_window : List ℕ
  pub lat : List ℕ

abbrev pub new_metrics : Metrics
new_metrics = record {
  submitted = 0;
  mined = 0;
  failed_submit = 0;
  reverted = 0;
  timed_out = 0;
  soft_submit = 0;
  by_type = [];
  errors = [];
  soft_errors = [];
  sub_window = [];
  min_window = [];
  lat = [];
}

-- `classify`.
unfoldable pub classify : Text → Text
classify msg =
    let m = to_lower msg in
    if includes m (codes "replacement") || includes m (codes "underpriced")
    then codes "replacement"
    else if includes m (codes "coalesce")
    then codes "coalesce"
    else if includes m (codes "nonce")
    then codes "nonce"
    else if includes m (codes "mempool is full")
        || includes m (codes "txpool")
        || includes m (codes "mempool")
    then codes "mempool_full"
    else if includes m (codes "tx too large") || includes m (codes "too large")
    then codes "tx_too_large"
    else if includes m (codes "insufficient funds")
    then codes "insufficient_funds"
    else if includes m (codes "intrinsic gas")
    then codes "intrinsic_gas"
    else if includes m (codes "fee") && includes m (codes "low")
    then codes "fee_too_low"
    else if includes m (codes "already known") || includes m (codes "already in")
    then codes "already_known"
    else if includes m (codes "timeout") || includes m (codes "timed out")
    then codes "rpc_timeout"
    else if includes m (codes "429") || includes m (codes "rate")
    then codes "rate_limited"
    else if includes m (codes "connection")
        || includes m (codes "econn")
        || includes m (codes "socket")
    then codes "connection"
    else codes "other"

-- `o[k] = (o[k] || 0) + 1`.
unfoldable pub bump : Text → Map Text ℕ → Map Text ℕ
bump k m = insert k ((elim (lookup k m) [ none ↦ 0 | some n ↦ n ]) + 1) m

unfoldable pub on_submit : Metrics → Text → ℕ → Metrics
on_submit m type now = record m {
  submitted = m.submitted + 1;
  by_type = bump type m.by_type;
  sub_window = m.sub_window ++ now ∷ [];
}

unfoldable pub on_submit_fail : Metrics → Text → Metrics
on_submit_fail m msg = record m {
  failed_submit = m.failed_submit + 1;
  errors = bump (classify msg) m.errors;
}

unfoldable pub on_soft : Metrics → Text → Metrics
on_soft m msg = record m {
  soft_submit = m.soft_submit + 1;
  soft_errors = bump (classify msg) m.soft_errors;
}

unfoldable pub on_mined : Metrics → ℕ → ℕ → Metrics
on_mined m latency now =
    let lat = m.lat ++ latency ∷ [] in
    record m {
      mined = m.mined + 1;
      min_window = m.min_window ++ now ∷ [];
      lat = if ltb 5000 (length lat) then drop 1 lat else lat;
    }

unfoldable pub on_revert : Metrics → Metrics
on_revert m = record m { reverted = m.reverted + 1 }

unfoldable pub on_timeout : Metrics → Metrics
on_timeout m = record m { timed_out = m.timed_out + 1 }

-- `while (arr.length && arr[0] < now - win) arr.shift()`.
unfoldable pub shift_old : ℕ → ℕ → List ℕ → List ℕ
shift_old now win [] = []
shift_old now win (x ∷ xs) =
    let rest = shift_old now win xs in if ltb (x + win) now then rest else x ∷ xs

-- `_tps` with its window of five seconds: the tenths of what `toFixed(1)` prints.
unfoldable pub tps_tenths : List ℕ → ℕ
tps_tenths window = length window * 2

-- `sort((a, b) => a - b)`.
unfoldable pub sort_in : ℕ → List ℕ → List ℕ
sort_in x [] = x ∷ []
sort_in x (y ∷ ys) = let rest = sort_in x ys in if leb x y then x ∷ y ∷ ys else y ∷ rest

unfoldable pub sort : List ℕ → List ℕ
sort [] = []
sort (x ∷ xs) = sort_in x (sort xs)

-- `pct` on the sorted latencies, where `position` is `Math.floor(p * lat.length)`.
unfoldable pub pct : List ℕ → ℕ → ℕ
pct sorted position = elim (get_elem? sorted (min (length sorted - 1) position)) [
  | none ↦ 0
  | some x ↦ x
]

pub record Snapshot : Type 0 where
  pub counted : Metrics
  pub inflight : ℕ
  pub submit_tps : ℕ
  pub mined_tps : ℕ
  pub p50 : ℕ
  pub p95 : ℕ
  pub p99 : ℕ

-- `snapshot`: the windows are cut, the rest of the metrics stays. `floors percent length` stands for
-- `Math.floor(p * lat.length)` on doubles.
unfoldable pub snapshot : (ℕ → ℕ → ℕ) → Metrics → ℕ → ℕ → Metrics × Snapshot
snapshot floors m inflight now =
    let lat = sort m.lat in
    let cut = record m {
      sub_window = shift_old now 5000 m.sub_window;
      min_window = shift_old now 5000 m.min_window;
    } in
    (
      cut,
      record {
        counted = cut;
        inflight = inflight;
        submit_tps = tps_tenths cut.sub_window;
        mined_tps = tps_tenths cut.min_window;
        p50 = pct lat (floors 50 (length lat));
        p95 = pct lat (floors 95 (length lat));
        p99 = pct lat (floors 99 (length lat));
      },
    )
