-- ===== src/Notifier/Sales.antt =====
-- services/blockchain-notifier/src/index.js: the block ranges that `watchGmbSales` scans.
pub mod Laws
use gemba_blockchain.Base.{
  Bool, List, Option, [], eqb, if◌then◌else◌, ltb, none, some, suc, zero, ℕ, ◌++◌, ◌+◌, ◌-◌, ◌∷◌,
}

-- `from` and `latest`, or `none` where there is nothing to scan. A state of 0 is falsy.
unfoldable pub sale_window : ℕ → ℕ → Option (ℕ × ℕ)
sale_window last latest =
    let from = if eqb last 0 then latest - 500 else last + 1 in
    if ltb latest from then none else some (from, latest)

-- So many blocks from one on.
unfoldable pub blocks : ℕ → ℕ → List ℕ
blocks from zero = []
blocks from (suc n) = from ∷ blocks (from + 1) n

-- One cycle: the latest block, and whether the logs were fetched and every mail went out.
pub record Cycle : Type 0 where
  pub latest : ℕ
  pub completes : Bool

-- `state.lastDispenserBlock` after the cycle, and the blocks whose sales were reported by it in full.
unfoldable pub watch_gmb_sales : ℕ → Cycle → ℕ × List ℕ
watch_gmb_sales last c = elim (sale_window last c.latest) [
  | none ↦ (last, [])
  | some (from, to) ↦ if c.completes then (to, blocks from (to + 1 - from)) else (last, [])
]

unfoldable pub run_cycles : ℕ → List Cycle → ℕ × List ℕ
run_cycles last [] = (last, [])
run_cycles last (c ∷ cs) =
    let (last', seen) = watch_gmb_sales last c in
    let (final, rest) = run_cycles last' cs in (final, seen ++ rest)
