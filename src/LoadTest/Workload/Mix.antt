-- ===== src/LoadTest/Workload/Mix.antt =====
-- endurance/config/workloads.js: the weighted mix of a workload set. `Math.random() * total` is a whole
-- number here.
pub mod Laws
use gemba_blockchain.Base.{
  List, Option, Text, [], get_elem?, if◌then◌else◌, leb, none, some, ℕ, ◌+◌, ◌-◌, ◌∷◌,
}

pub record Item : Type 0 where
  pub type : Text
  pub weight : ℕ

unfoldable pub total_weight : List Item → ℕ
total_weight [] = 0
total_weight (x ∷ xs) = x.weight + total_weight xs

-- The loop of `pick`: `r -= it.weight; if (r <= 0) return it`.
unfoldable pub pick_from : List Item → ℕ → Option Item
pick_from [] r = none
pick_from (it ∷ items) r =
    let later = pick_from items (r - it.weight) in if leb r it.weight then some it else later

-- `pick`, which falls back on the first item.
unfoldable pub pick : List Item → ℕ → Option Item
pick items r = elim (pick_from items r) [ none ↦ get_elem? items 0 | some it ↦ some it ]
