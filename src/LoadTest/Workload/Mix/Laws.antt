-- ===== src/LoadTest/Workload/Mix/Laws.antt =====
-- An operation is drawn as often as its weight says.
use gemba_blockchain.Base.{
  List, [], arith, false, leb, refl, some, ℕ, ◌++◌, ◌+◌, ◌-◌, ◌<◌, ◌∷◌, ◌≡◌,
}
use gemba_blockchain.LoadTest.Workload.Mix.{Item, total_weight, pick_from, pick}

pick_from-share :
    (before after : List Item) (it : Item) (k : ℕ)
    → k < it.weight
    → pick_from (before ++ it ∷ after) (total_weight before + k + 1) ≡ some it
unfolding pick_from total_weight
pick_from-share [] after it k within = ground (arith, within)
pick_from-share (x ∷ before) after it k within =
    let past : leb (x.weight + total_weight before + k + 1) x.weight ≡ false = ground arith in
    let rest : (x.weight + total_weight before + k + 1) - x.weight ≡ total_weight before + k + 1 =
      omega arith in
    rw (past, pick_from) (rw (rest, pick_from) (pick_from-share before after it k within))

-- An item is picked by the draws of its own stretch, which is as long as its weight and begins where
-- the items before it end.
pub pick-share :
    (before after : List Item) (it : Item) (k : ℕ)
    → k < it.weight
    → pick (before ++ it ∷ after) (total_weight before + k + 1) ≡ some it
unfolding pick pick_from total_weight
pick-share before after it k within = rw (pick_from-share before after it k within, pick) refl
