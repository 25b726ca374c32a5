-- ===== src/Notifier/Sales/Laws.antt =====
-- The cycles report every block once.
use gemba_blockchain.Base.{
  List, [], ap, arith, suc, zero, ℕ, ◌++◌, ◌+◌, ◌-◌, ◌<◌, ◌∙◌, ◌∷◌, ◌≡◌, ◌≤◌,
}
use gemba_blockchain.Notifier.Sales.{sale_window, blocks, Cycle, watch_gmb_sales, run_cycles}

blocks-append : (from m n : ℕ) → blocks from m ++ blocks (from + m) n ≡ blocks from (m + n)
unfolding blocks
blocks-append from zero n =
    let p : from + 0 ≡ from = omega arith in
    let q : n ≡ 0 + n = omega arith in λ i. blocks (p i) (q i)
blocks-append from (suc m) n =
    let p : from + suc m ≡ from + 1 + m = omega arith in
    let q : suc (m + n) ≡ suc m + n = omega arith in
    (λ i. from ∷ (blocks (from + 1) m ++ blocks (p i) n))
    ∙ ap (λ r. from ∷ r) (blocks-append (from + 1) m n)
    ∙ ap (blocks from) q

-- One cycle scans the blocks up to where it leaves the state.
watch_gmb_sales_lem :
    (last : ℕ) (c : Cycle)
    → 0 < last
    → (last ≤ (watch_gmb_sales last c).0)
      × ((watch_gmb_sales last c).1 ≡ blocks (last + 1) ((watch_gmb_sales last c).0 - last))
unfolding watch_gmb_sales sale_window blocks
watch_gmb_sales_lem last c pos = ground arith

-- Once a first cycle has set the state, the blocks reported in full are those behind it up to where
-- the state stands, each one once and in order, whatever cycles fail and wherever the chain stands.
pub run_cycles-tile :
    (cs : List Cycle) (last : ℕ)
    → 0 < last
    → (last ≤ (run_cycles last cs).0)
      × ((run_cycles last cs).1 ≡ blocks (last + 1) ((run_cycles last cs).0 - last))
unfolding run_cycles blocks
run_cycles-tile [] last pos =
    let q : 0 ≡ last - last = omega arith in (omega arith, ap (blocks (last + 1)) q)
run_cycles-tile (c ∷ cs) last pos =
    let (le, seen) = watch_gmb_sales_lem last c pos in
    let mid = (watch_gmb_sales last c).0 in
    let (le', rest) = run_cycles-tile cs mid (omega (arith, le)) in
    let final = (run_cycles mid cs).0 in
    (
      omega (arith, le, le'),
      (λ i. seen i ++ rest i)
          ∙ ap (λ b. blocks (last + 1) (mid - last) ++ blocks b (final - mid))
              (let q : mid + 1 ≡ last + 1 + (mid - last) = omega (arith, le) in q)
          ∙ blocks-append (last + 1) (mid - last) (final - mid)
          ∙ ap (blocks (last + 1))
              (let q : mid - last + (final - mid) ≡ final - last = omega (arith, le, le') in q),
    )
