-- ===== src/LoadTest/Receipts/Blocks.antt =====
-- No block is skipped, and none is scanned twice.
use gemba_blockchain.Base.{
  Bool, Bool-cases, List, Option, [], ap, arith, eqb, false, inl, inr, none, range, range-append,
  some, suc, sym, zero, ℕ, ◌++◌, ◌+◌, ◌-◌, ◌<◌, ◌∙◌, ◌∷◌, ◌≡◌, ◌≤◌,
}
use gemba_blockchain.LoadTest.Receipts.{scan_blocks, block_round}

scan_blocks-tile :
    (fetched : ℕ → Bool) (last n : ℕ)
    → let r = scan_blocks fetched last n in (last ≤ r.1) × (r.0 ≡ range (last + 1) (r.1 - last))
unfolding scan_blocks range
scan_blocks-tile fetched last zero = ground arith
scan_blocks-tile fetched last (suc n) =
    let rest = scan_blocks-tile fetched (last + 1) n in
    let final = (scan_blocks fetched (last + 1) n).1 in
    elim (Bool-cases (fetched (last + 1))) [
      | inl ok ↦
          let more : suc (final - (last + 1)) ≡ final - last = omega (arith, rest.0) in
          rw (ok, scan_blocks)
            (omega (arith, rest.0), ap (λ bs. (last + 1) ∷ bs) rest.1 ∙ ap (range (last + 1)) more)
      | inr missed ↦
          let here : 0 ≡ last - last = omega arith in
          rw (missed, scan_blocks) (omega arith, ap (range (last + 1)) here)
    ]

block_round-tile :
    (fetched : ℕ → Bool) (last : ℕ) (height : Option ℕ)
    → 0 < last
    → let r = block_round fetched last height in
      (last ≤ r.1) × (r.0 ≡ range (last + 1) (r.1 - last))
unfolding block_round range
block_round-tile fetched last none started =
    (omega arith, (let here : 0 ≡ last - last = omega arith in ap (range (last + 1)) here))
block_round-tile fetched last (some bn) started =
    let set : eqb last 0 ≡ false = ground (arith, started) in
    rw (set, block_round) (scan_blocks-tile fetched last (bn - last))

-- Rounds of the loop, each with the height and the answers that it meets.
unfoldable pub block_rounds : ℕ → List (Option ℕ × (ℕ → Bool)) → List ℕ × ℕ
block_rounds last [] = ([], last)
block_rounds last (r ∷ rs) =
    let now = block_round r.1 last r.0 in
    let later = block_rounds now.1 rs in (now.0 ++ later.0, later.1)

-- Once the loop has a last block, the blocks that are scanned are those behind it up to the new
-- last block, each one once and in order, whatever rounds fail and wherever the chain stands.
pub block_rounds-tile :
    (rs : List (Option ℕ × (ℕ → Bool))) (last : ℕ)
    → 0 < last
    → let r = block_rounds last rs in (last ≤ r.1) × (r.0 ≡ range (last + 1) (r.1 - last))
unfolding block_rounds block_round range
block_rounds-tile [] last started =
    (omega arith, (let here : 0 ≡ last - last = omega arith in ap (range (last + 1)) here))
block_rounds-tile (r ∷ rs) last started =
    let now = block_round-tile r.1 last r.0 started in
    let mid = (block_round r.1 last r.0).1 in
    let later = block_rounds-tile rs mid (omega (arith, now.0, started)) in
    let final = (block_rounds mid rs).1 in
    let joins : last + 1 + (mid - last) ≡ mid + 1 = omega (arith, now.0) in
    let sums : mid - last + (final - mid) ≡ final - last = omega (arith, now.0, later.0) in
    (
      omega (arith, now.0, later.0),
      (λ i. now.1 i ++ later.1 i)
          ∙ (λ i. range (last + 1) (mid - last) ++ range (sym joins i) (final - mid))
          ∙ range-append (last + 1) (mid - last) (final - mid)
          ∙ ap (range (last + 1)) sums,
    )
