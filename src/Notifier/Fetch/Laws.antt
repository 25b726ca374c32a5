-- ===== src/Notifier/Fetch/Laws.antt =====
-- The pages end with the last key, and what an unreachable reserve does to the ratio.
use gemba_blockchain.Base.{
  List, Option, Text, [], arith, length, ltb, lt→ltb, none, refl, some, subst, suc, true, ℕ, ◌*◌,
  ◌++◌, ◌+◌, ◌-◌, ◌/◌, ◌<◌, ◌∷◌, ◌≡◌, ◌≤◌,
}
use native.Mathlib.Nat.{le-div_iff_mul-le, div-mul-le_self}
use gemba_blockchain.Notifier.Fetch.{Page, fetch_pages, sum_reserves, fetch_bonded_ratio}

-- The pages from a key on, up to one without a next key: so many of them, with the validators of all.
pub data Pages {A : Type 0} (rest : Text → Option (Page A)) : Text → ℕ → List A → Type 0 where
  last :
      (key : Text) (page : Page A)
      → rest key ≡ some page
      → page.next_key ≡ []
      → Pages rest key 1 page.validators
  more :
      (key : Text) (page : Page A) (n : ℕ) (vs : List A)
      → rest key ≡ some page
      → 0 < length page.next_key
      → Pages rest page.next_key n vs
      → Pages rest key (n + 1) (page.validators ++ vs)

-- As many rounds as there are pages are enough, and the result is the validators of all pages in order.
pub fetch_pages_complete :
    {A : Type 0} (rest : Text → Option (Page A)) (key : Text) (n extra : ℕ) (vs : List A)
    → Pages rest key n vs
    → fetch_pages (n + extra) rest key ≡ some vs
unfolding fetch_pages
fetch_pages_complete rest key _ extra _ (last _ page found ended) =
    let fuel : suc extra ≡ 1 + extra = omega arith in
    subst (λ m. fetch_pages m rest key ≡ some page.validators) fuel
      (rw (found, fetch_pages) (rw (ended, fetch_pages) refl))
fetch_pages_complete rest key _ extra _ (more _ page k ws found continues pages) =
    let fuel : suc (k + extra) ≡ k + 1 + extra = omega arith in
    let later = fetch_pages_complete rest page.next_key k extra ws pages in
    let longer : ltb 0 (length page.next_key) ≡ true = lt→ltb 0 (length page.next_key) continues in
    subst (λ m. fetch_pages m rest key ≡ some (page.validators ++ ws)) fuel
      (rw (found, fetch_pages) (rw (longer, fetch_pages) (rw (later, fetch_pages) refl)))

-- A reserve that cannot be read is taken for circulating, so the ratio comes out lower, never higher.
pub unreachable_reserve_understates :
    (bonded supply reserve : ℕ) (reserves : List (Option ℕ)) (low high : ℕ)
    → reserve + sum_reserves reserves < supply
    → fetch_bonded_ratio (some bonded) (some supply) (none ∷ reserves) ≡ some low
    → fetch_bonded_ratio (some bonded) (some supply) (some reserve ∷ reserves) ≡ some high
    → low ≤ high
unfolding fetch_bonded_ratio sum_reserves
unreachable_reserve_understates bonded supply reserve reserves low high room without with_it =
    let n = bonded * 1000000 in
    let more = supply - sum_reserves reserves in
    let less = supply - (reserve + sum_reserves reserves) in
    let low_is : n / more ≡ low = ground (arith, room, without) in
    let high_is : n / less ≡ high = ground (arith, room, with_it) in
    let fewer : less ≤ more = omega arith in
    let shrinks : low * less ≤ low * more = grind arith in
    let fits : low * more ≤ n = subst (λ q. q * more ≤ n) low_is (div-mul-le_self n more) in
    subst (λ q. low ≤ q) high_is
      ((le-div_iff_mul-le (let pos : 0 < less = omega (arith, room) in pos)).1
        (omega (arith, shrinks, fits)))
