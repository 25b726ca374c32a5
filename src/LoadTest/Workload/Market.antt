-- ===== src/LoadTest/Workload/Market.antt =====
-- endurance/config/workloads.js: the two markets, of listings that other wallets buy or, in the one with
-- royalties, their sellers cancel.
pub mod Laws
use gemba_blockchain.Base.{
  Bool, List, Option, Text, [], codes, drop, false, if◌then◌else◌, length, ltb, none, not, some,
  suc, take, text_eq, true, zero, ℕ, ◌&&◌, ◌++◌, ◌+◌, ◌-◌, ◌==◌, ◌∷◌,
}
use gemba_blockchain.LoadTest.Workload.{Arg, num, Tx, call}

-- `taken` is `bought` in the plain market.
pub record Listing : Type 0 where
  pub id : ℕ
  pub seller : Text
  pub price : ℕ
  pub taken : Bool

pub record Market : Type 0 where
  pub listed : List Listing
  pub cursor : ℕ

-- What a listing does when it is mined: it is pushed, and of more than 6000 the last 3000 are kept.
unfoldable pub apply_list : Market → ℕ → Text → ℕ → Market
apply_list m id seller price =
    let listed =
      m.listed ++ record { id = id; seller = seller; price = price; taken = false } ∷ [] in
    if ltb 6000 (length listed)
    then record { listed = drop (length listed - 3000) listed; cursor = 0 }
    else record m { listed = listed }

-- `while (cursor < L.length && L[cursor].bought) cursor++`: by how much, in the listings from there.
unfoldable pub skip_taken : List Listing → ℕ
skip_taken [] = 0
skip_taken (e ∷ es) = let n = skip_taken es in if e.taken then suc n else 0

unfoldable pub advance : Market → Market
advance m = record m { cursor = m.cursor + skip_taken (drop m.cursor m.listed) }

-- Within the next `n` listings, the first that is not taken and that `suits`, and the listings with
-- it marked.
unfoldable pub mark_first : (Listing → Bool) → ℕ → List Listing → Option (Listing × List Listing)
mark_first suits zero es = none
mark_first suits (suc n) [] = none
mark_first suits (suc n) (e ∷ es) =
    let rest = mark_first suits n es in
    if not e.taken && suits e
    then some (e, record e { taken = true } ∷ es)
    else elim rest [ none ↦ none | some r ↦ some (r.0, e ∷ r.1) ]

-- The listings before the cursor, and those that a buyer goes through from it on.
unfoldable pub take_listing : (Listing → Bool) → ℕ → ℕ → Market → Option (Listing × Market)
take_listing suits from n m = elim (mark_first suits n (drop from m.listed)) [
  | none ↦ none
  | some r ↦ some (r.0, record m { listed = take from m.listed ++ r.1 })
]

-- `mktBuy` and `royaltyBuy`, which differ in the contract and the gas.
unfoldable pub build_buy : Text → ℕ → Market → Text → Market × Option (Tx × Listing)
build_buy contract gas m f =
    let at = advance m in
    elim (take_listing (λ e. not (e.seller == f)) at.cursor 400 at) [
      | none ↦ (at, none)
      | some r ↦ (r.1, some (call contract (codes "buy") (num (r.0).id ∷ []) (r.0).price gas, r.0))
    ]

-- `royaltyCancel`, from the start of the list.
unfoldable pub build_royalty_cancel : Market → Text → Market × Option (Tx × Listing)
build_royalty_cancel m f = elim (take_listing (λ e. e.seller == f) 0 200 m) [
  | none ↦ (m, none)
  | some r ↦
      (r.1, some (call (codes "royaltyMarket") (codes "cancel") (num (r.0).id ∷ []) 0 160000, r.0))
]
