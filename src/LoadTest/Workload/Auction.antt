-- ===== src/LoadTest/Workload/Auction.antt =====
-- endurance/config/workloads.js: English and Dutch auctions. `Date.now()` is an argument.
use gemba_blockchain.Base.{
  Bool, List, Option, Text, [], codes, false, if◌then◌else◌, ltb, none, not, some, text_eq, true, ℕ,
  ◌&&◌, ◌*◌, ◌++◌, ◌+◌, ◌==◌, ◌^◌, ◌∷◌,
}
use gemba_blockchain.LoadTest.Workload.{num, Tx, call}

pub data Kind : Type 0 where
  eng : Kind
  dutch : Kind

pub record Auction : Type 0 where
  pub kind : Kind
  pub id : ℕ
  pub seller : Text
  pub ts : ℕ
  pub bid_built : Bool
  pub settle_built : Bool

-- What `createEnglish` and `createDutch` do when they are mined.
unfoldable pub apply_create : Kind → List Auction → ℕ → Text → ℕ → List Auction
apply_create kind auctions id seller now =
    auctions
    ++ record {
      kind = kind;
      id = id;
      seller = seller;
      ts = now;
      bid_built = false;
      settle_built = false;
    }
      ∷ []

abbrev pub is_eng : Auction → Bool
is_eng a = elim a.kind [ eng ↦ true | dutch ↦ false ]

-- `ago(ts) > ms`.
abbrev pub ago_over : ℕ → ℕ → ℕ → Bool
ago_over now ts ms = ltb (ts + ms) now

abbrev pub ago_under : ℕ → ℕ → ℕ → Bool
ago_under now ts ms = ltb now (ts + ms)

-- The first auction that suits, and the auctions with it marked.
unfoldable pub mark_auction :
    (Auction → Bool) → (Auction → Auction) → List Auction → Option (Auction × List Auction)
mark_auction suits mark [] = none
mark_auction suits mark (a ∷ rest) =
    let found = mark_auction suits mark rest in
    if suits a
    then some (a, mark a ∷ rest)
    else elim found [ none ↦ none | some r ↦ some (r.0, a ∷ r.1) ]

-- `for (const a of c.auctions)` with a mark and a return.
unfoldable pub build_on_auction :
    (Auction → Bool)
    → (Auction → Auction)
    → (Auction → Tx)
    → List Auction
    → List Auction × Option Tx
build_on_auction suits mark tx auctions = elim (mark_auction suits mark auctions) [
  | none ↦ (auctions, none)
  | some r ↦ (r.1, some (tx r.0))
]

unfoldable pub build_bid_english : List Auction → Text → ℕ → List Auction × Option Tx
build_bid_english auctions f now =
    build_on_auction
      (λ a.
        is_eng a
        && not a.bid_built
        && not (a.seller == f)
        && ago_over now a.ts 3000
        && ago_under now a.ts 110000)
      (λ a. record a { bid_built = true })
      (λ a. call (codes "auctionHouse") (codes "bidEnglish") (num a.id ∷ []) (10 ^ 9) 130000)
      auctions

unfoldable pub build_settle_english : List Auction → ℕ → List Auction × Option Tx
build_settle_english auctions now =
    build_on_auction (λ a. is_eng a && not a.settle_built && ago_over now a.ts 200000)
      (λ a. record a { settle_built = true })
      (λ a. call (codes "auctionHouse") (codes "settleEnglish") (num a.id ∷ []) 0 230000) auctions

unfoldable pub build_buy_dutch : List Auction → Text → ℕ → List Auction × Option Tx
build_buy_dutch auctions f now =
    build_on_auction
      (λ a. not (is_eng a) && not a.bid_built && not (a.seller == f) && ago_over now a.ts 3000)
      (λ a. record a { bid_built = true })
      (λ a. call (codes "auctionHouse") (codes "buyDutch") (num a.id ∷ []) (2 * 10 ^ 9) 230000)
      auctions
