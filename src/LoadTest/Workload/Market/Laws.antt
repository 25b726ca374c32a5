-- ===== src/LoadTest/Workload/Market/Laws.antt =====
-- A listing leaves the market once.
use gemba_blockchain.Base.{
  Bool, Bool-cases, List, Option, Option-cases, Text, [], arith, codes, drop, eqb, false,
  if◌then◌else◌, inl, inr, length, ltb, none, not, some, suc, take, text_eq, true, zero, ℕ, ◌&&◌,
  ◌++◌, ◌+◌, ◌-◌, ◌==◌, ◌∷◌, ◌≡◌, ◌≤◌,
}
use gemba_blockchain.LoadTest.Workload.{Tx}
use gemba_blockchain.LoadTest.Workload.Reads.{first_number, names_id}
use gemba_blockchain.LoadTest.Workload.Market.{
  Listing, Market, apply_list, advance, mark_first, take_listing, build_buy, build_royalty_cancel,
}

abbrev one_if : Bool → ℕ
one_if b = if b then 1 else 0

-- The listings of an id that are not taken.
unfoldable pub open_count : ℕ → List Listing → ℕ
open_count id [] = 0
open_count id (e ∷ es) = one_if (not e.taken && eqb e.id id) + open_count id es

open_count-append :
    (id : ℕ) (es fs : List Listing) → open_count id (es ++ fs) ≡ open_count id es + open_count id fs
unfolding open_count
open_count-append id [] fs = omega arith
open_count-append id (e ∷ es) fs = omega (arith, open_count-append id es fs)

open_count-take-drop :
    (id n : ℕ) (es : List Listing)
    → open_count id (take n es) + open_count id (drop n es) ≡ open_count id es
unfolding open_count
open_count-take-drop id zero es = omega arith
open_count-take-drop id (suc n) [] = omega arith
open_count-take-drop id (suc n) (e ∷ es) = omega (arith, open_count-take-drop id n es)

-- What `mark_first` finds was open and suits, and the rest is as it was.
mark_first-found :
    (suits : Listing → Bool) (n : ℕ) (es es' : List Listing) (e : Listing) (id : ℕ)
    → mark_first suits n es ≡ some (e, es')
    → (suits e ≡ true) × (open_count id es' + one_if (eqb e.id id) ≡ open_count id es)
unfolding mark_first open_count
mark_first-found suits zero es es' e id h = ground (arith, h)
mark_first-found suits (suc n) [] es' e id h = ground (arith, h)
mark_first-found suits (suc n) (x ∷ es) es' e id h = elim (Bool-cases (not x.taken && suits x)) [
  | inl found ↦ ground (arith, h, found)
  | inr past ↦ elim (Option-cases (mark_first suits n es)) [
    | inl missing ↦ ground (arith, h, past, missing)
    | inr ((f, fs), later) ↦
        ground (arith, h, past, later, mark_first-found suits n es fs f id later)
  ]
]

take_listing-found :
    (suits : Listing → Bool) (from n : ℕ) (m m' : Market) (e : Listing) (id : ℕ)
    → take_listing suits from n m ≡ some (e, m')
    → (suits e ≡ true) × (open_count id m'.listed + one_if (eqb e.id id) ≡ open_count id m.listed)
unfolding take_listing
take_listing-found suits from n m m' e id h =
    elim (Option-cases (mark_first suits n (drop from m.listed))) [
      | inl missing ↦ ground (arith, h, missing)
      | inr ((f, es), found) ↦
          let marked = mark_first-found suits n (drop from m.listed) es f id found in
          let split = open_count-take-drop id from m.listed in
          let joined = open_count-append id (take from m.listed) es in
          ground (arith, h, found, marked, split, joined)
    ]

pub data MarketEvent : Type 0 where
  lists : ℕ → Text → ℕ → MarketEvent
  buys : Text → MarketEvent
  cancels : Text → MarketEvent

-- The market after an event, and the listing of the transaction that it builds.
unfoldable pub happens : Market → MarketEvent → Market × Option (Tx × Listing)
happens m (lists id seller price) = (apply_list m id seller price, none)
happens m (buys f) = build_buy (codes "royaltyMarket") 230000 m f
happens m (cancels f) = build_royalty_cancel m f

-- Whether an event lists the id.
unfoldable pub lists_it : ℕ → MarketEvent → ℕ
lists_it id (lists j seller price) = one_if (eqb j id)
lists_it id (buys f) = 0
lists_it id (cancels f) = 0

unfoldable pub listings : ℕ → List MarketEvent → ℕ
listings id [] = 0
listings id (e ∷ es) = lists_it id e + listings id es

-- Whether a transaction takes the id off the market: the id that it sends is this one.
unfoldable pub takes_it : ℕ → Option (Tx × Listing) → ℕ
takes_it id none = 0
takes_it id (some r) = names_id id r.0

-- The transactions that take a listing of the id off the market, bought or cancelled.
unfoldable pub takings : ℕ → Market → List MarketEvent → ℕ
takings id m [] = 0
takings id m (e ∷ es) = takes_it id (happens m e).1 + takings id (happens m e).0 es

open_count-apply_list :
    (id j : ℕ) (m : Market) (seller : Text) (price : ℕ)
    → open_count id (apply_list m j seller price).listed
      ≤ open_count id m.listed + one_if (eqb j id)
unfolding apply_list open_count
open_count-apply_list id j m seller price =
    let row : Listing = record { id = j; seller = seller; price = price; taken = false } in
    let joined = open_count-append id m.listed (row ∷ []) in
    let grown = m.listed ++ row ∷ [] in
    let cut = open_count-take-drop id (length grown - 3000) grown in
    elim (Bool-cases (ltb 6000 (length grown))) [
      | inl over ↦ rw (over, apply_list) (omega (arith, joined, cut))
      | inr fits ↦ rw (fits, apply_list) (omega (arith, joined))
    ]

happens-balance :
    (m : Market) (e : MarketEvent) (id : ℕ)
    → open_count id (happens m e).0.listed + takes_it id (happens m e).1
      ≤ open_count id m.listed + lists_it id e
unfolding happens lists_it takes_it build_buy build_royalty_cancel advance names_id first_number
happens-balance m (lists j seller price) id =
    omega (arith, open_count-apply_list id j m seller price)
happens-balance m (buys f) id =
    let at = advance m in
    let suits : Listing → Bool = λ e. not (e.seller == f) in
    elim (Option-cases (take_listing suits at.cursor 400 at)) [
      | inl missing ↦ rw (missing, happens, build_buy) (omega arith)
      | inr ((e, after), found) ↦
          rw (found, happens, build_buy)
            (omega (arith, (take_listing-found suits at.cursor 400 at after e id found).1))
    ]
happens-balance m (cancels f) id =
    let suits : Listing → Bool = λ e. e.seller == f in
    elim (Option-cases (take_listing suits 0 200 m)) [
      | inl missing ↦ rw (missing, happens, build_royalty_cancel) (omega arith)
      | inr ((e, after), found) ↦
          rw (found, happens, build_royalty_cancel)
            (omega (arith, (take_listing-found suits 0 200 m after e id found).1))
    ]

-- Whatever wallets list, buy and cancel, in any order, the transactions that buy or cancel a
-- listing of an id, by the id that they send, are no more than the open listings of the id at the
-- start and the times that it was listed.
pub takings_within_listings :
    (es : List MarketEvent) (m : Market) (id : ℕ)
    → takings id m es ≤ open_count id m.listed + listings id es
unfolding takings listings
takings_within_listings [] m id = omega arith
takings_within_listings (e ∷ es) m id =
    omega (arith, happens-balance m e id, takings_within_listings es (happens m e).0 id)
