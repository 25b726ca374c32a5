-- ===== src/LoadTest/Collector.antt =====
-- endurance/lib/receiptCollector.js: the transactions in flight. A block is the list of its hashes, and
-- time is an argument; the calls of `onSettle` are kept in the order in which they are made.
pub mod Sweep
pub mod Accounts
pub mod Laws
use gemba_blockchain.Base.{
  Bool, List, Map, Option, Text, [], erase, false, if◌then◌else◌, insert, kept, leb, lookup, none,
  not, some, text_eq, true, ℕ, ◌&&◌, ◌++◌, ◌+◌, ◌∷◌,
}

pub record Meta : Type 0 where
  pub from : Text
  pub submit_ms : ℕ
  pub deadline : ℕ
  pub rebroadcast : Bool
  -- whether the signed transaction is there
  pub signed : Bool

pub record Collector : Type 0 where
  pub timeout_ms : ℕ
  pub inflight : Map Text Meta
  pub receipt_queue : List Text
  pub mined : ℕ
  pub timed_out : ℕ
  pub rebroadcasts : ℕ
  pub settled : List (Text × Bool)

unfoldable pub track : Collector → Text → Text → ℕ → Bool → Collector
track c hash from submit_ms signed = record c {
  inflight =
      insert hash
        (record {
          from = from;
          submit_ms = submit_ms;
          deadline = submit_ms + c.timeout_ms;
          rebroadcast = false;
          signed = signed;
        })
        c.inflight;
}

-- One hash of a block.
unfoldable pub mine_one : Collector → Text → Collector
mine_one c hash = elim (lookup hash c.inflight) [
  | none ↦ c
  | some m ↦ record c {
    inflight = erase hash c.inflight;
    mined = c.mined + 1;
    settled = c.settled ++ (m.from, true) ∷ [];
    receipt_queue = c.receipt_queue ++ hash ∷ [];
  }
]

-- `_block`, where a provider returned the block.
unfoldable pub block : Collector → List Text → Collector
unfolding mine_one
block c [] = c
block c (hash ∷ hashes) = block (mine_one c hash) hashes

-- One entry of the sweep: what stays, `none` where it is given up.
unfoldable pub sweep_meta : ℕ → ℕ → Meta → Option Meta
sweep_meta timeout now m =
    if leb now m.deadline
    then some m
    else if not m.rebroadcast && m.signed
    then some (record m { rebroadcast = true; deadline = now + timeout })
    else none

unfoldable pub is_pushed : ℕ → Meta → Bool
is_pushed now m = not (leb now m.deadline) && not m.rebroadcast && m.signed

-- One round of `_sweepLoop`, from an entry of the map on.
unfoldable pub sweep_entries : Collector → ℕ → Map Text Meta → Collector
unfolding sweep_meta is_pushed
sweep_entries c now [] = record c { inflight = [] }
sweep_entries c now ((hash, m) ∷ rest) =
    let d = sweep_entries c now rest in
    elim (sweep_meta c.timeout_ms now m) [
      | none ↦ record d { timed_out = d.timed_out + 1; settled = (m.from, false) ∷ d.settled }
      | some kept ↦ record d {
        inflight = (hash, kept) ∷ d.inflight;
        rebroadcasts = if is_pushed now m then d.rebroadcasts + 1 else d.rebroadcasts;
      }
    ]

-- The settle calls of the round stand behind those made before.
unfoldable pub sweep_inflight : Collector → ℕ → Collector
unfolding sweep_entries
sweep_inflight c now =
    let d = sweep_entries (record c { settled = [] }) now c.inflight in
    record d { settled = c.settled ++ d.settled }
