-- ===== src/LoadTest/Workload/Queues.antt =====
-- endurance/config/workloads.js: the tokens and contracts that a wallet owns for certain, in queues
-- that its mined transactions fill and its next ones empty.
pub mod Laws
use gemba_blockchain.Base.{
  List, Map, Option, Text, [], codes, drop, if◌then◌else◌, insert, length, lookup, ltb, none, range,
  some, text_eq, ℕ, ◌%◌, ◌*◌, ◌++◌, ◌+◌, ◌^◌, ◌∷◌,
}
use gemba_blockchain.LoadTest.Workload.{Arg, num, addr, bytes, Tx, call, others}

abbrev pub qcap : ℕ
qcap = 300

-- `cap`.
unfoldable pub cap {ℓ} : {A : Type ℓ} → List A → List A
cap q = if ltb qcap (length q) then drop 1 q else q

-- `c.queue[f] || []`.
abbrev pub queue_of {ℓ} : {A : Type ℓ} → Text → Map Text (List A) → List A
queue_of f m = elim (lookup f m) [ none ↦ [] | some q ↦ q ]

-- `(c.queue[f] ||= []).push(e); cap(c.queue[f])`.
unfoldable pub push_capped {ℓ} : {A : Type ℓ} → Text → A → Map Text (List A) → Map Text (List A)
push_capped f e m = insert f (cap (queue_of f m ++ e ∷ [])) m

-- `q.shift()`, where there is a queue that is not empty.
unfoldable pub shift_queue {ℓ} :
    {A : Type ℓ} → Text → Map Text (List A) → Option (A × Map Text (List A))
shift_queue f m = elim (queue_of f m) [ [] ↦ none | e ∷ q ↦ some (e, insert f q m) ]

-- The ids that a wallet owns: `nftOwned`, `mktOwned`, `royOwned` and `aucOwned` with the counter
-- that numbers their mints.
pub record Mints : Type 0 where
  pub seq : ℕ
  pub owned : Map Text (List ℕ)

-- The four contracts that mint with an id of the caller's choice: `nftMint`, `mktMint`, `royaltyMint`
-- and `auctionMint`.
pub data Collection : Type 0 where
  nft : Collection
  market_nft : Collection
  royalty_nft : Collection
  auction_nft : Collection

abbrev pub contract_of : Collection → Text
contract_of nft = codes "nft"
contract_of market_nft = codes "marketNft"
contract_of royalty_nft = codes "royaltyNft"
contract_of auction_nft = codes "auctionNft"

-- The transaction and the id that is owned once it is mined.
unfoldable pub build_mint : Collection → Mints → Text → Mints × Tx × ℕ
build_mint k c f = (
  record c { seq = c.seq + 1 },
  call (contract_of k) (codes "mint") (addr f ∷ num c.seq ∷ []) 0 120000,
  c.seq,
)

unfoldable pub apply_mint : Mints → Text → ℕ → Mints
apply_mint c f id = record c { owned = push_capped f id c.owned }

-- The consumers of such a queue: what is left of it, and the transaction with its id.
pub data TokenUse : Type 0 where
  nft_transfer : TokenUse
  mkt_list : TokenUse
  royalty_list : TokenUse
  create_english : TokenUse
  create_dutch : TokenUse

unfoldable pub use_of : TokenUse → List Text → (ℕ → ℕ) → Text → ℕ → Tx
use_of nft_transfer pool draws f id =
    call (codes "nft") (codes "transferFrom") (addr f ∷ addr (others pool f draws) ∷ num id ∷ []) 0
      90000
use_of mkt_list pool draws f id =
    call (codes "market") (codes "list") (num id ∷ num (10 ^ 9) ∷ []) 0 220000
use_of royalty_list pool draws f id =
    call (codes "royaltyMarket") (codes "list") (num id ∷ num (10 ^ 9) ∷ []) 0 220000
use_of create_english pool draws f id =
    call (codes "auctionHouse") (codes "createEnglish") (num id ∷ num (10 ^ 9) ∷ num 180 ∷ []) 0
      220000
use_of create_dutch pool draws f id =
    call (codes "auctionHouse") (codes "createDutch")
      (num id ∷ num (2 * 10 ^ 9) ∷ num (10 ^ 8) ∷ num 1000000 ∷ []) 0 220000

unfoldable pub build_use : TokenUse → List Text → (ℕ → ℕ) → Mints → Text → Mints × Option (Tx × ℕ)
build_use u pool draws c f = elim (shift_queue f c.owned) [
  | none ↦ (c, none)
  | some (id, rest) ↦ (record c { owned = rest }, some (use_of u pool draws f id, id))
]

-- Batch mints and the staking of their tokens: `batchSeq`, `batchIds` and `nftStaked`.
pub record Batches : Type 0 where
  pub batch_seq : ℕ
  pub batch_ids : Map Text (List ℕ)
  pub nft_staked : Map Text (List ℕ)

-- `batchMint`, where `draw` is `(Math.random() * 6) | 0`.
unfoldable pub build_batch_mint : Batches → Text → ℕ → Batches × Tx × ℕ × ℕ
build_batch_mint c f draw =
    let n = 3 + draw % 6 in
    (
      record c { batch_seq = c.batch_seq + n },
      call (codes "batchNft") (codes "mintBatch") (addr f ∷ num c.batch_seq ∷ num n ∷ []) 0
          (120000 + 30000 * n),
      c.batch_seq,
      n,
    )

unfoldable pub apply_batch_mint : Batches → Text → ℕ → ℕ → Batches
apply_batch_mint c f start n = record c {
  batch_ids = insert f (cap (queue_of f c.batch_ids ++ range start n)) c.batch_ids;
}

unfoldable pub build_nft_stake_stake : Batches → Text → Batches × Option (Tx × ℕ)
build_nft_stake_stake c f = elim (shift_queue f c.batch_ids) [
  | none ↦ (c, none)
  | some (id, rest) ↦ (
    record c { batch_ids = rest },
    some (call (codes "nftStaking") (codes "stake") (num id ∷ []) 0 200000, id),
  )
]

unfoldable pub apply_nft_stake_stake : Batches → Text → ℕ → Batches
apply_nft_stake_stake c f id = record c { nft_staked = push_capped f id c.nft_staked }

unfoldable pub build_nft_stake_unstake : Batches → Text → Batches × Option Tx
build_nft_stake_unstake c f = elim (shift_queue f c.nft_staked) [
  | none ↦ (c, none)
  | some (id, rest) ↦ (
    record c { nft_staked = rest },
    some (call (codes "nftStaking") (codes "unstake") (num id ∷ []) 0 220000),
  )
]
