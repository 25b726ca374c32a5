-- ===== src/LoadTest/Stress/Workload.antt =====
-- stress/config/workloads.js: the operations of the older load test. A producer marks its effect when it is
-- built, not when it is mined. `draws` are the choices of `Math.random()`.
use gemba_blockchain.Base.{
  Bool, List, Map, Option, Text, [], any, arith, codes, if◌then◌else◌, insert, length, ltb, min,
  none, some, suc, text_eq, zero, ℕ, ◌++◌, ◌+◌, ◌-◌, ◌==◌, ◌^◌, ◌∷◌, ◌≡◌,
}
use gemba_blockchain.LoadTest.Workload.{addr, num, Tx, call, rand_of}
use gemba_blockchain.LoadTest.Workload.Queues.{queue_of}

pub record StressContext : Type 0 where
  pub nft_count : ℕ
  pub max_nft : ℕ
  pub nft_seq : ℕ
  pub nft_owned : Map Text (List ℕ)
  pub wrapped : List Text
  pub liq_providers : List Text

-- `set.add(f)` and `set.has(f)`.
abbrev pub has : List Text → Text → Bool
has set f = any (λ g. g == f) set

unfoldable pub add : List Text → Text → List Text
add set f = if has set f then set else set ++ f ∷ []

-- `erc721Mint`, up to a number of tokens.
unfoldable pub build_erc721_mint : StressContext → List Text → ℕ → StressContext × Option Tx
build_erc721_mint c pool draw = (
  record c { nft_count = c.nft_count + 1 },
  if ltb c.nft_count c.max_nft
      then some (call (codes "erc721") (codes "mint") (addr (rand_of pool draw) ∷ []) 0 120000)
      else none,
)

unfoldable pub build_nft_mint : StressContext → Text → StressContext × Tx
build_nft_mint c f = (
  record c {
    nft_seq = c.nft_seq + 1;
    nft_owned = insert f (queue_of f c.nft_owned ++ c.nft_seq ∷ []) c.nft_owned;
  },
  call (codes "nft2") (codes "mint") (addr f ∷ num c.nft_seq ∷ []) 0 110000,
)

-- `nftTransfer`: the oldest of three ids or more.
unfoldable pub build_nft_transfer : StressContext → List Text → ℕ → Text → StressContext × Option Tx
build_nft_transfer c pool draw f = elim (queue_of f c.nft_owned) [
  | [] ↦ (c, none)
  | id ∷ q ↦ if ltb (length q + 1) 3 then (c, none) else (
    record c { nft_owned = insert f q c.nft_owned },
    some (
        call (codes "nft2") (codes "transferFrom") (addr f ∷ addr (rand_of pool draw) ∷ num id ∷ [])
          0 90000),
  )
]

unfoldable pub build_wrap_gmb : StressContext → Text → StressContext × Tx
build_wrap_gmb c f = (
  record c { wrapped = add c.wrapped f },
  call (codes "wgmb") (codes "deposit") [] (10 ^ 15) 55000,
)

unfoldable pub build_unwrap_gmb : StressContext → Text → Option Tx
build_unwrap_gmb c f =
    if has c.wrapped f
    then some (call (codes "wgmb") (codes "withdraw") (num (10 ^ 14) ∷ []) 0 55000)
    else none

abbrev t0 : Text
t0 = codes "t0"

abbrev t1 : Text
t1 = codes "t1"

unfoldable pub build_dex_add_liq : StressContext → Text → StressContext × Tx
build_dex_add_liq c f = (
  record c { liq_providers = add c.liq_providers f },
  call (codes "dex") (codes "addLiquidity") (addr t0 ∷ addr t1 ∷ num 100000 ∷ num 100000 ∷ []) 0
      220000,
)

unfoldable pub build_dex_remove_liq : StressContext → Text → Option Tx
build_dex_remove_liq c f =
    if has c.liq_providers f
    then some
        (call (codes "dex") (codes "removeLiquidity") (addr t0 ∷ addr t1 ∷ num 1000 ∷ []) 0 180000)
    else none

-- So many builds of `erc721Mint`, and how many of them make a request.
unfoldable pub mints_built : StressContext → List Text → (ℕ → ℕ) → ℕ → ℕ
mints_built c pool draws zero = 0
mints_built c pool draws (suc n) =
    let built = build_erc721_mint c pool (draws n) in
    let later = mints_built built.0 pool draws n in
    elim built.1 [ none ↦ later | some tx ↦ later + 1 ]

-- However often it is drawn, the operation mints exactly up to the number of tokens that is left.
pub mints_built-exact :
    (n : ℕ) (c : StressContext) (pool : List Text) (draws : ℕ → ℕ)
    → mints_built c pool draws n ≡ min n (c.max_nft - c.nft_count)
unfolding mints_built build_erc721_mint
mints_built-exact zero c pool draws = omega arith
mints_built-exact (suc n) c pool draws =
    let later = mints_built-exact n (record c { nft_count = c.nft_count + 1 }) pool draws in
    ground (arith, later)
