-- ===== src/LoadTest/Workload/Children.antt =====
-- endurance/config/workloads.js: the contracts that the run deploys and then calls, and the one ERC1155
-- id of a wallet. The addresses that a deployment gets are computed by ethers, and are arguments.
use gemba_blockchain.Base.{
  Bool, List, Map, Option, Text, [], codes, false, if◌then◌else◌, insert, lookup, map, none, some,
  text_eq, true, ℕ, ◌%◌, ◌+◌, ◌∷◌,
}
use gemba_blockchain.LoadTest.Workload.{Arg, num, addr, bytes, Tx, call, others}
use gemba_blockchain.LoadTest.Workload.Queues.{queue_of, push_capped}

pub record Clone : Type 0 where
  pub address : Text
  pub inited : Bool

pub record Children : Type 0 where
  pub salt : ℕ
  pub clone_salt : ℕ
  pub eoa_children : Map Text (List Text)
  pub factory_children : Map Text (List Text)
  pub clones : Map Text (List Clone)
  pub has1155 : Map Text Bool

-- `deployChild`: a transaction without receiver.
unfoldable pub build_deploy_child : Text → Tx
build_deploy_child child_bytecode = record {
  to = none;
  method = [];
  args = bytes child_bytecode ∷ [];
  value = 0;
  gas = 280000;
}

-- The effect of `deployChild`, with `createAddr(f, res.nonce)`.
unfoldable pub apply_deploy_child : Children → Text → Text → Children
apply_deploy_child c f created = record c { eoa_children = push_capped f created c.eoa_children }

-- A call of the oldest contract of a queue.
unfoldable pub call_first : Text → List Arg → ℕ → List Text → Option Tx
call_first method args gas [] = none
call_first method args gas (q ∷ qs) = some (call q method args 0 gas)

unfoldable pub build_call_deployed_child : Children → Text → Option Tx
build_call_deployed_child c f = call_first (codes "bump") [] 95000 (queue_of f c.eoa_children)

-- `factoryDeploy`, with the address of its child.
unfoldable pub build_factory_deploy : (ℕ → Text) → Children → Children × Tx × Text
build_factory_deploy create2_addr c = (
  record c { salt = c.salt + 1 },
  call (codes "miniFactory") (codes "createChild") (num c.salt ∷ []) 0 240000,
  create2_addr c.salt,
)

unfoldable pub apply_factory_deploy : Children → Text → Text → Children
apply_factory_deploy c f created = record c {
  factory_children = push_capped f created c.factory_children;
}

unfoldable pub build_factory_call_child : Children → Text → ℕ → Option Tx
build_factory_call_child c f draw =
    call_first (codes "setValue") (num (draw % 1000000) ∷ []) 95000 (queue_of f c.factory_children)

-- `cloneDeterministic`, with `salt32` and `cloneAddr`.
unfoldable pub build_clone_deterministic :
    (ℕ → Text) → (Text → Text) → Children → Children × Tx × Text
build_clone_deterministic salt32 clone_addr c =
    let salt_hex = salt32 c.clone_salt in
    (
      record c { clone_salt = c.clone_salt + 1 },
      call (codes "cloneFactory") (codes "cloneDeterministic") (bytes salt_hex ∷ []) 0 220000,
      clone_addr salt_hex,
    )

unfoldable pub apply_clone_deterministic : Children → Text → Text → Children
apply_clone_deterministic c f created = record c {
  clones = push_capped f (record { address = created; inited = false }) c.clones;
}

-- `q.find((x) => !x.inited)`, with the queue in which it is marked.
unfoldable pub init_first : List Clone → Option (Text × List Clone)
init_first [] = none
init_first (e ∷ q) =
    let rest = init_first q in
    if e.inited
    then (elim rest [ none ↦ none | some r ↦ some (r.0, e ∷ r.1) ])
    else some (e.address, record e { inited = true } ∷ q)

unfoldable pub build_clone_init : Children → Text → ℕ → Children × Option Tx
build_clone_init c f draw = elim (init_first (queue_of f c.clones)) [
  | none ↦ (c, none)
  | some r ↦ (
    record c { clones = insert f r.1 c.clones },
    some (call r.0 (codes "init") (addr f ∷ num (draw % 1000000) ∷ []) 0 120000),
  )
]

unfoldable pub build_clone_call : Children → Text → Option Tx
build_clone_call c f =
    call_first (codes "ping") [] 90000 (map (λ e. e.address) (queue_of f c.clones))

-- The ERC1155 id of a wallet is its index; `indexOf` of a wallet that is in no list is 0.
unfoldable pub build_erc1155_mint : Option ℕ → Text → Tx
build_erc1155_mint index f =
    let id : ℕ = elim index [ none ↦ 0 | some i ↦ i ] in
    call (codes "erc1155") (codes "mint") (addr f ∷ num id ∷ num 1000000 ∷ []) 0 75000

unfoldable pub apply_erc1155_mint : Children → Text → Children
apply_erc1155_mint c f = record c { has1155 = insert f true c.has1155 }

unfoldable pub build_erc1155_transfer : Children → Option ℕ → List Text → (ℕ → ℕ) → Text → Option Tx
build_erc1155_transfer c index pool draws f =
    let id : ℕ = elim index [ none ↦ 0 | some i ↦ i ] in
    let tx =
      call (codes "erc1155") (codes "safeTransferFrom")
        (addr f ∷ addr (others pool f draws) ∷ num id ∷ num 1 ∷ bytes [] ∷ []) 0 75000 in
    elim (lookup f c.has1155) [ none ↦ none | some has ↦ (if has then some tx else none) ]
