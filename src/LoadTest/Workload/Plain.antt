-- ===== src/LoadTest/Workload/Plain.antt =====
-- endurance/config/workloads.js: the operations that need no state. `draws` are the choices of
-- `Math.random()`, cut to their range.
use gemba_blockchain.Base.{
  Bool, List, Text, [], codes, if◌then◌else◌, some, suc, zero, ℕ, ◌%◌, ◌*◌, ◌++◌, ◌+◌, ◌^◌, ◌∷◌,
}
use gemba_blockchain.LoadTest.Workload.{
  num, addr, nums, addrs, Tx, call, rand_of, others, deadline, coin,
}
use gemba_blockchain.LoadTest.Workload.Credits.{Pair}

pub data TokenOp : Type 0 where
  native_transfer : TokenOp
  erc20_mint : TokenOp
  erc20_transfer : TokenOp
  erc20_approve : TokenOp

-- The tokens by their keys.
abbrev tka : Text
tka = codes "tka"

abbrev tkb : Text
tkb = codes "tkb"

unfoldable pub build_token : TokenOp → List Text → (ℕ → ℕ) → Text → Tx
build_token native_transfer pool draws f = record {
  to = some (others pool f draws);
  method = [];
  args = [];
  value = 1;
  gas = 21000;
}
build_token erc20_mint pool draws f = call tka (codes "mint") (addr f ∷ num (10 ^ 24) ∷ []) 0 75000
build_token erc20_transfer pool draws f =
    call (rand_of (tka ∷ tkb ∷ []) (draws 2)) (codes "transfer")
      (addr (others pool f draws) ∷ num 1 ∷ []) 0 70000
build_token erc20_approve pool draws f =
    call (rand_of (tka ∷ tkb ∷ codes "tkc" ∷ []) (draws 2)) (codes "approve")
      (addr (codes "router") ∷ num (2 ^ 255) ∷ []) 0 60000

pub data SwapOp : Type 0 where
  -- the pair that is drawn, and whether `Math.random() < 0.5`
  dex_swap : Pair → Bool → SwapOp
  fee_swap : SwapOp
  rebase_swap : SwapOp
  rebase_up : SwapOp
  native_swap_in : SwapOp
  native_swap_out : SwapOp

abbrev fee_method : Text
fee_method = codes "swapExactTokensForTokensSupportingFeeOnTransferTokens"

unfoldable pub build_swap : SwapOp → Text → Tx
build_swap (dex_swap p forward) f =
    call (codes "router") (codes "swapExactTokensForTokens")
      (num coin
        ∷ num 0
        ∷ addrs (if forward then p.a ∷ p.b ∷ [] else p.b ∷ p.a ∷ [])
        ∷ addr f
        ∷ num deadline
        ∷ [])
      0 240000
build_swap fee_swap f =
    call (codes "router") fee_method
      (num coin ∷ num 0 ∷ addrs (codes "feeToken" ∷ tka ∷ []) ∷ addr f ∷ num deadline ∷ []) 0 260000
build_swap rebase_swap f =
    call (codes "router") fee_method
      (num coin ∷ num 0 ∷ addrs (codes "rebaseToken" ∷ tka ∷ []) ∷ addr f ∷ num deadline ∷ []) 0
      260000
build_swap rebase_up f = call (codes "rebaseToken") (codes "rebase") (num 10 ∷ []) 0 80000
build_swap native_swap_in f =
    call (codes "nativePool") (codes "swapExactNativeForTokens")
      (num 0 ∷ addr f ∷ num deadline ∷ []) (10 ^ 15) 230000
build_swap native_swap_out f =
    call (codes "nativePool") (codes "swapExactTokensForNative")
      (num (10 ^ 15) ∷ num 0 ∷ addr f ∷ num deadline ∷ []) 0 230000

pub data ComputeOp : Type 0 where
  deep_chain_run : ComputeOp
  deep_callback : ComputeOp
  disperse_many : ComputeOp
  events_burst : ComputeOp
  batch_multicall : ComputeOp
  workbench_set : ComputeOp
  workbench_loop : ComputeOp

-- `n` receivers: the choices of the i-th are those from `2 * i` on.
unfoldable pub receivers : List Text → (ℕ → ℕ) → Text → ℕ → List Text
receivers pool draws f zero = []
receivers pool draws f (suc n) =
    receivers pool draws f n ++ others pool f (λ i. draws (2 * n + i)) ∷ []

unfoldable pub ones : ℕ → List ℕ
ones zero = []
ones (suc n) = 1 ∷ ones n

-- The size of an operation, `least + ((Math.random() * range) | 0)`, has a choice of its own.
unfoldable pub build_compute : ComputeOp → List Text → ℕ → (ℕ → ℕ) → Text → Tx
build_compute deep_chain_run pool size draws f = call (codes "hopA") (codes "run") [] 0 220000
build_compute deep_callback pool size draws f =
    call (codes "hopA") (codes "runWithCallback") [] 0 130000
build_compute disperse_many pool size draws f =
    let n = 4 + size % 5 in
    call (codes "disperse") (codes "disperseNative")
      (addrs (receivers pool draws f n) ∷ nums (ones n) ∷ []) n (60000 + 40000 * n)
build_compute events_burst pool size draws f =
    let n = 8 + size % 24 in
    call (codes "eventsHeavy") (codes "emitMany") (num n ∷ []) 0 (40000 + 6000 * n)
build_compute batch_multicall pool size draws f =
    let n = 2 + size % 7 in
    call (codes "batch") (codes "pingMany") (addr (codes "pinger") ∷ num n ∷ []) 0
      (90000 + 45000 * n)
build_compute workbench_set pool size draws f =
    call (codes "workbench") (codes "set")
      (num (draws 0 % 1000000000) ∷ num (draws 1 % 1000000000) ∷ []) 0 55000
build_compute workbench_loop pool size draws f =
    call (codes "workbench") (codes "loop") (num 50 ∷ []) 0 450000

unfoldable pub build_diamond_bump : Tx
build_diamond_bump = call (codes "diamond") (codes "increment") [] 0 110000

unfoldable pub build_diamond_set : ℕ → Tx
build_diamond_set draw =
    call (codes "diamond") (codes "setEntry") (num (draw % 1000000000) ∷ []) 0 180000

unfoldable pub build_clone_and_init : ℕ → Tx
build_clone_and_init draw =
    call (codes "cloneFactory") (codes "cloneAndInit") (num (draw % 1000000) ∷ []) 0 260000
