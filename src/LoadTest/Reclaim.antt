-- ===== src/LoadTest/Reclaim.antt =====
-- endurance/scripts/reclaim-locked.mjs and drain-to-founder.mjs: what the run gives back to the founder. The
-- balances that the chain reports are arguments, and so is which transactions the providers take.
pub mod Laws
use gemba_blockchain.Base.{
  Bool, List, Option, Text, [], eqb, false, if◌then◌else◌, keep, ltb, map, none, not, some, text_eq,
  true, ℕ, ◌&&◌, ◌*◌, ◌+◌, ◌-◌, ◌==◌, ◌||◌, ◌∷◌,
}
use gemba_blockchain.Strings.{to_lower}

-- The addresses of the script, the fee and the two amounts of the top-up.
pub record Plan : Type 0 where
  pub founder : Text
  pub native_pool : Text
  pub wgmb : Text
  pub faucet : Text
  pub max_fee : ℕ
  pub topup : ℕ
  pub topup_min : ℕ

-- `a.toLowerCase() === b.toLowerCase()`.
unfoldable pub same_address : Text → Text → Bool
same_address a b = to_lower a == to_lower b

-- The guard at the start: whether the script runs.
unfoldable pub may_run : Plan → Bool
may_run p =
    not (same_address p.native_pool p.faucet)
    && not (same_address p.wgmb p.faucet)
    && not (same_address p.founder p.faucet)

-- `maxFee` and `gasResv`.
unfoldable pub max_fee_of : Option ℕ → ℕ → ℕ
max_fee_of base tip =
    let b : ℕ = elim base [ none ↦ 5000000000 | some n ↦ if eqb n 0 then 5000000000 else n ] in
    b * 3 + tip

unfoldable pub gas_reserve : Plan → ℕ
gas_reserve p = 21000 * p.max_fee

-- A holder with its balances; the founder has no index.
pub record Holder : Type 0 where
  pub index : Option ℕ
  pub address : Text
  pub lp : ℕ
  pub wgmb : ℕ
  pub native : ℕ

pub data Transaction : Type 0 where
  topup : Text → ℕ → ℕ → Transaction
  remove_liquidity : Text → ℕ → Text → Transaction
  withdraw : Text → ℕ → Transaction
  sweep : Text → ℕ → Text → Transaction

abbrev is_worker : Holder → Bool
is_worker h = elim h.index [ none ↦ false | some i ↦ true ]

-- The filter of pass A.
unfoldable pub needs_topup : Plan → Holder → Bool
needs_topup p h =
    is_worker h
    && (ltb 0 h.lp || ltb 0 h.wgmb)
    && ltb h.native p.topup_min
    && not (same_address h.address p.faucet)

-- The top-ups with the founder's nonces from `nonce` on.
unfoldable pub topups : Plan → ℕ → List Holder → List Transaction
topups p nonce [] = []
topups p nonce (h ∷ hs) = topup h.address p.topup nonce ∷ topups p (nonce + 1) hs

unfoldable pub pass_a : Plan → ℕ → List Holder → List Transaction
pass_a p nonce holders = topups p nonce (keep (needs_topup p) holders)

unfoldable pub pass_b : Plan → List Holder → List Transaction
pass_b p holders =
    map (λ h. remove_liquidity h.address h.lp p.founder) (keep (λ h. ltb 0 h.lp) holders)

unfoldable pub pass_c : List Holder → List Transaction
pass_c holders = map (λ h. withdraw h.address h.wgmb) (keep (λ h. ltb 0 h.wgmb) holders)

-- The sweep of one worker: nothing for the faucet, and nothing that would not pay its own gas.
unfoldable pub sweep_one : Plan → Text × ℕ → Option Transaction
sweep_one p w =
    if same_address w.0 p.faucet
    then none
    else if ltb (gas_reserve p) w.1
    then some (sweep w.0 (w.1 - gas_reserve p) p.founder)
    else none

-- Pass D over the workers with the balances that they have then.
unfoldable pub pass_d : Plan → List (Text × ℕ) → List Transaction
pass_d p [] = []
pass_d p (w ∷ ws) = elim (sweep_one p w) [ none ↦ pass_d p ws | some t ↦ t ∷ pass_d p ws ]

-- `drain-to-founder.mjs`, which asks only for the balance: the transactions that go out and what they return.
unfoldable pub drain : Plan → (Transaction → Bool) → List (Text × ℕ) → List Transaction × ℕ
drain p up [] = ([], 0)
drain p up (w ∷ ws) =
    let rest = drain p up ws in
    let t = sweep w.0 (w.1 - gas_reserve p) p.founder in
    if ltb (gas_reserve p) w.1 && up t then (t ∷ rest.0, w.1 - gas_reserve p + rest.1) else rest
