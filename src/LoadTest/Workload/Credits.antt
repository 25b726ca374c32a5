-- ===== src/LoadTest/Workload/Credits.antt =====
-- endurance/config/workloads.js: what a wallet may take out again, by pot. A deposit raises the
-- credit when it is mined, a withdrawal lowers it when it is built.
pub mod Laws
use gemba_blockchain.Base.{
  Bool, List, Map, Option, Text, [], codes, false, if◌then◌else◌, insert, leb, lookup, ltb, none,
  some, text_beq, text_eq, true, ℕ, ◌*◌, ◌+◌, ◌-◌, ◌/◌, ◌^◌, ◌∷◌,
}
use gemba_blockchain.LoadTest.Workload.{Arg, num, addr, Tx, call, deadline, coin}

-- The pots of a wallet: `c.wgmb`, `c.eco`, `c.stake`, `c.vault`, `c.rwd`, `c.nlp` and, by the pair
-- token, `c.lp`.
pub data Pot : Type 0 where
  wgmb : Pot
  eco : Pot
  stake : Pot
  vault : Pot
  rwd : Pot
  nlp : Pot
  lp : Text → Pot

abbrev pub pot_beq : Pot → Pot → Bool
pot_beq wgmb wgmb = true
pot_beq eco eco = true
pot_beq stake stake = true
pot_beq vault vault = true
pot_beq rwd rwd = true
pot_beq nlp nlp = true
pot_beq (lp s) (lp t) = text_beq s t
pot_beq p q = false

-- `c.pot[f] || 0n`, by wallet.
abbrev pub Credits : Type 0
Credits = Pot → Map Text ℕ

unfoldable pub credit : Credits → Pot → Text → ℕ
credit c p f = elim (lookup f (c p)) [ none ↦ 0 | some n ↦ n ]

unfoldable pub set_credit : Credits → Pot → Text → ℕ → Credits
set_credit c p f n = λ q. if pot_beq p q then insert f n (c q) else c q

-- What a request does when it is mined: `c.pot[f] = (c.pot[f] || 0n) + amount`.
pub record Deposit : Type 0 where
  pub pot : Pot
  pub owner : Text
  pub amount : ℕ

unfoldable pub apply_deposit : Credits → Deposit → Credits
apply_deposit c d = set_credit c d.pot d.owner (credit c d.pot d.owner + d.amount)

-- A pair of tokens with its liquidity token.
pub record Pair : Type 0 where
  pub a : Text
  pub b : Text
  pub lp_token : Text

abbrev pub lp_remove : ℕ
lp_remove = 10 ^ 16

abbrev pub lp_credit : ℕ
lp_credit = coin / 4

pub data DepositOp : Type 0 where
  wrap_gmb : DepositOp
  dex_add_liq : Pair → DepositOp
  native_add_liq : DepositOp
  eco_deposit : DepositOp
  vault_deposit : DepositOp
  vault_mint : DepositOp
  stake_deposit : DepositOp
  rwd_stake : DepositOp

abbrev pub owned : Pot → Text → ℕ → Deposit
owned p f n = record { pot = p; owner = f; amount = n }

-- The producers: the transaction and the effect of its confirmation. A pair is drawn by the caller.
unfoldable pub build_deposit : DepositOp → Text → Tx × Deposit
build_deposit wrap_gmb f =
    (call (codes "wgmb") (codes "deposit") [] (10 ^ 15) 70000, owned wgmb f (10 ^ 15))
build_deposit (dex_add_liq p) f = (
  call (codes "router") (codes "addLiquidity")
      (addr p.a ∷ addr p.b ∷ num coin ∷ num coin ∷ num 0 ∷ num 0 ∷ addr f ∷ num deadline ∷ []) 0
      280000,
  owned (lp p.lp_token) f lp_credit,
)
build_deposit native_add_liq f = (
  call (codes "nativePool") (codes "addLiquidity")
      (num coin ∷ num 0 ∷ num 0 ∷ addr f ∷ num deadline ∷ []) (10 ^ 15) 320000,
  owned nlp f (10 ^ 13),
)
build_deposit eco_deposit f =
    (call (codes "ecoBank") (codes "deposit") [] (10 ^ 9) 280000, owned eco f (10 ^ 9))
build_deposit vault_deposit f =
    (call (codes "vault") (codes "deposit") (num coin ∷ []) 0 200000, owned vault f coin)
build_deposit vault_mint f =
    (call (codes "vault") (codes "mint") (num coin ∷ []) 0 200000, owned vault f coin)
build_deposit stake_deposit f =
    (call (codes "staking") (codes "stake") (num coin ∷ []) 0 220000, owned stake f coin)
build_deposit rwd_stake f =
    (call (codes "rewardStaking") (codes "stake") (num coin ∷ []) 0 260000, owned rwd f coin)

pub data WithdrawOp : Type 0 where
  unwrap_gmb : WithdrawOp
  native_remove_liq : WithdrawOp
  eco_withdraw : WithdrawOp
  -- whether `Math.random() < 0.5`
  vault_withdraw : Bool → WithdrawOp
  stake_withdraw : WithdrawOp
  rwd_unstake : WithdrawOp

-- The pot, the amount that is taken, and the transaction.
unfoldable pub withdrawal : WithdrawOp → Text → Pot × ℕ × Tx
withdrawal unwrap_gmb f =
    (wgmb, 10 ^ 14, call (codes "wgmb") (codes "withdraw") (num (10 ^ 14) ∷ []) 0 70000)
withdrawal native_remove_liq f = (
  nlp,
  10 ^ 13,
  call (codes "nativePool") (codes "removeLiquidity")
      (num (10 ^ 13) ∷ num 0 ∷ num 0 ∷ addr f ∷ num deadline ∷ []) 0 260000,
)
withdrawal eco_withdraw f =
    (eco, 4 * 10 ^ 8, call (codes "ecoBank") (codes "withdraw") (num (4 * 10 ^ 8) ∷ []) 0 130000)
withdrawal (vault_withdraw coin_toss) f = (
  vault,
  4 * 10 ^ 17,
  call (codes "vault") (if coin_toss then codes "withdraw" else codes "redeem")
      (num (4 * 10 ^ 17) ∷ []) 0 160000,
)
withdrawal stake_withdraw f = (
  stake,
  4 * 10 ^ 17,
  call (codes "staking") (codes "withdraw") (num (4 * 10 ^ 17) ∷ []) 0 160000,
)
withdrawal rwd_unstake f = (
  rwd,
  4 * 10 ^ 17,
  call (codes "rewardStaking") (codes "unstake") (num (4 * 10 ^ 17) ∷ []) 0 220000,
)

-- The consumers: nothing, and no change, where the credit is too small.
unfoldable pub take_credit : Credits → Pot → Text → ℕ → Option Credits
take_credit c p f n =
    if ltb (credit c p f) n then none else some (set_credit c p f (credit c p f - n))

unfoldable pub build_withdraw : Credits → WithdrawOp → Text → Credits × Option Tx
build_withdraw c op f =
    let w = withdrawal op f in
    elim (take_credit c w.0 f w.1) [ none ↦ (c, none) | some d ↦ (d, some w.2) ]

-- `dexRemoveLiq`: the first pair with enough credit.
unfoldable pub first_pair : Credits → List Pair → Text → Option Pair
first_pair c [] f = none
first_pair c (p ∷ ps) f =
    let later = first_pair c ps f in
    if leb lp_remove (credit c (lp p.lp_token) f) then some p else later

unfoldable pub build_dex_remove_liq : Credits → List Pair → Text → Credits × Option Tx
build_dex_remove_liq c pairs f = elim (first_pair c pairs f) [
  | none ↦ (c, none)
  | some p ↦ (
    set_credit c (lp p.lp_token) f (credit c (lp p.lp_token) f - lp_remove),
    some (
        call (codes "router") (codes "removeLiquidity")
          (addr p.a ∷ addr p.b ∷ num lp_remove ∷ num 0 ∷ num 0 ∷ addr f ∷ num deadline ∷ []) 0
          260000),
  )
]

-- `rwdClaim`: only with something staked; it takes nothing.
unfoldable pub build_rwd_claim : Credits → Text → Option Tx
build_rwd_claim c f =
    if ltb 0 (credit c rwd f)
    then some (call (codes "rewardStaking") (codes "claim") [] 0 180000)
    else none
