-- ===== src/LoadTest/Workload/Credits/Laws.antt =====
-- What is withdrawn was deposited before.
use gemba_blockchain.Base.{
  Bool, List, Option, Text, [], if◌then◌else◌, none, some, text_eq, ℕ, ◌&&◌, ◌+◌, ◌==◌, ◌∷◌,
}
use gemba_blockchain.LoadTest.Workload.{Tx}
use gemba_blockchain.LoadTest.Workload.Reads.{first_number}
use gemba_blockchain.LoadTest.Workload.Credits.{
  Pot, lp, pot_beq, Credits, apply_deposit, DepositOp, wrap_gmb, dex_add_liq, native_add_liq,
  eco_deposit, vault_deposit, vault_mint, stake_deposit, rwd_stake, build_deposit, Pair, wgmb, eco,
  stake, vault, rwd, nlp, unwrap_gmb, native_remove_liq, eco_withdraw, vault_withdraw,
  stake_withdraw, rwd_unstake, first_pair, WithdrawOp, build_withdraw, build_dex_remove_liq,
}

-- Whether two pots of two wallets are the same.
abbrev same_pot : Pot → Text → Pot → Text → Bool
same_pot p f q g = pot_beq p q && (f == g)

abbrev value : Option ℕ → ℕ
value o = elim o [ none ↦ 0 | some k ↦ k ]

-- What happens to the credits: the transaction of a deposit is mined, or a withdrawal is built.
pub data CreditEvent : Type 0 where
  mined : DepositOp → Text → CreditEvent
  withdraws : WithdrawOp → Text → CreditEvent
  removes_liq : List Pair → Text → CreditEvent

unfoldable pub after : Credits → CreditEvent → Credits
after c (mined op f) = apply_deposit c (build_deposit op f).1
after c (withdraws op f) = (build_withdraw c op f).0
after c (removes_liq pairs f) = (build_dex_remove_liq c pairs f).0

unfoldable pub after_all : Credits → List CreditEvent → Credits
after_all c [] = c
after_all c (e ∷ es) = after_all (after c e) es

-- The pot that a deposit fills.
unfoldable pub pot_filled : DepositOp → Pot
pot_filled wrap_gmb = wgmb
pot_filled (dex_add_liq p) = lp p.lp_token
pot_filled native_add_liq = nlp
pot_filled eco_deposit = eco
pot_filled vault_deposit = vault
pot_filled vault_mint = vault
pot_filled stake_deposit = stake
pot_filled rwd_stake = rwd

-- What the transaction of a deposit pays in: its value, or the tokens that it sends. For liquidity it is the
-- shares that are counted for it, 0.25 of a coin's units and 10^13.
unfoldable pub paid_in : DepositOp → Tx → ℕ
paid_in wrap_gmb tx = tx.value
paid_in (dex_add_liq p) tx = 250000000000000000
paid_in native_add_liq tx = 10000000000000
paid_in eco_deposit tx = tx.value
paid_in vault_deposit tx = first_number tx.args
paid_in vault_mint tx = first_number tx.args
paid_in stake_deposit tx = first_number tx.args
paid_in rwd_stake tx = first_number tx.args

-- What an event deposits into a pot of a wallet.
unfoldable pub deposited : CreditEvent → Pot → Text → ℕ
deposited (mined op f) q g =
    if same_pot (pot_filled op) f q g then paid_in op (build_deposit op f).0 else 0
deposited e q g = 0

-- The pot that a withdrawal draws on.
unfoldable pub pot_drawn : WithdrawOp → Pot
pot_drawn unwrap_gmb = wgmb
pot_drawn native_remove_liq = nlp
pot_drawn eco_withdraw = eco
pot_drawn (vault_withdraw coin_toss) = vault
pot_drawn stake_withdraw = stake
pot_drawn rwd_unstake = rwd

-- What the transaction that an event builds, if it builds one, takes out of a pot of a wallet: the first number that
-- it sends. Liquidity is taken out of the pot of the first pair with enough of it.
unfoldable pub withdrawn : Credits → CreditEvent → Pot → Text → ℕ
withdrawn c (mined op f) q g = 0
withdrawn c (withdraws op f) q g = elim (build_withdraw c op f).1 [
  | none ↦ 0
  | some tx ↦ if same_pot (pot_drawn op) f q g then first_number tx.args else 0
]
withdrawn c (removes_liq pairs f) q g = elim (build_dex_remove_liq c pairs f).1 [
  | none ↦ 0
  | some tx ↦ elim (first_pair c pairs f) [
    | none ↦ first_number tx.args
    | some p ↦ if same_pot (lp p.lp_token) f q g then first_number tx.args else 0
  ]
]

unfoldable pub deposited_all : List CreditEvent → Pot → Text → ℕ
deposited_all [] q g = 0
deposited_all (e ∷ es) q g = deposited e q g + deposited_all es q g

unfoldable pub withdrawn_all : Credits → List CreditEvent → Pot → Text → ℕ
withdrawn_all c [] q g = 0
withdrawn_all c (e ∷ es) q g = withdrawn c e q g + withdrawn_all (after c e) es q g
