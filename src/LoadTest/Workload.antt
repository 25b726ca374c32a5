-- ===== src/LoadTest/Workload.antt =====
-- endurance/config/workloads.js: the operations that the load generator draws from. A contract stands
-- under its key in deployed.json, and a call is its method with the arguments. `_apply` of a
-- request is the effect that it names: it is run when the transaction is mined and succeeds.
pub mod Credits
pub mod Queues
pub mod Children
pub mod Market
pub mod Auction
pub mod Governance
pub mod Permits
pub mod Plain
pub mod Mix
pub mod Reads
mod Tests
use gemba_blockchain.Base.{
  List, Option, Text, [], get_elem?, if◌then◌else◌, length, none, some, text_eq, ℕ, ◌%◌, ◌==◌, ◌^◌,
}

pub data Arg : Type 0 where
  addr : Text → Arg
  addrs : List Text → Arg
  num : ℕ → Arg
  nums : List ℕ → Arg
  bytes : Text → Arg

-- `{to, data, value, gas}`; a deployment has no `to`.
pub record Tx : Type 0 where
  pub to : Option Text
  pub method : Text
  pub args : List Arg
  pub value : ℕ
  pub gas : ℕ

abbrev pub call : Text → Text → List Arg → ℕ → ℕ → Tx
call to method args value gas = record {
  to = some to;
  method = method;
  args = args;
  value = value;
  gas = gas;
}

-- `a[(Math.random() * a.length) | 0]`, where `draw` is the choice and the list is not empty.
unfoldable pub rand_of : List Text → ℕ → Text
rand_of a draw = elim (get_elem? a (draw % length a)) [ none ↦ [] | some x ↦ x ]

-- `others(f)`: a wallet, drawn again once if it is `f` itself.
unfoldable pub others : List Text → Text → (ℕ → ℕ) → Text
others pool f draws = let a = rand_of pool (draws 0) in if a == f then rand_of pool (draws 1) else a

abbrev pub deadline : ℕ
deadline = 19999999999

-- `10n ** 18n`, one coin.
abbrev pub coin : ℕ
coin = 10 ^ 18
