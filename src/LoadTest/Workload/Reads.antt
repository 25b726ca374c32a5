-- ===== src/LoadTest/Workload/Reads.antt =====
-- endurance/config/workloads.js: what the arguments of a transaction say.
use gemba_blockchain.Base.{List, [], eqb, if◌then◌else◌, ℕ, ◌∷◌}
use gemba_blockchain.LoadTest.Workload.{Arg, addr, addrs, num, nums, bytes, Tx}

-- The first number among the arguments, an id or an amount; 0 where there is none.
unfoldable pub first_number : List Arg → ℕ
first_number [] = 0
first_number (num n ∷ args) = n
first_number (addr a ∷ args) = first_number args
first_number (addrs a ∷ args) = first_number args
first_number (nums a ∷ args) = first_number args
first_number (bytes a ∷ args) = first_number args

-- Whether the first number is the id.
unfoldable pub names_id : ℕ → Tx → ℕ
names_id id tx = if eqb (first_number tx.args) id then 1 else 0
