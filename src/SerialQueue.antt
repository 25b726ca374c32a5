-- ===== src/SerialQueue.antt =====
-- services/access-control/src/chain.js (and the same code in services/testnet-faucet/src/faucet.js):
-- `serialize`, which chains every send from one wallet behind the one before it.
pub mod Laws
mod Tests
use gemba_blockchain.Base.{Bool, List, [], false, if◌then◌else◌, suc, true, zero, ℕ, ◌++◌, ◌∷◌}

-- The promise of one send, in the order of the calls of `serialize`.
pub data Status : Type 0 where
  queued running : Status
  settled : Bool → Status

abbrev pub is_settled : Status → Bool
is_settled (settled ok) = true
is_settled _ = false

-- `queue.then(fn, fn)`: the send at the position starts once the promise before it has settled, either
-- way; `before` says whether that one has.
unfoldable pub start : Bool → ℕ → List Status → List Status
start before i [] = []
start before zero (queued ∷ js) = if before then running ∷ js else queued ∷ js
start before zero (j ∷ js) = j ∷ js
start before (suc i) (j ∷ js) = j ∷ start (is_settled j) i js

-- The transaction of a running send ends.
unfoldable pub settle : Bool → ℕ → List Status → List Status
settle ok i [] = []
settle ok zero (running ∷ js) = settled ok ∷ js
settle ok zero (j ∷ js) = j ∷ js
settle ok (suc i) (j ∷ js) = j ∷ settle ok i js

pub data Event : Type 0 where
  submits : Event
  starts : ℕ → Event
  settles : ℕ → Bool → Event

-- `queue` is a resolved promise at first.
unfoldable pub serialize : List Status → Event → List Status
unfolding start settle
serialize js submits = js ++ queued ∷ []
serialize js (starts i) = start true i js
serialize js (settles i ok) = settle ok i js

unfoldable pub run : List Status → List Event → List Status
run js [] = js
run js (e ∷ es) = run (serialize js e) es
