-- ===== src/LoadTest/Send.antt =====
-- endurance/lib/tx.js: signing with a local nonce, and broadcasting with bounded retries; and what
-- `fireOne` of endurance/scripts/run.js does with the outcome. The provider's answers are an argument.
pub mod Laws
use gemba_blockchain.Base.{
  Bool, Option, Text, [], any, codes, false, if◌then◌else◌, none, some, suc, true, zero, ℕ, ◌+◌,
  ◌∷◌,
}
use gemba_blockchain.Strings.{includes}
use gemba_blockchain.LoadTest.Nonces.{NonceManager, take_nonce, settle_one, resync}

-- `BENIGN.some((s) => m.includes(s))`
unfoldable pub is_benign : Text → Bool
is_benign m = any (includes m) (
    codes "already known"
    ∷ codes "already in"
    ∷ codes "replacement"
    ∷ codes "underpriced"
    ∷ codes "coalesce"
    ∷ [])

-- `TRANSIENT.test(m)`: an alternation of plain texts.
unfoldable pub is_transient : Text → Bool
is_transient m = any (includes m) (
    codes "timeout"
    ∷ codes "econn"
    ∷ codes "socket"
    ∷ codes "reset"
    ∷ codes "fetch"
    ∷ codes "429"
    ∷ codes "500"
    ∷ codes "502"
    ∷ codes "503"
    ∷ codes "504"
    ∷ codes "server error"
    ∷ codes "server response 5"
    ∷ codes "txpool"
    ∷ codes "mempool is full"
    ∷ [])

-- What `broadcastTransaction` answers: it returns, or it throws with a message (in lower case).
pub data Broadcast : Type 0 where
  accepted : Broadcast
  refused : Text → Broadcast

pub data SendStatus : Type 0 where
  sent_ok : SendStatus
  soft : Text → SendStatus
  dropped : Text → SendStatus
  threw : Text → SendStatus

-- One attempt; `retry` is what the next one comes to, and `none` where `attempt < 3` fails.
unfoldable pub judge : Broadcast → Option SendStatus → SendStatus
judge accepted retry = sent_ok
judge (refused m) retry =
    if is_benign m
    then soft m
    else if includes m (codes "nonce")
    then dropped m
    else if is_transient m
    then elim retry [ none ↦ threw m | some rest ↦ rest ]
    else threw m

-- The loop from an attempt on, with so many retries left.
unfoldable pub broadcast_from : (ℕ → Broadcast) → ℕ → ℕ → SendStatus
broadcast_from answer zero attempt = judge (answer attempt) none
broadcast_from answer (suc left) attempt =
    judge (answer attempt) (some (broadcast_from answer left (attempt + 1)))

-- `sendRaw`: the mined nonce is `none` where the resync throws, which is swallowed.
unfoldable pub send_raw :
    NonceManager → Text → (ℕ → Broadcast) → Option ℕ → NonceManager × ℕ × SendStatus
send_raw m address answer mined =
    let (m', nonce) = take_nonce m address in
    let status = broadcast_from answer 3 0 in
    elim status [
      | dropped msg ↦
          (elim mined [ none ↦ m' | some n ↦ (resync m' address n).0 ], nonce, dropped msg)
      | sent_ok ↦ (m', nonce, sent_ok)
      | soft msg ↦ (m', nonce, soft msg)
      | threw msg ↦ (m', nonce, threw msg)
    ]

-- `fireOne`: whether the transaction is tracked; one that is not leaves the window.
unfoldable pub fire_one : NonceManager → Text → (ℕ → Broadcast) → Option ℕ → NonceManager × ℕ × Bool
fire_one m address answer mined =
    let (m', nonce, status) = send_raw m address answer mined in
    elim status [
      | sent_ok ↦ (m', nonce, true)
      | soft msg ↦ (m', nonce, true)
      | dropped msg ↦ (settle_one m' address, nonce, false)
      | threw msg ↦ (settle_one m' address, nonce, false)
    ]
