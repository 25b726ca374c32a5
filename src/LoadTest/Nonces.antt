-- ===== src/LoadTest/Nonces.antt =====
-- endurance/lib/nonceManager.js: the local nonces of the wallets and their window in flight. A mined
-- nonce that the provider gives is an argument.
pub mod Laws
use gemba_blockchain.Base.{
  Bool, Map, Text, insert, lookup, ltb, max, none, some, text_eq, ℕ, ◌+◌, ◌-◌,
}

pub record NonceManager : Type 0 where
  pub next : Map Text ℕ
  pub inflight : Map Text ℕ

-- `map.get(address) ?? 0`
abbrev pub get_or_zero : Text → Map Text ℕ → ℕ
get_or_zero address m = elim (lookup address m) [ none ↦ 0 | some n ↦ n ]

unfoldable pub init : NonceManager → Text → ℕ → NonceManager × ℕ
init m address n =
    (record { next = insert address n m.next; inflight = insert address 0 m.inflight }, n)

unfoldable pub can_send : NonceManager → Text → ℕ → Bool
can_send m address cap = ltb (get_or_zero address m.inflight) cap

unfoldable pub take_nonce : NonceManager → Text → NonceManager × ℕ
take_nonce m address =
    let n = get_or_zero address m.next in
    (
      record {
        next = insert address (n + 1) m.next;
        inflight = insert address (get_or_zero address m.inflight + 1) m.inflight;
      },
      n,
    )

unfoldable pub settle_one : NonceManager → Text → NonceManager
settle_one m address = record m {
  inflight = insert address (get_or_zero address m.inflight - 1) m.inflight;
}

-- Only forward: `Math.max(cur, mined)`, and the gap is what is in flight.
unfoldable pub resync : NonceManager → Text → ℕ → NonceManager × ℕ
resync m address mined =
    let cur : ℕ = elim (lookup address m.next) [ none ↦ mined | some n ↦ n ] in
    let next = max cur mined in
    (
      record {
        next = insert address next m.next;
        inflight = insert address (next - mined) m.inflight;
      },
      next,
    )
