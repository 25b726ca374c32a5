-- ===== src/LoadTest/Nonces/Laws.antt =====
-- No nonce is given out twice, and the window holds.
use gemba_blockchain.Base.{
  ==_iff, ==_ne, List, Option-cases, Text, [], arith, inl, inr, lookup, lookup-insert,
  lookup-insert_self, max, refl, text_eq, true, ℕ, ◌+◌, ◌-◌, ◌<◌, ◌∷◌, ◌≡◌, ◌≢◌, ◌≤◌,
}
use gemba_blockchain.LoadTest.Nonces.{
  NonceManager, get_or_zero, can_send, take_nonce, settle_one, resync,
}

-- The calls after the start, of any wallet.
pub data NonceCall : Type 0 where
  takes : Text → NonceCall
  settles_one : Text → NonceCall
  resyncs : Text → ℕ → NonceCall

unfoldable pub apply : NonceManager → NonceCall → NonceManager
apply m (takes j) = (take_nonce m j).0
apply m (settles_one j) = settle_one m j
apply m (resyncs j mined) = (resync m j mined).0

unfoldable pub apply_all : NonceManager → List NonceCall → NonceManager
apply_all m [] = m
apply_all m (c ∷ cs) = apply_all (apply m c) cs

apply-grows :
    (c : NonceCall) (m : NonceManager) (a : Text)
    → get_or_zero a m.next ≤ get_or_zero a (apply m c).next
unfolding apply take_nonce settle_one resync
apply-grows (takes j) m a =
    ground (arith, lookup-insert j a (get_or_zero j m.next + 1) m.next, ==_iff j a)
apply-grows (settles_one j) m a = omega arith
apply-grows (resyncs j mined) m a = elim (Option-cases (lookup j m.next)) [
  | inl new ↦ ground (arith, new, lookup-insert j a (max mined mined) m.next, ==_iff j a)
  | inr (n, old) ↦ ground (arith, old, lookup-insert j a (max n mined) m.next, ==_iff j a)
]

apply_all-grows :
    (cs : List NonceCall) (m : NonceManager) (a : Text)
    → get_or_zero a m.next ≤ get_or_zero a (apply_all m cs).next
unfolding apply_all
apply_all-grows [] m a = omega arith
apply_all-grows (c ∷ cs) m a = omega (arith, apply-grows c m a, apply_all-grows cs (apply m c) a)

take-next :
    (m : NonceManager) (a : Text) → get_or_zero a (take_nonce m a).0.next ≡ (take_nonce m a).1 + 1
unfolding take_nonce
take-next m a = ground (arith, lookup-insert_self a (get_or_zero a m.next + 1) m.next)

take-nonce : (m : NonceManager) (a : Text) → (take_nonce m a).1 ≡ get_or_zero a m.next
unfolding take_nonce
take-nonce m a = refl

-- A nonce of a wallet is given out once: whatever calls come between, of this wallet or another,
-- the next one given out is larger.
pub take_nonce-increases :
    (m : NonceManager) (cs : List NonceCall) (a : Text)
    → (take_nonce m a).1 < (take_nonce (apply_all (take_nonce m a).0 cs) a).1
take_nonce-increases m cs a = omega (
  arith,
  take-next m a,
  apply_all-grows cs (take_nonce m a).0 a,
  take-nonce (apply_all (take_nonce m a).0 cs) a,
)

-- A send that `canSend` lets through keeps the wallet's window within the cap, and leaves the
-- window of every other wallet alone.
pub take_nonce_within_cap :
    (m : NonceManager) (a j : Text) (cap : ℕ)
    → can_send m a cap ≡ true
    → a ≢ j
    → (get_or_zero a (take_nonce m a).0.inflight ≤ cap)
      × (get_or_zero j (take_nonce m a).0.inflight ≡ get_or_zero j m.inflight)
unfolding can_send take_nonce
take_nonce_within_cap m a j cap h ne = (
  ground (arith, lookup-insert_self a (get_or_zero a m.inflight + 1) m.inflight),
  ground (arith, lookup-insert a j (get_or_zero a m.inflight + 1) m.inflight, ==_ne a j ne),
)

-- After a resync the window is the distance from the mined nonce to the next one, and the next one
-- has not moved back.
pub resync-gap :
    (m : NonceManager) (a : Text) (mined : ℕ)
    → let m' = (resync m a mined).0 in
      (get_or_zero a m'.next ≡ mined + get_or_zero a m'.inflight)
      × (get_or_zero a m.next ≤ get_or_zero a m'.next)
unfolding resync
resync-gap m a mined = elim (Option-cases (lookup a m.next)) [
  | inl new ↦ ground (
    arith,
    new,
    lookup-insert_self a (max mined mined) m.next,
    lookup-insert_self a (max mined mined - mined) m.inflight,
  )
  | inr (n, old) ↦ ground (
    arith,
    old,
    lookup-insert_self a (max n mined) m.next,
    lookup-insert_self a (max n mined - mined) m.inflight,
  )
]
