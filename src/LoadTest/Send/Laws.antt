-- ===== src/LoadTest/Send/Laws.antt =====
-- When a send throws, and what it leaves behind.
use gemba_blockchain.Base.{
  List, Option, Text, ap, arith, codes, false, inl, inr, none, refl, some, suc, zero, ℕ, ◌+◌, ◌<◌,
  ◌∷◌, ◌≡◌, ◌≤◌, ◌⊎◌,
}
use gemba_blockchain.Strings.{includes}
use gemba_blockchain.LoadTest.Nonces.{NonceManager, take_nonce}
use gemba_blockchain.LoadTest.Nonces.Laws.{
  NonceCall, settles_one, apply, apply_all, take_nonce-increases,
}
use gemba_blockchain.LoadTest.Send.{
  is_benign, is_transient, Broadcast, accepted, refused, SendStatus, sent_ok, threw, judge,
  broadcast_from, send_raw, fire_one,
}

-- The provider refused the attempt for good, or it was the last one.
abbrev pub IsFinal : (ℕ → Broadcast) → ℕ → Text → ℕ → Type 0
IsFinal answer i m last =
    (answer i ≡ refused m)
    × (is_benign m ≡ false)
    × (includes m (codes "nonce") ≡ false)
    × ((is_transient m ≡ false) ⊎ (i ≡ last))

judge_threw :
    (x : Broadcast) (retry : Option SendStatus) (m : Text)
    → judge x retry ≡ threw m
    → ((x ≡ refused m)
        × (is_benign m ≡ false)
        × (includes m (codes "nonce") ≡ false)
        × ((is_transient m ≡ false) ⊎ (retry ≡ none)))
      ⊎ (retry ≡ some (threw m))
unfolding judge
judge_threw accepted retry m e = cc
judge_threw (refused n) none m e = ground arith
judge_threw (refused n) (some rest) m e = ground arith

broadcast_from_lem :
    (answer : ℕ → Broadcast) (left attempt : ℕ) (m : Text)
    → broadcast_from answer left attempt ≡ threw m
    → (i : ℕ) × (attempt ≤ i) × (i ≤ attempt + left) × IsFinal answer i m (attempt + left)
unfolding broadcast_from
broadcast_from_lem answer zero attempt m e = elim (judge_threw (answer attempt) none m e) [
  | inl (q, b, n, t) ↦ (attempt, omega arith, omega arith, (q, b, n, inr (omega arith)))
  | inr q ↦ cc
]
broadcast_from_lem answer (suc left) attempt m e =
    elim (judge_threw (answer attempt) (some (broadcast_from answer left (attempt + 1))) m e) [
      | inl (q, b, n, t) ↦
          (attempt, omega arith, omega arith, (q, b, n, elim t [ inl x ↦ inl x | inr y ↦ cc ]))
      | inr q ↦
          let (i, lo, hi, f) =
            broadcast_from_lem answer left (attempt + 1) m
              (ap (λ o. elim o [ none ↦ sent_ok | some y ↦ y ]) q) in
          (
            i,
            omega (arith, lo),
            omega (arith, hi),
            (f.0, f.1, f.2, elim f.3 [ inl w ↦ inl w | inr y ↦ inr (omega (arith, y)) ]),
          )
    ]

-- A broadcast throws only within four attempts, on a message that is neither benign nor about the
-- nonce, and that is not transient unless it came fourth.
pub broadcast_from_threw :
    (answer : ℕ → Broadcast) (m : Text)
    → broadcast_from answer 3 0 ≡ threw m
    → (i : ℕ) × (i ≤ 3) × IsFinal answer i m 3
broadcast_from_threw answer m e =
    let (i, lo, hi, f) = broadcast_from_lem answer 3 0 m e in (i, hi, f)

-- A send that throws has used up its nonce: it is not tracked, and whatever the wallet does from
-- then on, resyncs included, every nonce that it takes is larger.
pub failed_send_leaves_gap :
    (m : NonceManager) (a : Text) (answer : ℕ → Broadcast) (mined : Option ℕ) (msg : Text)
    (cs : List NonceCall)
    → broadcast_from answer 3 0 ≡ threw msg
    → let r = fire_one m a answer mined in
      (r.1 ≡ (take_nonce m a).1) × (r.2 ≡ false) × (r.1 < (take_nonce (apply_all r.0 cs) a).1)
unfolding fire_one send_raw apply apply_all
failed_send_leaves_gap m a answer mined msg cs e =
    rw (e, fire_one, send_raw)
      (rw (e, send_raw) (refl, refl, take_nonce-increases m (settles_one a ∷ cs) a))
