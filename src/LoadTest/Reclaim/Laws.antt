-- ===== src/LoadTest/Reclaim/Laws.antt =====
-- The faucet is left alone, each sweep pays for itself, and a top-up that fails blocks those behind it.
use gemba_blockchain.Base.{
  All, All-append, Bool, Bool-cases, List, Text, [], ap, arith, eqb, false, if◌then◌else◌, inl, inr,
  keep, length, ltb, range, refl, suc, true, zero, ℕ, ◌&&◌, ◌*◌, ◌++◌, ◌+◌, ◌-◌, ◌<◌, ◌∙◌, ◌∷◌, ◌≡◌,
  ◌≤◌,
}
use gemba_blockchain.LoadTest.Reclaim.{
  Plan, may_run, same_address, gas_reserve, Holder, Transaction, topup, remove_liquidity, withdraw,
  sweep, needs_topup, topups, pass_a, sweep_one, pass_d, drain,
}

-- The addresses that a transaction takes from or pays to, but for the founder's own balance behind a top-up.
unfoldable pub parties : Transaction → List Text
parties (topup to value nonce) = to ∷ []
parties (remove_liquidity holder lp to) = holder ∷ to ∷ []
parties (withdraw holder wgmb) = holder ∷ []
parties (sweep holder value to) = holder ∷ to ∷ []

-- None of them is the faucet.
abbrev pub IsApart : Plan → Transaction → Type 0
IsApart p t = All (λ a. same_address a p.faucet ≡ false) (parties t)

needs_topup-apart :
    (p : Plan) (h : Holder) → needs_topup p h ≡ true → same_address h.address p.faucet ≡ false
unfolding needs_topup
needs_topup-apart p h needy = ground (arith, needy)

may_run-apart : (p : Plan) → may_run p ≡ true → same_address p.founder p.faucet ≡ false
unfolding may_run
may_run-apart p runs = ground (arith, runs)

topups-IsApart :
    (p : Plan) (holders : List Holder) (nonce : ℕ)
    → All (IsApart p) (topups p nonce (keep (needs_topup p) holders))
unfolding topups parties keep needs_topup
topups-IsApart p [] nonce = tt
topups-IsApart p (h ∷ hs) nonce = elim (Bool-cases (needs_topup p h)) [
  | inl needy ↦
      rw (needy, keep) ((needs_topup-apart p h needy, tt), topups-IsApart p hs (nonce + 1))
  | inr fine ↦ rw (fine, keep) (topups-IsApart p hs nonce)
]

sweeps-IsApart :
    (p : Plan) (ws : List (Text × ℕ))
    → same_address p.founder p.faucet ≡ false
    → All (IsApart p) (pass_d p ws)
unfolding pass_d sweep_one parties
sweeps-IsApart p [] own = tt
sweeps-IsApart p (w ∷ ws) own = elim (Bool-cases (same_address w.0 p.faucet)) [
  | inl faucet ↦ rw (faucet, pass_d, sweep_one) (sweeps-IsApart p ws own)
  | inr apart ↦ elim (Bool-cases (ltb (gas_reserve p) w.1)) [
    | inl rich ↦
        rw (apart, pass_d, sweep_one)
          (rw (rich, pass_d, sweep_one) ((apart, (own, tt)), sweeps-IsApart p ws own))
    | inr poor ↦
        rw (apart, pass_d, sweep_one) (rw (poor, pass_d, sweep_one) (sweeps-IsApart p ws own))
  ]
]

-- If the guard at its start lets the reclaiming script run, no top-up pays to the faucet, and no
-- sweep takes from it or pays to it, in whatever case its address is written.
pub passes_spare_faucet :
    (p : Plan) (holders : List Holder) (nonce : ℕ) (workers : List (Text × ℕ))
    → may_run p ≡ true
    → All (IsApart p) (pass_a p nonce holders ++ pass_d p workers)
unfolding pass_a
passes_spare_faucet p holders nonce workers runs =
    All-append (IsApart p) (pass_a p nonce holders) (pass_d p workers)
      (topups-IsApart p holders nonce) (sweeps-IsApart p workers (may_run-apart p runs))

-- What a drain sends, with the gas of its transactions at the highest price, is no more than the balances of
-- the workers that it takes from, and it is what the script reports as returned.
unfoldable pub sent_value : List Transaction → ℕ
sent_value [] = 0
sent_value (topup to value nonce ∷ ts) = value + sent_value ts
sent_value (remove_liquidity holder lp to ∷ ts) = sent_value ts
sent_value (withdraw holder wgmb ∷ ts) = sent_value ts
sent_value (sweep holder value to ∷ ts) = value + sent_value ts

unfoldable pub balances : List (Text × ℕ) → ℕ
balances [] = 0
balances (w ∷ ws) = w.1 + balances ws

pub drain-affordable :
    (p : Plan) (up : Transaction → Bool) (ws : List (Text × ℕ))
    → let r = drain p up ws in
      (sent_value r.0 ≡ r.1) × (r.1 + length r.0 * gas_reserve p ≤ balances ws)
unfolding drain sent_value balances
drain-affordable p up [] = (refl, omega arith)
drain-affordable p up (w ∷ ws) =
    let rest = drain-affordable p up ws in
    let t = sweep w.0 (w.1 - gas_reserve p) p.founder in
    elim (Bool-cases (ltb (gas_reserve p) w.1 && up t)) [
      | inl goes ↦
          rw (goes, drain)
            (
              omega (arith, rest.0),
              (let rich : gas_reserve p < w.1 = ground (arith, goes) in
                  omega (arith, rest.1, rich)),
            )
      | inr stays ↦ rw (stays, drain) (rest.0, omega (arith, rest.1))
    ]

-- The nonces that the chain can take, of those that were sent: without a gap from the founder's next one on.
unfoldable pub minable : ℕ → List ℕ → List ℕ
minable next [] = []
minable next (n ∷ ns) = if eqb n next then n ∷ minable (next + 1) ns else []

unfoldable pub nonces_of : List Transaction → List ℕ
nonces_of [] = []
nonces_of (topup to value nonce ∷ ts) = nonce ∷ nonces_of ts
nonces_of (remove_liquidity holder lp to ∷ ts) = nonces_of ts
nonces_of (withdraw holder wgmb ∷ ts) = nonces_of ts
nonces_of (sweep holder value to ∷ ts) = nonces_of ts

-- The top-ups of pass A carry the founder's nonces in a row.
pub nonces_of-topups :
    (p : Plan) (holders : List Holder) (nonce : ℕ)
    → nonces_of (topups p nonce holders) ≡ range nonce (length holders)
unfolding nonces_of topups range
nonces_of-topups p [] nonce = refl
nonces_of-topups p (h ∷ hs) nonce = ap (λ ns. nonce ∷ ns) (nonces_of-topups p hs (nonce + 1))

minable-gap : (k m next : ℕ) → minable next (range next k ++ range (next + k + 1) m) ≡ range next k
unfolding minable range
minable-gap zero zero next = refl
minable-gap zero (suc m) next =
    let ahead : eqb (next + 0 + 1) next ≡ false = ground arith in rw (ahead, minable) refl
minable-gap (suc k) m next =
    let here : eqb next next ≡ true = ground arith in
    let same : next + suc k + 1 ≡ (next + 1) + k + 1 = omega arith in
    rw (here, minable)
      (ap (λ ns. next ∷ ns)
        (ap (λ n. minable (next + 1) (range (next + 1) k ++ range n m)) same
          ∙ minable-gap k m (next + 1)))

-- If one of the top-ups is refused and the script goes on, of those that were sent the ones before it can be
-- mined and none behind it, so the wait for the last one has no end.
pub refused_topup_blocks :
    (p : Plan) (before after : List Holder) (nonce : ℕ)
    → minable nonce (
        nonces_of (topups p nonce before) ++ nonces_of (topups p (nonce + length before + 1) after))
      ≡ nonces_of (topups p nonce before)
refused_topup_blocks p before after nonce = rw (nonces_of-topups p before nonce) (
    rw (nonces_of-topups p after (nonce + length before + 1))
      (minable-gap (length before) (length after) nonce))
