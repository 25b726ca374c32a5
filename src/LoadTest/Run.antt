-- ===== src/LoadTest/Run.antt =====
-- endurance/scripts/run.js and endurance/config/profiles.js: the profile, the choice of the wallet and of
-- the operation, what becomes of a request, the fee and the phases. Times are arguments.
pub mod Profile
pub mod Gate
pub mod Laws
pub mod Signers
use gemba_blockchain.Base.{
  Bool, List, Option, Text, [], codes, drop, eqb, get_elem?, if◌then◌else◌, length, ltb, none, some,
  suc, take, text_eq, zero, ℕ, ◌%◌, ◌*◌, ◌+◌, ◌-◌, ◌==◌, ◌∷◌,
}

-- The loop of `nextSigner`, with so many wallets left to try: the wallet and the new `rr`.
unfoldable pub next_signer_from : List Text → (Text → Bool) → ℕ → ℕ → Option Text × ℕ
next_signer_from signers can_send zero rr = (none, rr)
next_signer_from signers can_send (suc k) rr =
    let later = next_signer_from signers can_send k (rr + 1) in
    elim (get_elem? signers (rr % length signers)) [
      | none ↦ later
      | some s ↦ if can_send s then (some s, rr + 1) else later
    ]

unfoldable pub next_signer : List Text → (Text → Bool) → ℕ → Option Text × ℕ
next_signer signers can_send rr = next_signer_from signers can_send (length signers) rr

-- The loop of `fireOne` over the operations, with so many attempts left. `build i` is what the operation
-- of the i-th `pick` does to the state of the workload; one that throws makes no request.
unfoldable pub repick {ℓ κ} :
    {C : Type ℓ} {R : Type κ} → (ℕ → C → C × Option R) → ℕ → ℕ → C → C × Option R
repick build zero i c = (c, none)
repick build (suc left) i c =
    let built = build i c in
    let later = repick build left (i + 1) built.0 in
    elim built.1 [ some req ↦ (built.0, some req) | none ↦ later ]

-- What a turn of `pump` comes to once it has its token.
pub data Turn : Type 0 where
  stops : Turn
  backs_off : Turn
  fires : Text → Turn

unfoldable pub turn : Bool → List Text → (Text → Bool) → ℕ → Turn × ℕ
turn running signers can_send rr =
    let next = next_signer signers can_send rr in
    if running then (elim next.0 [ none ↦ backs_off | some s ↦ fires s ], next.1) else (stops, rr)

-- The bid that follows a block with the base fee `base`; a block without one leaves the fee alone.
unfoldable pub next_bid : ℕ → ℕ → ℕ → Option ℕ → ℕ
next_bid floor priority fee none = fee
next_bid floor priority fee (some base) =
    let bid = base * 2 + priority in
    let raised = if ltb bid floor then floor else bid in
    let cut = if ltb (floor * 200) raised then floor * 200 else raised in
    if eqb base 0 then fee else cut

-- The monitor: the error rate of the interval, as its two counts, and the totals for the next one.
pub record Totals : Type 0 where
  pub submitted : ℕ
  pub failed_submit : ℕ

unfoldable pub interval : Totals → Totals → ℕ × ℕ
interval prev s = (s.submitted - prev.submitted, s.failed_submit - prev.failed_submit)

-- `for (let i = 0; i < signers.length; i += size) signers.slice(i, i + size)`, with the fuel of the list.
unfoldable pub chunks_from {ℓ} : {A : Type ℓ} → ℕ → ℕ → List A → List (List A)
chunks_from size zero xs = []
chunks_from size (suc fuel) [] = []
chunks_from size (suc fuel) (x ∷ xs) =
    take size (x ∷ xs) ∷ chunks_from size fuel (drop size (x ∷ xs))

unfoldable pub chunks {ℓ} : {A : Type ℓ} → ℕ → List A → List (List A)
chunks size xs = chunks_from size (length xs) xs

-- The scripts that clean up after the run, in their order; `setting` is `AUTO_CLEANUP` in lower case.
unfoldable pub cleanup : Option Text → List Text
cleanup setting =
    let scripts = codes "reclaim-locked.mjs" ∷ codes "drain-to-founder.mjs" ∷ [] in
    let given : Text = elim setting [ none ↦ codes "true" | some s ↦ s ] in
    if given == codes "false" then [] else scripts
