-- ===== src/Notifier/Fetch.antt =====
-- services/blockchain-notifier/src/chain.js: the pages of the validators, the bonded ratio and the probes. What
-- the chain's REST interface and the endpoints answer is an argument.
pub mod Laws
use gemba_blockchain.Base.{
  Bool, List, Option, Text, [], codes, eqb, false, if◌then◌else◌, leb, length, ltb, none, some, suc,
  zero, ℕ, ◌&&◌, ◌*◌, ◌++◌, ◌+◌, ◌-◌, ◌/◌, ◌∷◌,
}
use gemba_blockchain.Strings.{includes}

pub record Page {ℓ} (A : Type ℓ) : Type ℓ where
  pub validators : List A
  pub next_key : Text

-- The loop of `fetchAllValidators` and `fetchBondedValidators`: nothing where a page fails or the fuel is gone.
unfoldable pub fetch_pages {ℓ} :
    {A : Type ℓ} → ℕ → (Text → Option (Page A)) → Text → Option (List A)
fetch_pages zero rest key = none
fetch_pages (suc fuel) rest key = elim (rest key) [
  | none ↦ none
  | some page ↦
      let later = fetch_pages fuel rest page.next_key in
      if ltb 0 (length page.next_key)
      then (elim later [ none ↦ none | some vs ↦ some (page.validators ++ vs) ])
      else some page.validators
]

-- The balances of the reserves, of which the unreachable ones are skipped.
unfoldable pub sum_reserves : List (Option ℕ) → ℕ
sum_reserves [] = 0
sum_reserves (none ∷ rs) = sum_reserves rs
sum_reserves (some n ∷ rs) = n + sum_reserves rs

-- `fetchBondedRatio`, in millionths: nothing where the stake or the supply cannot be read.
unfoldable pub fetch_bonded_ratio : Option ℕ → Option ℕ → List (Option ℕ) → Option ℕ
fetch_bonded_ratio none supply reserves = none
fetch_bonded_ratio (some bonded) none reserves = none
fetch_bonded_ratio (some bonded) (some supply) reserves =
    let held = sum_reserves reserves in
    let circ = if ltb held supply then supply - held else 0 in
    some (if eqb circ 0 then 0 else bonded * 1000000 / circ)

-- What an endpoint answers: it throws, or it has a status, and a body that is JSON or not.
pub data Endpoint : Type 0 where
  throws : Endpoint
  answers : ℕ → Bool → Endpoint

-- `r.ok` of fetch.
abbrev pub is_ok : ℕ → Bool
is_ok status = leb 200 status && leb status 299

-- `probeRpc`: whether its `ok` is true.
unfoldable pub probe_rpc : Endpoint → Bool
probe_rpc throws = false
probe_rpc (answers status json) = is_ok status && json

-- `probeHttp`.
unfoldable pub probe_http : Endpoint → Bool
probe_http throws = false
probe_http (answers status json) = ltb status 500

-- The probe of `watchUptime`: by a POST to an address that holds `rpc`, and otherwise by a GET.
unfoldable pub probe : (Text → Endpoint) → (Text → Endpoint) → Text → Bool
probe post get url =
    if includes url (codes "rpc") then probe_rpc (post url) else probe_http (get url)
