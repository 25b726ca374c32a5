-- ===== src/Notifier/Alerts.antt =====
-- services/blockchain-notifier/src/index.js: which alerts the watchers raise and which keys they reset. A share
-- is in millionths, as the source computes it, and so are its thresholds; whether the mail of an alert goes
-- out is an argument.
pub mod Laws
use gemba_blockchain.Base.{
  Bool, List, Map, Option, Text, [], eqb, false, if◌then◌else◌, insert, leb, length, lookup, ltb,
  none, not, some, text_eq, true, ℕ, ◌&&◌, ◌*◌, ◌++◌, ◌+◌, ◌/◌, ◌∷◌,
}
use gemba_blockchain.Notifier.Nakamoto.{Validator, bonded_of, total_tokens, nakamoto}

-- The alerts by their keys.
pub data Alert : Type 0 where
  val_new : Text → Alert
  val_jail : Text → ℕ → Alert
  val_unjail : Text → ℕ → Alert
  val_count_low : Alert
  val_share_crit : Text → Alert
  val_share_warn : Text → Alert
  val_share_rise : Text → Alert
  nakamoto_one : Alert
  bonded_crit : Alert
  bonded_warn : Alert
  bonded_drop : Alert
  sale : Text → Alert
  sale_crit : Text → Alert
  sale_warn : Text → Alert

pub data Action : Type 0 where
  notifies : Alert → Action
  resets : Alert → Action

-- Actions one after the other: an alert whose mail throws ends the watcher.
unfoldable pub act : (Alert → Bool) → List Action → List Action × Bool
act mail_up [] = ([], true)
act mail_up (resets a ∷ rest) = let r = act mail_up rest in (resets a ∷ r.0, r.1)
act mail_up (notifies a ∷ rest) =
    let r = act mail_up rest in
    if mail_up a then (notifies a ∷ r.0, r.1) else (notifies a ∷ [], false)

-- The alert about a validator, from whether it was jailed when it was last seen.
unfoldable pub transition : Option Bool → Validator → ℕ → Option Alert
transition none v now = some (val_new v.operator)
transition (some was_jailed) v now =
    if v.jailed && not was_jailed
    then some (val_jail v.operator now)
    else if not v.jailed && was_jailed
    then some (val_unjail v.operator now)
    else none

-- The loop of `watchValidators` over `vals`: `state.validators` with the jailed flags, the alerts, and whether
-- the loop came to its end. A validator whose mail throws is not recorded.
unfoldable pub see_validators :
    (Alert → Bool) → ℕ → Map Text Bool → List Validator → Map Text Bool × List Alert × Bool
see_validators mail_up now seen [] = (seen, [], true)
see_validators mail_up now seen (v ∷ vs) =
    let rest = see_validators mail_up now (insert v.operator v.jailed seen) vs in
    elim (transition (lookup v.operator seen) v now) [
      | none ↦ rest
      | some a ↦ if mail_up a then (rest.0, a ∷ rest.1, rest.2) else (seen, a ∷ [], false)
    ]

pub record Thresholds : Type 0 where
  pub validator_share_warn : ℕ
  pub validator_share_crit : ℕ
  pub min_validators : ℕ
  pub bonded_ratio_warn : ℕ
  pub bonded_ratio_crit : ℕ
  pub large_sale_frac_bonded_warn : ℕ
  pub large_sale_frac_bonded_crit : ℕ

unfoldable pub count_actions : Thresholds → List Validator → List Action
count_actions th bonded =
    if ltb (length bonded) th.min_validators
    then notifies val_count_low ∷ []
    else resets val_count_low ∷ []

-- `Number((v.tokens * 1000000n) / totalBonded)`.
unfoldable pub share : ℕ → ℕ → ℕ
share tokens total = tokens * 1000000 / total

unfoldable pub share_actions : Thresholds → ℕ → List Validator → List Action
share_actions th total [] = []
share_actions th total (v ∷ vs) =
    let s = share v.tokens total in
    let rest = share_actions th total vs in
    if leb th.validator_share_crit s
    then notifies (val_share_crit v.operator) ∷ rest
    else if leb th.validator_share_warn s
    then notifies (val_share_warn v.operator) ∷ rest
    else rest

unfoldable pub nakamoto_actions : Option ℕ → List Action
nakamoto_actions none = []
nakamoto_actions (some n) = if leb n 1 then notifies nakamoto_one ∷ [] else resets nakamoto_one ∷ []

-- The second part of `watchValidators`, up to the snapshots.
unfoldable pub risk_actions :
    Thresholds → (List Validator → List Validator) → List Validator → List Action
risk_actions th sort vals =
    let bonded = bonded_of vals in
    let total = total_tokens bonded in
    count_actions th bonded
    ++ (if eqb total 0
        then []
        else share_actions th total bonded ++ nakamoto_actions (nakamoto sort vals))

-- `watchBondedRatio` up to the history, for a ratio in millionths: nothing at 0.
unfoldable pub ratio_actions : Thresholds → ℕ → List Action
ratio_actions th ratio =
    if eqb ratio 0
    then []
    else if ltb ratio th.bonded_ratio_crit
    then notifies bonded_crit ∷ []
    else if ltb ratio th.bonded_ratio_warn
    then notifies bonded_warn ∷ []
    else resets bonded_crit ∷ resets bonded_warn ∷ []

-- The comparison with the ratio of a week ago; the drop is in percentage points, and
-- the rounding of doubles is left out.
unfoldable pub drop_actions : ℕ → Option ℕ → ℕ → List Action
drop_actions drop_pp none ratio = []
drop_actions drop_pp (some before) ratio =
    if leb (ratio + drop_pp * 10000) before then notifies bonded_drop ∷ [] else []

-- A sale, by its transaction, against the bonded stake; 0 stands for a stake that could not be read.
unfoldable pub sale_actions : Thresholds → ℕ → Text → ℕ → List Action
sale_actions th bonded tx amount =
    let frac = amount * 1000000 / bonded in
    let large =
      if leb th.large_sale_frac_bonded_crit frac
      then notifies (sale_crit tx) ∷ []
      else if leb th.large_sale_frac_bonded_warn frac
      then notifies (sale_warn tx) ∷ []
      else [] in
    notifies (sale tx) ∷ (if ltb 0 bonded then large else [])
