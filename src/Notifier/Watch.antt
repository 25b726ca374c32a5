-- ===== src/Notifier/Watch.antt =====
-- services/blockchain-notifier/src/index.js: `watchValidators` and `watchBondedRatio` as a whole, their alerts with
-- the state that they leave. Whether the mail of an alert goes out is an argument.
use gemba_blockchain.Base.{
  Bool, Bool-cases, List, Map, Option, Text, [], arith, eqb, false, if◌then◌else◌, inl, inr, insert,
  leb, lookup, ltb, lt→ltb, map, none, not, refl, some, text_eq, true, ℕ, ◌*◌, ◌++◌, ◌+◌, ◌<◌, ◌∷◌,
  ◌≡◌,
}
use gemba_blockchain.Notifier.Nakamoto.{Validator, bonded_of, total_tokens}
use gemba_blockchain.Notifier.History.{snapshot, week_ago}
use gemba_blockchain.Notifier.Alerts.{
  Alert, val_share_rise, Action, notifies, act, see_validators, Thresholds, share, risk_actions,
  ratio_actions, drop_actions,
}

-- The part of `state` that the two watchers keep; a share and a ratio are in millionths.
pub record WatchState : Type 0 where
  pub validators : Map Text Bool
  pub share_snapshots : List (ℕ × Map Text ℕ)
  pub bonded_history : List (ℕ × ℕ)

-- `shares[v.operator] = share`.
unfoldable pub shares_of : ℕ → Map Text ℕ → List Validator → Map Text ℕ
shares_of total shares [] = shares
shares_of total shares (v ∷ vs) =
    shares_of total (insert v.operator (share v.tokens total) shares) vs

-- The shares that rose by so many percentage points; the rounding of doubles is left out.
unfoldable pub rise_actions : ℕ → Map Text ℕ → Map Text ℕ → List Action
rise_actions rise_pp before [] = []
rise_actions rise_pp before ((op, sh) ∷ rest) =
    let later = rise_actions rise_pp before rest in
    elim (lookup op before) [
      | none ↦ later
      | some old ↦
          if leb (old + rise_pp * 10000) sh then notifies (val_share_rise op) ∷ later else later
    ]

-- The rise against the snapshot of a week ago, if there is one.
unfoldable pub rises_since : ℕ → Option (ℕ × Map Text ℕ) → Map Text ℕ → List Action
rises_since rise_pp none shares = []
rises_since rise_pp (some old) shares = rise_actions rise_pp old.1 shares

-- `watchValidators`: the state, what it did, and whether it came to its end.
unfoldable pub watch_validators :
    Thresholds
    → ℕ
    → (List Validator → List Validator)
    → (Alert → Bool)
    → ℕ
    → WatchState
    → List Validator
    → WatchState × List Action × Bool
watch_validators th rise_pp sort mail_up now st vals =
    let seen = see_validators mail_up now st.validators vals in
    let known = record st { validators = seen.0 } in
    let risk = act mail_up (risk_actions th sort vals) in
    let total = total_tokens (bonded_of vals) in
    let shares = shares_of total [] (bonded_of vals) in
    let snapshots = snapshot now shares st.share_snapshots in
    let rise = act mail_up (rises_since rise_pp (week_ago now snapshots) shares) in
    let found = map notifies seen.1 in
    if not seen.2
    then (known, found, false)
    else if not risk.1
    then (known, found ++ risk.0, false)
    else if eqb total 0
    then (known, found ++ risk.0, true)
    else (record known { share_snapshots = snapshots }, found ++ risk.0 ++ rise.0, rise.1)

-- The ratio of the entry of a week ago.
abbrev pub ratio_then : Option (ℕ × ℕ) → Option ℕ
ratio_then none = none
ratio_then (some h) = some h.1

-- `watchBondedRatio`, where `fetchBondedRatio` returned a ratio.
unfoldable pub watch_bonded_ratio :
    Thresholds → ℕ → (Alert → Bool) → ℕ → WatchState → ℕ → WatchState × List Action × Bool
watch_bonded_ratio th drop_pp mail_up now st ratio =
    let level = act mail_up (ratio_actions th ratio) in
    let history = snapshot now ratio st.bonded_history in
    let dropped = act mail_up (drop_actions drop_pp (ratio_then (week_ago now history)) ratio) in
    if eqb ratio 0
    then (st, [], true)
    else if not level.1
    then (st, level.0, false)
    else (record st { bonded_history = history }, level.0 ++ dropped.0, dropped.1)

-- A ratio under the warning level is alerted on, and the failed mail ends the watcher.
ratio_actions-fails :
    (th : Thresholds) (ratio : ℕ)
    → eqb ratio 0 ≡ false
    → ltb ratio th.bonded_ratio_warn ≡ true
    → (act (λ a. false) (ratio_actions th ratio)).1 ≡ false
unfolding ratio_actions act
ratio_actions-fails th ratio some_ratio under = elim (Bool-cases (ltb ratio th.bonded_ratio_crit)) [
  | inl red ↦ rw (some_ratio, ratio_actions) (rw (red, ratio_actions) refl)
  | inr above ↦
      rw (some_ratio, ratio_actions) (rw (above, ratio_actions) (rw (under, ratio_actions) refl))
]

-- While the mail of an alert about the level fails, the watcher takes no snapshot of the ratio: the history
-- that the fall over a week is measured on has a gap as long as the mail server is down.
pub watch_bonded_ratio-gap :
    (th : Thresholds) (drop_pp now ratio : ℕ) (st : WatchState)
    → 0 < ratio
    → ratio < th.bonded_ratio_warn
    → (watch_bonded_ratio th drop_pp (λ a. false) now st ratio).0 ≡ st
unfolding watch_bonded_ratio
watch_bonded_ratio-gap th drop_pp now ratio st pos low =
    let some_ratio : eqb ratio 0 ≡ false = ground (arith, pos) in
    let under : ltb ratio th.bonded_ratio_warn ≡ true = lt→ltb ratio th.bonded_ratio_warn low in
    let fails : (act (λ a. false) (ratio_actions th ratio)).1 ≡ false =
      ratio_actions-fails th ratio some_ratio under in
    rw (some_ratio, watch_bonded_ratio) (rw (fails, watch_bonded_ratio) refl)
