-- ===== src/Notifier/Alerts/Laws.antt =====
-- What was reported is not reported again, and an alert whose mail fails stops its watcher.
use gemba_blockchain.Base.{
  ==_iff, All, Bool, Bool-cases, List, Map, Option-cases, Text, [], ap, arith, false, inl, inr,
  insert, lookup, lookup-insert, lookup-insert_self, none, refl, some, subst, text_eq, true, ℕ,
  ◌++◌, ◌==◌, ◌∙◌, ◌∷◌, ◌≡◌,
}
use gemba_blockchain.Notifier.Nakamoto.{Validator}
use gemba_blockchain.Notifier.Alerts.{
  Alert, Action, notifies, resets, act, transition, see_validators,
}

-- Another operator than those of a list.
abbrev IsOther : Text → List Validator → Type 0
IsOther op vs = All (λ v. (v.operator == op) ≡ false) vs

-- No operator twice.
abbrev pub AreDistinct : List Validator → Type 0
AreDistinct [] = Unit
AreDistinct (v ∷ vs) = IsOther v.operator vs × AreDistinct vs

-- The state knows each validator as it is.
abbrev AreKnown : Map Text Bool → List Validator → Type 0
AreKnown seen vs = All (λ v. lookup v.operator seen ≡ some v.jailed) vs

see_validators-other :
    (mail_up : Alert → Bool) (now : ℕ) (vs : List Validator) (seen : Map Text Bool) (op : Text)
    → IsOther op vs
    → lookup op (see_validators mail_up now seen vs).0 ≡ lookup op seen
unfolding see_validators
see_validators-other mail_up now [] seen op other = refl
see_validators-other mail_up now (v ∷ vs) seen op other =
    let entry = lookup-insert v.operator op v.jailed seen in
    let rest = see_validators-other mail_up now vs (insert v.operator v.jailed seen) op other.1 in
    elim (Option-cases (transition (lookup v.operator seen) v now)) [
      | inl quiet ↦ rw (quiet, see_validators) (rest ∙ ground (arith, entry, other.0))
      | inr (a, raised) ↦ elim (Bool-cases (mail_up a)) [
        | inl sent ↦
            rw (raised, see_validators)
              (rw (sent, see_validators) (rest ∙ ground (arith, entry, other.0)))
        | inr lost ↦ rw (raised, see_validators) (rw (lost, see_validators) refl)
      ]
    ]

see_validators-AreKnown :
    (mail_up : Alert → Bool) (now : ℕ) (vs : List Validator) (seen : Map Text Bool)
    → AreDistinct vs
    → (see_validators mail_up now seen vs).2 ≡ true
    → AreKnown (see_validators mail_up now seen vs).0 vs
unfolding see_validators
see_validators-AreKnown mail_up now [] seen distinct ended = tt
see_validators-AreKnown mail_up now (v ∷ vs) seen distinct ended =
    let recorded = insert v.operator v.jailed seen in
    let entry = lookup-insert_self v.operator v.jailed seen in
    let kept = see_validators-other mail_up now vs recorded v.operator distinct.0 in
    let rest = see_validators-AreKnown mail_up now vs recorded distinct.1 in
    elim (Option-cases (transition (lookup v.operator seen) v now)) [
      | inl quiet ↦
          let ends : (see_validators mail_up now recorded vs).2 ≡ true =
            ground (arith, ended, quiet) in
          let same : (see_validators mail_up now recorded vs).0
              ≡ (see_validators mail_up now seen (v ∷ vs)).0 =
            rw (quiet, see_validators) refl in
          subst (λ m. AreKnown m (v ∷ vs)) same (kept ∙ entry, rest ends)
      | inr (a, raised) ↦ elim (Bool-cases (mail_up a)) [
        | inl sent ↦
            let ends : (see_validators mail_up now recorded vs).2 ≡ true =
              ground (arith, ended, raised, sent) in
            let same : (see_validators mail_up now recorded vs).0
                ≡ (see_validators mail_up now seen (v ∷ vs)).0 =
              rw (raised, see_validators) (rw (sent, see_validators) refl) in
            subst (λ m. AreKnown m (v ∷ vs)) same (kept ∙ entry, rest ends)
        | inr lost ↦ absurd (ground (arith, ended, raised, lost))
      ]
    ]

AreKnown-insert :
    (vs : List Validator) (seen : Map Text Bool) (op : Text) (jailed : Bool)
    → IsOther op vs
    → AreKnown seen vs
    → AreKnown (insert op jailed seen) vs
AreKnown-insert [] seen op jailed other known = tt
AreKnown-insert (v ∷ vs) seen op jailed other known = (
  ground (
    arith,
    lookup-insert op v.operator jailed seen,
    ==_iff v.operator op,
    ==_iff op v.operator,
    other.0,
    known.0,
  ),
  AreKnown-insert vs seen op jailed other.1 known.1,
)

see_validators-quiet :
    (mail_up : Alert → Bool) (now : ℕ) (vs : List Validator) (seen : Map Text Bool)
    → AreKnown seen vs
    → AreDistinct vs
    → ((see_validators mail_up now seen vs).1 ≡ [])
      × ((see_validators mail_up now seen vs).2 ≡ true)
unfolding see_validators transition
see_validators-quiet mail_up now [] seen known distinct = (refl, refl)
see_validators-quiet mail_up now (v ∷ vs) seen known distinct =
    let recorded = insert v.operator v.jailed seen in
    let silent : transition (lookup v.operator seen) v now ≡ none =
      rw (known.0, transition) (ground arith) in
    let still = AreKnown-insert vs seen v.operator v.jailed distinct.0 known.1 in
    let rest = see_validators-quiet mail_up now vs recorded still distinct.1 in
    rw (silent, see_validators) rest

-- After a pass over the validators that came to its end, another one over the same validators raises no
-- alert, whatever the mail server does.
pub see_validators-again :
    (mail_up mail_up' : Alert → Bool) (now later : ℕ) (vs : List Validator) (seen : Map Text Bool)
    → AreDistinct vs
    → (see_validators mail_up now seen vs).2 ≡ true
    → (see_validators mail_up' later (see_validators mail_up now seen vs).0 vs).1 ≡ []
see_validators-again mail_up mail_up' now later vs seen distinct ended =
    (see_validators-quiet mail_up' later vs (see_validators mail_up now seen vs).0
      (see_validators-AreKnown mail_up now vs seen distinct ended) distinct).0

-- The actions of a watcher up to an alert whose mail fails are all that happens: the resets and alerts
-- behind it are lost for this round.
pub act-stops :
    (mail_up : Alert → Bool) (before after : List Action) (a : Alert)
    → (act mail_up before).1 ≡ true
    → mail_up a ≡ false
    → act mail_up (before ++ notifies a ∷ after) ≡ (before ++ notifies a ∷ [], false)
unfolding act
act-stops mail_up [] after a went lost = rw (lost, act) refl
act-stops mail_up (resets b ∷ before) after a went lost =
    ap (λ r. (resets b ∷ r.0, r.1)) (act-stops mail_up before after a went lost)
act-stops mail_up (notifies b ∷ before) after a went lost =
    let up : mail_up b ≡ true = ground (arith, went) in
    let rest : (act mail_up before).1 ≡ true = ground (arith, went, up) in
    rw (up, act) (ap (λ r. (notifies b ∷ r.0, r.1)) (act-stops mail_up before after a rest lost))
