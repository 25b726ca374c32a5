-- ===== src/LoadTest/Workload/Governance/Marks.antt =====
-- endurance/config/workloads.js: on which proposal a request is built, and the mark that it leaves.
use mathlib.Core.Option
use mathlib.Core.Option.{some-injective}
use gemba_blockchain.Base.{
  Bool, Bool-cases, List, Option-cases, Text, [], ap, arith, codes, get_elem?, inl, inr, refl, some,
  subst, suc, sym, true, zero, ℕ, ◌∙◌, ◌∷◌, ◌≡◌,
}
use gemba_blockchain.LoadTest.Workload.{Tx, call, num}
use gemba_blockchain.LoadTest.Workload.Governance.{Proposal, first_proposal, at_place, on_proposal}

-- What a loop builds is on the first proposal that passes its test, and marks that one alone.
pub first_proposal-marks :
    (suits : Proposal → Bool) (mark : Proposal → Proposal) (ps ps' : List Proposal) (p : Proposal)
    (i : ℕ)
    → first_proposal suits mark ps ≡ some (p, i, ps')
    → (get_elem? ps i ≡ some p) × (suits p ≡ true) × (ps' ≡ at_place mark i ps)
unfolding first_proposal at_place
first_proposal-marks suits mark [] ps' p i h = ground (arith, h)
first_proposal-marks suits mark (q ∷ ps) ps' p i h = elim (Bool-cases (suits q)) [
  | inl found ↦ ground (arith, h, found)
  | inr past ↦ elim (Option-cases (first_proposal suits mark ps)) [
    | inl missing ↦ ground (arith, h, past, missing)
    | inr ((r, j, rs), later) ↦
        ground (arith, h, past, later, first_proposal-marks suits mark ps rs r j later)
  ]
]

get_elem?-at_place :
    (change : Proposal → Proposal) (i : ℕ) (ps : List Proposal) (p : Proposal)
    → get_elem? ps i ≡ some p
    → get_elem? (at_place change i ps) i ≡ some (change p)
unfolding at_place
get_elem?-at_place change i [] p h = ground (arith, h)
get_elem?-at_place change zero (q ∷ ps) p h = ap (Option.map change) h
get_elem?-at_place change (suc i) (q ∷ ps) p h = get_elem?-at_place change i ps p h

-- Two lists of proposals, before and after a request on the proposal at a place, which is in them before and after.
abbrev pub At : List Proposal → List Proposal → ℕ → Proposal → Proposal → Type 0
At ps ps' i p p' = (get_elem? ps i ≡ some p) × (get_elem? ps' i ≡ some p')

-- A request on the proposal at the place was built only if the proposal passes the test, and it left the mark.
pub on_proposal-marked :
    (suits : Proposal → Bool) (mark : Proposal → Proposal) (method : Text) (gas : ℕ)
    (ps ps' : List Proposal) (i : ℕ) (p p' : Proposal) (tx : Tx)
    → on_proposal method gas (first_proposal suits mark ps) ps ≡ (ps', some (tx, i))
    → At ps ps' i p p'
    → (suits p ≡ true) × (p' ≡ mark p) × (tx.method ≡ method)
unfolding on_proposal
on_proposal-marked suits mark method gas ps ps' i p p' tx built at =
    elim (Option-cases (first_proposal suits mark ps)) [
      | inl missing ↦ ground (arith, built, missing)
      | inr ((q, j, rest), found) ↦
          let sent : Tx = call (codes "miniGov") method (num q.pid ∷ []) 0 gas in
          let red : on_proposal method gas (first_proposal suits mark ps) ps
              ≡ (rest, some (sent, j)) =
            rw (found, on_proposal) refl in
          let same = sym red ∙ built in
          let same_rest : rest ≡ ps' = ap (λ r. r.0) same in
          let same_place : j ≡ i =
            ap (λ r. r.1) (some-injective (sent, j) (tx, i) (ap (λ r. r.1) same)) in
          let facts = first_proposal-marks suits mark ps rest q j found in
          let same_p : q ≡ p =
            some-injective q p (sym facts.0 ∙ ap (get_elem? ps) same_place ∙ at.0) in
          let marked : get_elem? rest j ≡ some (mark q) =
            ap (λ r. get_elem? r j) facts.2 ∙ get_elem?-at_place mark j ps q facts.0 in
          let same_p' : mark q ≡ p' = some-injective (mark q) p' (
            sym marked
            ∙ ap (λ r. get_elem? r j) same_rest
            ∙ ap (get_elem? ps') same_place
            ∙ at.1) in
          (
            subst (λ x. suits x ≡ true) same_p facts.1,
            sym same_p' ∙ ap mark same_p,
            sym (ap (λ r. r.0.method) (some-injective (sent, j) (tx, i) (ap (λ r. r.1) same))),
          )
    ]
