-- ===== src/LoadTest/Workload/Governance.antt =====
-- endurance/config/workloads.js: proposals of the small governance, from their vote to their execution.
-- A request names its proposal by its place in `c.props`, which only grows.
pub mod Marks
pub mod Laws
use gemba_blockchain.Base.{
  Bool, List, Option, Text, [], any, codes, false, if◌then◌else◌, leb, none, not, some, suc,
  text_eq, true, zero, ℕ, ◌&&◌, ◌++◌, ◌+◌, ◌==◌, ◌∷◌,
}
use gemba_blockchain.LoadTest.Workload.{Arg, num, addr, Tx, call}
use gemba_blockchain.LoadTest.Workload.Auction.{ago_over, ago_under}

pub record Proposal : Type 0 where
  pub pid : ℕ
  pub ts : ℕ
  pub voters : List Text
  pub conf_votes : ℕ
  pub queue_built : Bool
  pub queued : Bool
  pub qts : ℕ
  pub exec_built : Bool

unfoldable pub build_gov_propose : ℕ → ℕ × Tx × ℕ
build_gov_propose gov_pid = (
  gov_pid + 1,
  call (codes "miniGov") (codes "propose") (num gov_pid ∷ addr (codes "govTarget") ∷ []) 0 120000,
  gov_pid,
)

unfoldable pub apply_propose : ℕ → ℕ → Proposal
apply_propose pid now = record {
  pid = pid;
  ts = now;
  voters = [];
  conf_votes = 0;
  queue_built = false;
  queued = false;
  qts = 0;
  exec_built = false;
}

abbrev pub is_voter : Text → Proposal → Bool
is_voter f p = any (λ v. v == f) p.voters

-- The tests of the loops of `govVote`, `govQueue` and `govExecute`.
unfoldable pub may_vote : Text → ℕ → Proposal → Bool
may_vote f now p = not (is_voter f p) && ago_over now p.ts 3000 && ago_under now p.ts 30000

unfoldable pub may_queue : ℕ → Proposal → Bool
may_queue now p = not p.queue_built && leb 1 p.conf_votes && ago_over now p.ts 50000

unfoldable pub may_execute : ℕ → Proposal → Bool
may_execute now p = p.queued && not p.exec_built && ago_over now p.qts 50000

-- What a request marks when it is built.
unfoldable pub mark_vote : Text → Proposal → Proposal
mark_vote f p = record p { voters = p.voters ++ f ∷ [] }

unfoldable pub mark_queue : Proposal → Proposal
mark_queue p = record p { queue_built = true }

unfoldable pub mark_execute : Proposal → Proposal
mark_execute p = record p { exec_built = true }

-- What a mined vote and a mined queueing do.
unfoldable pub apply_vote : Proposal → Proposal
apply_vote p = record p { conf_votes = p.conf_votes + 1 }

unfoldable pub apply_queue : ℕ → Proposal → Proposal
apply_queue now p = record p { queued = true; qts = now }

-- `for (const p of c.props)` with a mark and a return: the proposal, its place and what is left.
unfoldable pub first_proposal :
    (Proposal → Bool)
    → (Proposal → Proposal)
    → List Proposal
    → Option (Proposal × ℕ × List Proposal)
first_proposal suits mark [] = none
first_proposal suits mark (p ∷ ps) =
    let found = first_proposal suits mark ps in
    if suits p
    then some (p, 0, mark p ∷ ps)
    else elim found [ none ↦ none | some r ↦ some (r.0, r.1 + 1, p ∷ r.2) ]

-- The request on it, with its place for the effect.
unfoldable pub on_proposal :
    Text
    → ℕ
    → Option (Proposal × ℕ × List Proposal)
    → List Proposal
    → List Proposal × Option (Tx × ℕ)
on_proposal method gas none props = (props, none)
on_proposal method gas (some r) props =
    (r.2, some (call (codes "miniGov") method (num (r.0).pid ∷ []) 0 gas, r.1))

unfoldable pub build_gov_vote : List Proposal → Text → ℕ → List Proposal × Option (Tx × ℕ)
build_gov_vote props f now =
    on_proposal (codes "vote") 90000 (first_proposal (may_vote f now) (mark_vote f) props) props

unfoldable pub build_gov_queue : List Proposal → ℕ → List Proposal × Option (Tx × ℕ)
build_gov_queue props now =
    on_proposal (codes "queue") 100000 (first_proposal (may_queue now) mark_queue props) props

unfoldable pub build_gov_execute : List Proposal → ℕ → List Proposal × Option (Tx × ℕ)
build_gov_execute props now =
    on_proposal (codes "execute") 140000 (first_proposal (may_execute now) mark_execute props) props

-- The effect on a proposal of the list.
unfoldable pub at_place : (Proposal → Proposal) → ℕ → List Proposal → List Proposal
at_place change i [] = []
at_place change zero (p ∷ ps) = change p ∷ ps
at_place change (suc i) (p ∷ ps) = p ∷ at_place change i ps
