-- ===== src/LoadTest/Workload/Governance/Laws.antt =====
-- The life of a proposal: what was built and what was mined, in order.
use gemba_blockchain.Base.{
  Bool, List, Text, [], codes, false, if◌then◌else◌, length, some, text_eq, true, ℕ, ◌+◌, ◌==◌, ◌∷◌,
  ◌≡◌, ◌≤◌,
}
use gemba_blockchain.LoadTest.Workload.{Tx}
use gemba_blockchain.LoadTest.Workload.Governance.Marks.{At}
use gemba_blockchain.LoadTest.Workload.Governance.{
  Proposal, apply_propose, apply_vote, apply_queue, build_gov_vote, build_gov_queue,
  build_gov_execute,
}

-- Whether a transaction calls the method.
abbrev pub calls : Text → Tx → ℕ
calls method tx = if tx.method == method then 1 else 0

-- A proposal with its votes and its queueing that are under way, and how many of the transactions built on it queue
-- and execute, by the method that they call.
pub record Life : Type 0 where
  pub proposal : Proposal
  pub votes_sent : ℕ
  pub queueing : Bool
  pub queueings : ℕ
  pub executions : ℕ

-- The requests that the code builds on the proposal, wherever it stands among others, and their outcomes.
pub data LifeStep : Life → Life → Type 0 where
  votes :
      (l : Life) (f : Text) (now : ℕ) (ps ps' : List Proposal) (i : ℕ) (p' : Proposal) (tx : Tx)
      → build_gov_vote ps f now ≡ (ps', some (tx, i))
      → At ps ps' i l.proposal p'
      → LifeStep l (record l {
        proposal = p';
        votes_sent = l.votes_sent + 1;
        queueings = l.queueings + calls (codes "queue") tx;
        executions = l.executions + calls (codes "execute") tx;
      })
  vote_mined :
      (l : Life) (n : ℕ)
      → l.votes_sent ≡ n + 1
      → LifeStep l (record l { proposal = apply_vote l.proposal; votes_sent = n })
  vote_lost : (l : Life) (n : ℕ) → l.votes_sent ≡ n + 1 → LifeStep l (record l { votes_sent = n })
  queues :
      (l : Life) (now : ℕ) (ps ps' : List Proposal) (i : ℕ) (p' : Proposal) (tx : Tx)
      → build_gov_queue ps now ≡ (ps', some (tx, i))
      → At ps ps' i l.proposal p'
      → LifeStep l (record l {
        proposal = p';
        queueing = true;
        queueings = l.queueings + calls (codes "queue") tx;
        executions = l.executions + calls (codes "execute") tx;
      })
  queue_mined :
      (l : Life) (now : ℕ)
      → l.queueing ≡ true
      → LifeStep l (record l { proposal = apply_queue now l.proposal; queueing = false })
  queue_lost : (l : Life) → l.queueing ≡ true → LifeStep l (record l { queueing = false })
  executes :
      (l : Life) (now : ℕ) (ps ps' : List Proposal) (i : ℕ) (p' : Proposal) (tx : Tx)
      → build_gov_execute ps now ≡ (ps', some (tx, i))
      → At ps ps' i l.proposal p'
      → LifeStep l (record l {
        proposal = p';
        queueings = l.queueings + calls (codes "queue") tx;
        executions = l.executions + calls (codes "execute") tx;
      })

pub data LifeRun : Life → Life → Type 0 where
  begins : (l : Life) → LifeRun l l
  goes : (k l m : Life) → LifeRun k l → LifeStep l m → LifeRun k m

-- A proposal whose propose was mined.
abbrev pub proposed : ℕ → ℕ → Life
proposed pid now = record {
  proposal = apply_propose pid now;
  votes_sent = 0;
  queueing = false;
  queueings = 0;
  executions = 0;
}

-- No wallet twice.
unfoldable pub votes_of : Text → List Text → ℕ
votes_of f [] = 0
votes_of f (v ∷ vs) = (if v == f then 1 else 0) + votes_of f vs

abbrev pub IsLife : Life → Type 0
IsLife l =
    let p = l.proposal in
    (p.conf_votes + l.votes_sent ≤ length p.voters)
    × ((p.queue_built ≡ true) → 1 ≤ p.conf_votes)
    × ((l.queueing ≡ true) → p.queue_built ≡ true)
    × ((p.queued ≡ true) → p.queue_built ≡ true)
    × ((p.exec_built ≡ true) → p.queued ≡ true)
    × (l.queueings ≡ (if p.queue_built then 1 else 0))
    × (l.executions ≡ (if p.exec_built then 1 else 0))
    × ((f : Text) → votes_of f p.voters ≤ 1)

abbrev pub one_if : Bool → ℕ
one_if b = if b then 1 else 0
