-- ===== src/LoadTest/Receipts.antt =====
-- endurance/lib/receiptCollector.js: the loop over the blocks, and the workers that fetch receipts. What a
-- provider answers is an argument.
pub mod Blocks
pub mod Laws
use gemba_blockchain.Base.{
  Bool, List, Option, Text, [], codes, eqb, false, if◌then◌else◌, ltb, none, some, suc, take, zero,
  ℕ, ◌++◌, ◌+◌, ◌-◌, ◌∷◌,
}
use gemba_blockchain.Strings.{is_space, trim}

-- The inner loop of `_blockLoop` from `last` on, with so many blocks to the tip: the blocks that are
-- scanned and the new `lastBlock`. `fetched n` is whether `_block(n)` found a provider.
unfoldable pub scan_blocks : (ℕ → Bool) → ℕ → ℕ → List ℕ × ℕ
scan_blocks fetched last zero = ([], last)
scan_blocks fetched last (suc n) =
    let rest = scan_blocks fetched (last + 1) n in
    if fetched (last + 1) then ((last + 1) ∷ rest.0, rest.1) else ([], last)

-- A round of `_blockLoop`: nothing where `getBlockNumber` throws, and the first round starts at the tip.
unfoldable pub block_round : (ℕ → Bool) → ℕ → Option ℕ → List ℕ × ℕ
block_round fetched last none = ([], last)
block_round fetched last (some bn) =
    let from = if eqb last 0 then bn - 1 else last in scan_blocks fetched from (bn - from)

-- `for (const p of providers.all) { try { r = await p.get(); if (r) break; } catch {} }`.
unfoldable pub first_provider {ℓ} : {A : Type ℓ} → List (Option A) → Option A
first_provider [] = none
first_provider (none ∷ ps) = first_provider ps
first_provider (some r ∷ ps) = some r

pub record Job : Type 0 where
  pub hash : Text
  pub tries : ℕ

-- The queue of receipts, the jobs that a worker holds while it waits for an answer, and the calls of
-- `onResolve` and `onRevert`.
pub record Workers : Type 0 where
  pub receipt_queue : List Job
  pub held : List Job
  pub resolved : List (Text × Bool)
  pub reverted : ℕ

-- A worker takes the next job.
unfoldable pub take_job : Workers → Workers
take_job w = elim w.receipt_queue [
  | [] ↦ w
  | job ∷ rest ↦ record w { receipt_queue = rest; held = job ∷ w.held }
]

-- The rest of the round, with the status of the receipt that was found, if one was.
unfoldable pub on_receipt : Workers → Job → Option ℕ → Workers
on_receipt w job none =
    if ltb job.tries 4
    then record w { receipt_queue = w.receipt_queue ++ record job { tries = job.tries + 1 } ∷ [] }
    else record w { resolved = w.resolved ++ (job.hash, false) ∷ [] }
on_receipt w job (some status) =
    let ok = eqb status 1 in
    record w {
      resolved = w.resolved ++ (job.hash, ok) ∷ [];
      reverted = if ok then w.reverted else w.reverted + 1;
    }

-- `replace(/\s+/g, " ")`: whether the last character was white space is carried along.
unfoldable pub collapse : Bool → Text → Text
collapse spaced [] = []
collapse spaced (c ∷ s) =
    let next = collapse (is_space c) s in
    if is_space c then (if spaced then next else b' ' ∷ next) else c ∷ next

-- `.replace(...).trim().slice(0, 140)`.
unfoldable pub clean_reason : Text → Text
clean_reason msg = take 140 (trim (collapse false msg))

-- What a provider answers to the replay: it runs, or it throws with the first message that is there.
pub data Replay : Type 0 where
  ran : Replay
  failed : List Text → Replay

-- `e?.reason || e?.revert?.name || … || "unknown"`: the first text that is not empty.
unfoldable pub first_message : List Text → Text
first_message [] = codes "unknown"
first_message ([] ∷ rest) = first_message rest
first_message ((c ∷ s) ∷ rest) = c ∷ s

-- `_revertReason`, with what `getTransaction` and then the replay answer at each provider: the first one
-- that replays decides.
unfoldable pub revert_reason : List (Option Text) → List Replay → Option Text
revert_reason found replays = elim (first_provider found) [
  | none ↦ none
  | some tx ↦ elim replays [
    | [] ↦ none
    | replay ∷ others ↦ elim replay [
      | ran ↦ some (codes "state-race")
      | failed messages ↦ some (clean_reason (first_message messages))
    ]
  ]
]
