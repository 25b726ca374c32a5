-- ===== src/LoadTest/Receipts/Laws.antt =====
-- No transaction is lost or doubled on its way through the receipt workers.
use gemba_blockchain.Base.{
  Bool, Bool-cases, List, Option, Text, [], ap, arith, eqb, false, if◌then◌else◌, inl, inr, ltb,
  none, refl, some, text_eq, ℕ, ◌++◌, ◌+◌, ◌==◌, ◌∙◌, ◌∷◌, ◌≡◌,
}
use gemba_blockchain.LoadTest.Receipts.{Job, Workers, take_job, on_receipt}

abbrev one_if : Bool → ℕ
one_if b = if b then 1 else 0

unfoldable pub jobs_of : Text → List Job → ℕ
jobs_of h [] = 0
jobs_of h (j ∷ js) = one_if (j.hash == h) + jobs_of h js

unfoldable pub resolutions : Text → List (Text × Bool) → ℕ
resolutions h [] = 0
resolutions h (r ∷ rs) = one_if (r.0 == h) + resolutions h rs

jobs_of-append : (h : Text) (xs ys : List Job) → jobs_of h (xs ++ ys) ≡ jobs_of h xs + jobs_of h ys
unfolding jobs_of
jobs_of-append h [] ys = omega arith
jobs_of-append h (x ∷ xs) ys = omega (arith, jobs_of-append h xs ys)

resolutions-append :
    (h : Text) (xs ys : List (Text × Bool))
    → resolutions h (xs ++ ys) ≡ resolutions h xs + resolutions h ys
unfolding resolutions
resolutions-append h [] ys = omega arith
resolutions-append h (x ∷ xs) ys = omega (arith, resolutions-append h xs ys)

-- Any number of workers: one takes a job, or one that waits gets its answer.
pub data WorkerStep : Workers → Workers → Type 0 where
  takes_job : (w : Workers) → WorkerStep w (take_job w)
  answered :
      (w : Workers) (before after : List Job) (job : Job) (status : Option ℕ)
      → w.held ≡ before ++ job ∷ after
      → WorkerStep w (on_receipt (record w { held = before ++ after }) job status)

pub data WorkerRun : Workers → Workers → Type 0 where
  begins_at : (w : Workers) → WorkerRun w w
  runs_on : (u v w : Workers) → WorkerRun u v → WorkerStep v w → WorkerRun u w

abbrev pub places_of : Text → Workers → ℕ
places_of h w = jobs_of h w.receipt_queue + jobs_of h w.held + resolutions h w.resolved

places_of-answer :
    (h : Text) (v : Workers) (job : Job) (others : List Job) (status : Option ℕ)
    → jobs_of h v.held ≡ jobs_of h others + one_if (job.hash == h)
    → places_of h (on_receipt (record v { held = others }) job status) ≡ places_of h v
unfolding on_receipt jobs_of resolutions
places_of-answer h v job others none held =
    let again = jobs_of-append h v.receipt_queue (record job { tries = job.tries + 1 } ∷ []) in
    let ended = resolutions-append h v.resolved ((job.hash, false) ∷ []) in
    elim (Bool-cases (ltb job.tries 4)) [
      | inl retry ↦ rw (retry, on_receipt) (omega (arith, held, again))
      | inr last ↦ rw (last, on_receipt) (omega (arith, held, ended))
    ]
places_of-answer h v job others (some status) held =
    omega (arith, held, resolutions-append h v.resolved ((job.hash, eqb status 1) ∷ []))

places_of-take :
    (h : Text) (v : Workers) (queue : List Job)
    → v.receipt_queue ≡ queue
    → places_of h (take_job v) ≡ places_of h v
unfolding take_job jobs_of
places_of-take h v [] at = rw (at, take_job) (rw at refl)
places_of-take h v (job ∷ rest) at =
    let here : jobs_of h v.receipt_queue ≡ one_if (job.hash == h) + jobs_of h rest =
      ap (jobs_of h) at in
    rw (at, take_job) (omega (arith, here))

places_of-step : (h : Text) (v w : Workers) → WorkerStep v w → places_of h w ≡ places_of h v
unfolding take_job on_receipt jobs_of resolutions
places_of-step h v w (takes_job _) = places_of-take h v v.receipt_queue refl
places_of-step h v w (answered _ before after job status at) =
    let held : jobs_of h v.held ≡ jobs_of h before + (one_if (job.hash == h) + jobs_of h after) =
      ap (jobs_of h) at ∙ jobs_of-append h before (job ∷ after) in
    let split = jobs_of-append h before after in
    places_of-answer h v job (before ++ after) status (omega (arith, held, split))

-- Whatever the workers do and the providers answer, a transaction stands in the queue, with a
-- worker and among the resolved ones as often, taken together, as it did at first.
pub places_of-run : (h : Text) (v w : Workers) → WorkerRun v w → places_of h w ≡ places_of h v
places_of-run h v w (begins_at _) = refl
places_of-run h v w (runs_on _ u _ run step) = places_of-step h u w step ∙ places_of-run h v u run
