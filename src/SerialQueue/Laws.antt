-- ===== src/SerialQueue/Laws.antt =====
-- Sends run one at a time, in the order of the calls, and a failure does not stop the queue.
use gemba_blockchain.Base.{
  All, All-append, Bool, List, [], ap, arith, false, get_elem?, inl, inr, length, refl, some, suc,
  true, zero, ℕ, ◌++◌, ◌<◌, ◌∷◌, ◌≡◌, ◌⊎◌,
}
use gemba_blockchain.SerialQueue.{
  Status, queued, running, settled, start, settle, Event, submits, starts, settles, serialize, run,
}

-- Settled sends, then at most one that runs, then those that wait.
abbrev pub IsSerial : List Status → Type 0
IsSerial [] = Unit
IsSerial (settled ok ∷ js) = IsSerial js
IsSerial (running ∷ js) = All (λ j. j ≡ queued) js
IsSerial (queued ∷ js) = All (λ j. j ≡ queued) js

AllQueued-IsSerial : (js : List Status) → All (λ j. j ≡ queued) js → IsSerial js
AllQueued-IsSerial [] h = tt
AllQueued-IsSerial (queued ∷ js) h = h.1
AllQueued-IsSerial (running ∷ js) h = cc
AllQueued-IsSerial (settled ok ∷ js) h = cc

submit-IsSerial : (js : List Status) → IsSerial js → IsSerial (js ++ queued ∷ [])
submit-IsSerial [] h = tt
submit-IsSerial (queued ∷ js) h = All-append _ js (queued ∷ []) h (refl, tt)
submit-IsSerial (running ∷ js) h = All-append _ js (queued ∷ []) h (refl, tt)
submit-IsSerial (settled ok ∷ js) h = submit-IsSerial js h

start-AllQueued : (i : ℕ) (js : List Status) → All (λ j. j ≡ queued) js → start false i js ≡ js
unfolding start
start-AllQueued i [] h = refl
start-AllQueued zero (queued ∷ js) h = refl
start-AllQueued zero (running ∷ js) h = cc
start-AllQueued zero (settled ok ∷ js) h = cc
start-AllQueued (suc i) (queued ∷ js) h = ap (λ r. queued ∷ r) (start-AllQueued i js h.1)
start-AllQueued (suc i) (running ∷ js) h = cc
start-AllQueued (suc i) (settled ok ∷ js) h = cc

start-IsSerial : (i : ℕ) (js : List Status) → IsSerial js → IsSerial (start true i js)
unfolding start
start-IsSerial i [] h = tt
start-IsSerial zero (queued ∷ js) h = h
start-IsSerial zero (running ∷ js) h = h
start-IsSerial zero (settled ok ∷ js) h = h
start-IsSerial (suc i) (queued ∷ js) h = rw (start-AllQueued i js h) h
start-IsSerial (suc i) (running ∷ js) h = rw (start-AllQueued i js h) h
start-IsSerial (suc i) (settled ok ∷ js) h = start-IsSerial i js h

settle-AllQueued :
    (ok : Bool) (i : ℕ) (js : List Status) → All (λ j. j ≡ queued) js → settle ok i js ≡ js
unfolding settle
settle-AllQueued ok i [] h = refl
settle-AllQueued ok zero (queued ∷ js) h = refl
settle-AllQueued ok zero (running ∷ js) h = cc
settle-AllQueued ok zero (settled b ∷ js) h = cc
settle-AllQueued ok (suc i) (j ∷ js) h = ap (λ r. j ∷ r) (settle-AllQueued ok i js h.1)

settle-IsSerial : (ok : Bool) (i : ℕ) (js : List Status) → IsSerial js → IsSerial (settle ok i js)
unfolding settle
settle-IsSerial ok i [] h = tt
settle-IsSerial ok zero (queued ∷ js) h = h
settle-IsSerial ok zero (running ∷ js) h = AllQueued-IsSerial js h
settle-IsSerial ok zero (settled b ∷ js) h = h
settle-IsSerial ok (suc i) (queued ∷ js) h = rw (settle-AllQueued ok i js h) h
settle-IsSerial ok (suc i) (running ∷ js) h = rw (settle-AllQueued ok i js h) h
settle-IsSerial ok (suc i) (settled b ∷ js) h = settle-IsSerial ok i js h

serialize-IsSerial : (e : Event) (js : List Status) → IsSerial js → IsSerial (serialize js e)
unfolding serialize
serialize-IsSerial submits js h = submit-IsSerial js h
serialize-IsSerial (starts i) js h = start-IsSerial i js h
serialize-IsSerial (settles i ok) js h = settle-IsSerial ok i js h

run-IsSerial : (es : List Event) (js : List Status) → IsSerial js → IsSerial (run js es)
unfolding run
run-IsSerial [] js h = h
run-IsSerial (e ∷ es) js h = run-IsSerial es (serialize js e) (serialize-IsSerial e js h)

-- After any calls, starts and outcomes the sends stand in the order of the calls as settled ones,
-- then at most one that is running, then those that still wait.
pub serialize_one_at_a_time : (es : List Event) → IsSerial (run [] es)
serialize_one_at_a_time es = run-IsSerial es [] tt

-- The first position whose send has not settled.
unfoldable pub next_position : List Status → ℕ
next_position [] = 0
next_position (settled ok ∷ js) = suc (next_position js)
next_position (_ ∷ js) = 0

-- In a queue of settled sends, then at most one that runs, then waiting ones, the first send that
-- has not settled is running or can start at once, whether those before it succeeded or failed.
pub serialize_progress :
    (js : List Status)
    → IsSerial js
    → next_position js < length js
    → (get_elem? js (next_position js) ≡ some running)
      ⊎ (get_elem? (serialize js (starts (next_position js))) (next_position js) ≡ some running)
unfolding serialize start next_position
serialize_progress [] h k = absurd (omega arith)
serialize_progress (queued ∷ js) h k = inr refl
serialize_progress (running ∷ js) h k = inl refl
serialize_progress (settled ok ∷ js) h k = serialize_progress js h (omega arith)
