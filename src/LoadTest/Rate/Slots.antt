-- ===== src/LoadTest/Rate/Slots.antt =====
-- The semaphore with the one caller that the sender is: `pump` waits for each `acquire` before the
-- next, and a send that ends releases its slot.
use gemba_blockchain.Base.{
  Bool, Bool-cases, List, [], arith, false, if◌then◌else◌, inl, inr, none, refl, some, true, ℕ,
  ◌&&◌, ◌+◌, ◌<◌, ◌∷◌, ◌≡◌, ◌≤◌,
}
use gemba_blockchain.LoadTest.Rate.{Semaphore, acquire, resume, release}

-- The semaphore, whether the one caller waits in the queue or was woken, and the sends that run.
pub record Sender : Type 0 where
  pub slots : Semaphore
  pub waiting : Bool
  pub woken : Bool
  pub sends : ℕ

abbrev pub new_sender : ℕ → Sender
new_sender n = record {
  slots = record { max_slots = n; cur = 0; queue = [] };
  waiting = false;
  woken = false;
  sends = 0;
}

-- The caller asks for a slot when it has the last one; one that was woken goes on; a send ends.
pub data SenderStep : Sender → Sender → Type 0 where
  asks :
      (s : Sender)
      → s.waiting ≡ false
      → s.woken ≡ false
      → SenderStep s (
          if (acquire s.slots 0).1
          then record s { slots = (acquire s.slots 0).0; sends = s.sends + 1 }
          else record s { slots = (acquire s.slots 0).0; waiting = true })
  goes_on :
      (s : Sender)
      → s.woken ≡ true
      → SenderStep s (record s { slots = resume s.slots; woken = false; sends = s.sends + 1 })
  ends :
      (s : Sender) (n : ℕ)
      → s.sends ≡ n + 1
      → SenderStep s (elim (release s.slots).1 [
        | none ↦ record s { slots = (release s.slots).0; sends = n }
        | some r ↦ record s {
          slots = (release s.slots).0;
          sends = n;
          waiting = false;
          woken = true;
        }
      ])

pub data SenderRun : Sender → Sender → Type 0 where
  starts : (s : Sender) → SenderRun s s
  goes : (s t u : Sender) → SenderRun s t → SenderStep t u → SenderRun s u

-- As many sends as taken slots, at most `n`; the queue holds the caller exactly when it waits.
abbrev pub IsSender : ℕ → Sender → Type 0
IsSender n s =
    (s.slots.max_slots ≡ n)
    × (s.slots.cur ≡ s.sends)
    × (s.sends + (if s.woken then 1 else 0) ≤ n)
    × (s.slots.queue ≡ (if s.waiting then 0 ∷ [] else []))
    × ((s.waiting && s.woken) ≡ false)

IsSender-step : (n : ℕ) (s t : Sender) → SenderStep s t → IsSender n s → IsSender n t
unfolding acquire resume release
IsSender-step n s t (asks _ idle awake) ok = ground (arith, ok, idle, awake)
IsSender-step n s t (goes_on _ awake) ok = ground (arith, ok, awake)
IsSender-step n s t (ends _ m some_send) ok = elim (Bool-cases s.waiting) [
  | inl waits ↦ rw (ok.3, waits) (ground (arith, ok, waits, some_send))
  | inr idle ↦ rw (ok.3, idle) (ground (arith, ok, idle, some_send))
]

IsSender-run : (n : ℕ) (s t : Sender) → SenderRun s t → IsSender n s → IsSender n t
IsSender-run n s t (starts _) ok = ok
IsSender-run n s t (goes _ u _ run step) ok = IsSender-step n u t step (IsSender-run n s u run ok)

-- In every state that the one caller and the sends that end can reach from the start, no more sends
-- run than there are slots, and the semaphore counts exactly those that run.
pub sends_within_slots :
    (n : ℕ) (s : Sender) → SenderRun (new_sender n) s → (s.sends ≤ n) × (s.slots.cur ≡ s.sends)
sends_within_slots n s run =
    let ok = IsSender-run n (new_sender n) s run (refl, refl, omega arith, refl, refl) in
    (omega (arith, ok.2), ok.1)

-- With a second caller the bound fails: one that asks between the release and the turn of the woken
-- one takes the slot that the woken one then takes too.
pub second_caller_exceeds :
    (s : Semaphore) (r caller : ℕ) (rest : List ℕ)
    → s.cur ≡ s.max_slots
    → 0 < s.max_slots
    → s.queue ≡ r ∷ rest
    → ((release s).1 ≡ some r)
      × ((acquire (release s).0 caller).1 ≡ true)
      × (s.max_slots < (resume (acquire (release s).0 caller).0).cur)
unfolding acquire resume release
second_caller_exceeds s r caller rest full pos wait = rw wait (ground (arith, full, pos))
