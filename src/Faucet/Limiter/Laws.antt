-- ===== src/Faucet/Limiter/Laws.antt =====
-- What the cooldown limiter promises over a history of calls.
use gemba_blockchain.Base.{
  ==_iff, All, Bool-cases, Distinct, Distinct-erase, Distinct-filter_map, Distinct-insert, List,
  Map, Text, [], arith, false, filter_map, if◌then◌else◌, inl, inr, insert, lookup, lookup-erase,
  lookup-filter_map, lookup-insert, lookup-insert_self, ltb, not, refl, some, text_eq, true, ℕ, ◌+◌,
  ◌<◌, ◌==◌, ◌∷◌, ◌≡◌, ◌≢◌, ◌≤◌,
}
use gemba_blockchain.Faucet.Limiter.{
  CooldownLimiter, remaining, has_elapsed, sweep, try_acquire, release,
}

-- A key that is cooling down is left alone by an acquisition of any key before its time is up.
pub try_acquire_keeps :
    (l : CooldownLimiter) (j k : Text) (now t : ℕ)
    → Distinct l.last
    → lookup k l.last ≡ some t
    → now < t + l.cooldown_ms
    → lookup k (try_acquire l j now).0.last ≡ some t
unfolding try_acquire remaining sweep
try_acquire_keeps l j k now t d e h = ground (
  arith,
  ==_iff j k,
  lookup-insert j k now (filter_map (λ u. not (has_elapsed l.cooldown_ms now u)) l.last),
  lookup-filter_map (λ u. not (has_elapsed l.cooldown_ms now u)) k l.last d,
)

pub try_acquire-Distinct :
    (l : CooldownLimiter) (j : Text) (now : ℕ)
    → Distinct l.last
    → Distinct (try_acquire l j now).0.last
unfolding try_acquire sweep
try_acquire-Distinct l j now d = ground (
  arith,
  Distinct-filter_map (λ u. not (has_elapsed l.cooldown_ms now u)) l.last d,
  Distinct-insert j now (filter_map (λ u. not (has_elapsed l.cooldown_ms now u)) l.last),
)

pub try_acquire_cooldown_ms :
    (l : CooldownLimiter) (j : Text) (now : ℕ) → (try_acquire l j now).0.cooldown_ms ≡ l.cooldown_ms
unfolding try_acquire sweep
try_acquire_cooldown_ms l j now = ground arith

pub try_acquire_records :
    (l : CooldownLimiter) (j : Text) (now : ℕ)
    → (try_acquire l j now).1 ≡ true
    → lookup j (try_acquire l j now).0.last ≡ some now
unfolding try_acquire
try_acquire_records l j now h = ground (arith, lookup-insert_self j now (sweep l now).last)

pub try_acquire_refuses :
    (l : CooldownLimiter) (k : Text) (now t : ℕ)
    → lookup k l.last ≡ some t
    → now < t + l.cooldown_ms
    → try_acquire l k now ≡ (l, false)
unfolding try_acquire remaining
try_acquire_refuses l k now t e h = ground arith

pub try_acquire_refused :
    (l : CooldownLimiter) (k : Text) (now : ℕ)
    → (try_acquire l k now).1 ≡ false
    → (try_acquire l k now).0 ≡ l
unfolding try_acquire
try_acquire_refused l k now h = ground arith

pub data Call : Type 0 where
  acquires : Text → ℕ → Call
  releases : Text → Call

unfoldable pub step : CooldownLimiter → Call → CooldownLimiter
step l (acquires key now) = (try_acquire l key now).0
step l (releases key) = release l key

unfoldable pub run : CooldownLimiter → List Call → CooldownLimiter
run l [] = l
run l (c ∷ cs) = run (step l c) cs

-- The call does not release `k`, and is not made later than `now`.
abbrev pub IsForeign : Text → ℕ → Call → Type 0
IsForeign k now (acquires key at) = at ≤ now
IsForeign k now (releases key) = key ≢ k

step_keeps :
    (c : Call) (l : CooldownLimiter) (k : Text) (now t : ℕ)
    → Distinct l.last
    → lookup k l.last ≡ some t
    → now < t + l.cooldown_ms
    → IsForeign k now c
    → (lookup k (step l c).last ≡ some t)
      × Distinct (step l c).last
      × ((step l c).cooldown_ms ≡ l.cooldown_ms)
unfolding step release
step_keeps (acquires j at) l k now t d e h f = (
  try_acquire_keeps l j k at t d e (omega arith),
  try_acquire-Distinct l j at d,
  try_acquire_cooldown_ms l j at,
)
step_keeps (releases j) l k now t d e h f =
    (ground (arith, lookup-erase j k l.last, ==_iff j k), Distinct-erase j l.last d, refl)

run_refuses :
    (cs : List Call) (l : CooldownLimiter) (k : Text) (now t : ℕ)
    → Distinct l.last
    → lookup k l.last ≡ some t
    → now < t + l.cooldown_ms
    → All (IsForeign k now) cs
    → (try_acquire (run l cs) k now).1 ≡ false
unfolding run
run_refuses [] l k now t d e h f = ground (arith, try_acquire_refuses l k now t e h)
run_refuses (c ∷ cs) l k now t d e h (f, fs) =
    let (e', d', same) = step_keeps c l k now t d e h f in
    run_refuses cs (step l c) k now t d' e' (omega arith) fs

-- Once a key is acquired at `t`, it is refused at every time before `t + cooldownMs`, whatever
-- calls come between, if none of them releases it or carries a later time.
pub try_acquire_once_per_cooldown :
    (l : CooldownLimiter) (cs : List Call) (k : Text) (t now : ℕ)
    → Distinct l.last
    → (try_acquire l k t).1 ≡ true
    → All (IsForeign k now) cs
    → now < t + l.cooldown_ms
    → (try_acquire (run (try_acquire l k t).0 cs) k now).1 ≡ false
try_acquire_once_per_cooldown l cs k t now d granted f h =
    run_refuses cs (try_acquire l k t).0 k now t (try_acquire-Distinct l k t d)
      (try_acquire_records l k t granted) (omega (arith, try_acquire_cooldown_ms l k t)) f

-- Pruning is unobservable: from the time of the sweep on, every key has the waiting time that it
-- had.
pub remaining-sweep :
    (l : CooldownLimiter) (k : Text) (now later : ℕ)
    → Distinct l.last
    → now ≤ later
    → remaining (sweep l now) k later ≡ remaining l k later
unfolding remaining sweep
remaining-sweep l k now later d h =
    ground (arith, lookup-filter_map (λ u. not (has_elapsed l.cooldown_ms now u)) k l.last d)

-- Rolling back makes the key available at once, and changes no other key.
pub remaining-release :
    (l : CooldownLimiter) (k j : Text) (now : ℕ)
    → remaining (release l k) j now ≡ (if k == j then 0 else remaining l j now)
unfolding remaining release
remaining-release l k j now = ground (arith, lookup-erase k j l.last)

abbrev pub AllValues : (ℕ → Type 0) → Map Text ℕ → Type 0
AllValues P m = All (λ e. P e.1) m

filter_map-AllValues :
    (cooldown now : ℕ) (m : Map Text ℕ)
    → AllValues (λ t. now < cooldown + t) (filter_map (λ u. not (has_elapsed cooldown now u)) m)
unfolding filter_map
filter_map-AllValues cooldown now [] = tt
filter_map-AllValues cooldown now ((k, t) ∷ m) = ground (arith, filter_map-AllValues cooldown now m)

insert-AllValues :
    (cooldown now t : ℕ) (k : Text) (m : Map Text ℕ)
    → AllValues (λ u. now < cooldown + u) m
    → now < cooldown + t
    → AllValues (λ u. now < cooldown + u) (insert k t m)
unfolding insert
insert-AllValues cooldown now t k [] h p = (p, tt)
insert-AllValues cooldown now t k ((j, u) ∷ m) h p =
    ground (arith, insert-AllValues cooldown now t k m h.1)

-- An acquisition that is granted leaves only keys whose cooldown still runs (for a positive
-- cooldown).
pub try_acquire_bounded :
    (l : CooldownLimiter) (k : Text) (now : ℕ)
    → 0 < l.cooldown_ms
    → (try_acquire l k now).1 ≡ true
    → AllValues (λ t. now < l.cooldown_ms + t) (try_acquire l k now).0.last
unfolding try_acquire sweep
try_acquire_bounded l k now pos h = elim (Bool-cases (ltb 0 (remaining l k now))) [
  | inl cooling ↦ cc
  | inr free ↦ rw free (
      insert-AllValues l.cooldown_ms now now k _ (filter_map-AllValues l.cooldown_ms now l.last)
        (omega arith))
]
