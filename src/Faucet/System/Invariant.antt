-- ===== src/Faucet/System/Invariant.antt =====
-- The invariant of the concurrent server, and how tickets come and go under it.
use gemba_blockchain.Base.{
  All, Distinct, Distinct-erase, List, Text, [], arith, get_elem?, inl, inr, refl, some, subst, suc,
  text_eq, zero, ℕ, ◌+◌, ◌<◌, ◌∙◌, ◌∷◌, ◌≡◌, ◌≢◌, ◌≤◌, ◌⊎◌,
}
use mathlib.Core.Option.{some-injective}
use gemba_blockchain.Faucet.Limiter.{CooldownLimiter, try_acquire, release}
use gemba_blockchain.Faucet.Limiter.Laws.{
  try_acquire_records, try_acquire-Distinct, try_acquire_cooldown_ms,
}
use gemba_blockchain.Faucet.Server.{Server, Admission}
use gemba_blockchain.Faucet.System.{
  Phase, checking, done, Ticket, remove_at, set_phase, arrived, IsPrompt,
}
use gemba_blockchain.Faucet.System.Held.{
  Apart, Spaced, IsHeld, IsPast, try_acquire-IsHeld, granted-Apart, release-IsHeld, Arrival,
  turned_away, rolled_back, let_in,
}

pub record Inv (c : ℕ) (l : CooldownLimiter) (clock : ℕ) (ts : List Ticket) : Type 0 where
  pub cooldown : l.cooldown_ms ≡ c
  pub distinct : Distinct l.last
  pub held : All (IsHeld l clock) ts
  pub past : All (IsPast clock) ts
  pub spaced : Spaced c ts

pub IsHeld-mono :
    (l : CooldownLimiter) (clock now : ℕ) (ts : List Ticket)
    → clock ≤ now
    → All (IsHeld l clock) ts
    → All (IsHeld l now) ts
IsHeld-mono l clock now [] le h = tt
IsHeld-mono l clock now (t ∷ ts) le (h, hs) = (ground arith, IsHeld-mono l clock now ts le hs)

pub IsPast-mono :
    (clock now : ℕ) (ts : List Ticket) → clock ≤ now → All (IsPast clock) ts → All (IsPast now) ts
IsPast-mono clock now [] le h = tt
IsPast-mono clock now (t ∷ ts) le (h, hs) = (omega arith, IsPast-mono clock now ts le hs)

-- A ticket that is apart from a new one at time `now`, and not of its future, is over or foreign.
pub over_of_Apart :
    (c now : ℕ) (n : Ticket) (ts : List Ticket)
    → n.at ≤ now
    → (now < n.at + c) ⊎ (n.at ≡ now)
    → All (IsPast now) ts
    → All (Apart c n) ts
    → All (λ t. (n.to ≢ t.to) ⊎ (t.at + c ≤ now)) ts
over_of_Apart c now n [] le k p a = tt
over_of_Apart c now n (t ∷ ts) le k (p, ps) (a, rest) =
    (ground arith, over_of_Apart c now n ts le k ps rest)

pub advance-Inv :
    (c : ℕ) (l : CooldownLimiter) (clock now : ℕ) (ts : List Ticket)
    → clock ≤ now
    → Inv c l clock ts
    → Inv c l now ts
advance-Inv c l clock now ts le v = record {
  cooldown = v.cooldown;
  distinct = v.distinct;
  held = IsHeld-mono l clock now ts le v.held;
  past = IsPast-mono clock now ts le v.past;
  spaced = v.spaced;
}

pub acquire-Inv :
    (c : ℕ) (l : CooldownLimiter) (to : Text) (clock now : ℕ) (ts : List Ticket)
    → clock ≤ now
    → Inv c l clock ts
    → Inv c (try_acquire l to now).0 now ts
acquire-Inv c l to clock now ts le v = record {
  cooldown = try_acquire_cooldown_ms l to now ∙ v.cooldown;
  distinct = try_acquire-Distinct l to now v.distinct;
  held = try_acquire-IsHeld l to clock now ts v.distinct le v.held;
  past = IsPast-mono clock now ts le v.past;
  spaced = v.spaced;
}

pub release-Inv :
    (c : ℕ) (l : CooldownLimiter) (n : Ticket) (now : ℕ) (ts : List Ticket)
    → n.at ≤ now
    → (now < n.at + c) ⊎ (n.at ≡ now)
    → All (Apart c n) ts
    → Inv c l now ts
    → Inv c (release l n.to) now ts
unfolding release
release-Inv c l n now ts le k a v = record {
  cooldown = v.cooldown;
  distinct = Distinct-erase n.to l.last v.distinct;
  held =
      release-IsHeld l n.to now ts v.held
        (rw (v.cooldown) (over_of_Apart c now n ts le k v.past a));
  past = v.past;
  spaced = v.spaced;
}

pub Arrival-Inv :
    (c : ℕ) (l l' : CooldownLimiter) (to ip : Text) (clock now : ℕ) (s : Server) (a : Admission)
    (ts : List Ticket)
    → clock ≤ now
    → Arrival l l' to now a
    → Inv c l clock ts
    → Inv c l' now (arrived to ip now (s, a) ts)
Arrival-Inv c l l' to ip clock now s a ts le (turned_away e) v =
    rw e (advance-Inv c l clock now ts le v)
Arrival-Inv c l l' to ip clock now s a ts le (rolled_back g e) v =
    let n : Ticket = record { to = to; ip = ip; at = now; phase = checking } in
    rw e (
      release-Inv c (try_acquire l to now).0 n now ts (omega arith) (inr refl)
        (rw (← v.cooldown) (granted-Apart l n clock ts le g v.held))
        (acquire-Inv c l to clock now ts le v))
Arrival-Inv c l l' to ip clock now s a ts le (let_in g e) v =
    let n : Ticket = record { to = to; ip = ip; at = now; phase = checking } in
    let w = acquire-Inv c l to clock now ts le v in
    rw e (record {
      cooldown = w.cooldown;
      distinct = w.distinct;
      held = (inl (try_acquire_records l to now g), w.held);
      past = (omega arith, w.past);
      spaced = (rw (← v.cooldown) (granted-Apart l n clock ts le g v.held), v.spaced);
    })

pub All-get_elem? {ℓ κ} :
    {A : Type ℓ} (P : A → Type κ) (xs : List A) (i : ℕ) {x : A}
    → get_elem? xs i ≡ some x
    → All P xs
    → P x
All-get_elem? P [] i e h = cc
All-get_elem? P (y ∷ xs) zero e h = subst P (some-injective y _ e) h.0
All-get_elem? P (y ∷ xs) (suc i) e h = All-get_elem? P xs i e h.1

pub All-remove_at {ℓ κ} :
    {A : Type ℓ} (P : A → Type κ) (xs : List A) (i : ℕ) → All P xs → All P (remove_at i xs)
unfolding remove_at
All-remove_at P [] i h = tt
All-remove_at P (x ∷ xs) zero h = h.1
All-remove_at P (x ∷ xs) (suc i) h = (h.0, All-remove_at P xs i h.1)

pub Spaced-remove_at : (c : ℕ) (ts : List Ticket) (i : ℕ) → Spaced c ts → Spaced c (remove_at i ts)
unfolding remove_at
Spaced-remove_at c [] i h = tt
Spaced-remove_at c (t ∷ ts) zero h = h.1
Spaced-remove_at c (t ∷ ts) (suc i) h =
    (All-remove_at (Apart c t) ts i h.0, Spaced-remove_at c ts i h.1)

pub Apart-symm : (c : ℕ) (t u : Ticket) → Apart c t u → Apart c u t
Apart-symm c t u a = ground arith

-- A ticket is apart from all the others.
pub Apart-remove_at :
    (c : ℕ) (ts : List Ticket) (i : ℕ) {t : Ticket}
    → get_elem? ts i ≡ some t
    → Spaced c ts
    → All (Apart c t) (remove_at i ts)
unfolding remove_at
Apart-remove_at c [] i e h = tt
Apart-remove_at c (u ∷ ts) zero e h = subst (λ x. All (Apart c x) ts) (some-injective u _ e) h.0
Apart-remove_at c (u ∷ ts) (suc i) {t} e h =
    (Apart-symm c u t (All-get_elem? (Apart c u) ts i e h.0), Apart-remove_at c ts i e h.1)

pub remove-Inv :
    (c : ℕ) (l : CooldownLimiter) (now : ℕ) (ts : List Ticket) (i : ℕ)
    → Inv c l now ts
    → Inv c l now (remove_at i ts)
remove-Inv c l now ts i v = record {
  cooldown = v.cooldown;
  distinct = v.distinct;
  held = All-remove_at (IsHeld l now) ts i v.held;
  past = All-remove_at (IsPast now) ts i v.past;
  spaced = Spaced-remove_at c ts i v.spaced;
}

-- Giving up a prompt ticket: its address is released, and the ticket goes.
pub give_up-Inv :
    (c : ℕ) (l : CooldownLimiter) (now : ℕ) (ts : List Ticket) (i : ℕ) (t : Ticket)
    → get_elem? ts i ≡ some t
    → now < t.at + c
    → Inv c l now ts
    → Inv c (release l t.to) now (remove_at i ts)
give_up-Inv c l now ts i t e k v =
    release-Inv c l t now (remove_at i ts) (All-get_elem? (IsPast now) ts i e v.past) (inl k)
      (Apart-remove_at c ts i e v.spaced) (remove-Inv c l now ts i v)

-- The predicates on tickets do not read the phase.
pub All-set_phase {κ} :
    (P : Ticket → Type κ) (p : Phase) (ts : List Ticket) (i : ℕ)
    → ((t : Ticket) → P t → P (record t { phase = p }))
    → All P ts
    → All P (set_phase p i ts)
unfolding set_phase
All-set_phase P p [] i k h = tt
All-set_phase P p (t ∷ ts) zero k h = (k t h.0, h.1)
All-set_phase P p (t ∷ ts) (suc i) k h = (h.0, All-set_phase P p ts i k h.1)

pub Spaced-set_phase :
    (c : ℕ) (p : Phase) (ts : List Ticket) (i : ℕ) → Spaced c ts → Spaced c (set_phase p i ts)
unfolding set_phase
Spaced-set_phase c p [] i h = tt
Spaced-set_phase c p (t ∷ ts) zero h = h
Spaced-set_phase c p (t ∷ ts) (suc i) h =
    (All-set_phase (Apart c t) p ts i (λ u a. a) h.0, Spaced-set_phase c p ts i h.1)

pub set_phase-Inv :
    (c : ℕ) (l : CooldownLimiter) (now : ℕ) (p : Phase) (ts : List Ticket) (i : ℕ)
    → Inv c l now ts
    → Inv c l now (set_phase p i ts)
set_phase-Inv c l now p ts i v = record {
  cooldown = v.cooldown;
  distinct = v.distinct;
  held = All-set_phase (IsHeld l now) p ts i (λ t h. h) v.held;
  past = All-set_phase (IsPast now) p ts i (λ t h. h) v.past;
  spaced = Spaced-set_phase c p ts i v.spaced;
}

pub prompt_lem :
    (c now : ℕ) (ts : List Ticket) (i : ℕ) (t : Ticket)
    → All (IsPrompt c now) ts
    → get_elem? ts i ≡ some t
    → t.phase ≢ done
    → now < t.at + c
prompt_lem c now ts i t h e busy = ground (arith, All-get_elem? (IsPrompt c now) ts i e h)
