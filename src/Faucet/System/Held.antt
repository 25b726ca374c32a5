-- ===== src/Faucet/System/Held.antt =====
-- What a request does to the address limiter, and to the tickets that the limiter remembers.
use gemba_blockchain.Base.{
  ==_iff, All, Bool-cases, Distinct, List, Text, [], ap, arith, inl, inr, lookup, lookup-erase,
  refl, some, text_eq, true, ℕ, ◌+◌, ◌∷◌, ◌≡◌, ◌≢◌, ◌≤◌, ◌⊎◌,
}
use gemba_blockchain.Js.{text}
use gemba_blockchain.Faucet.Limiter.{CooldownLimiter, try_acquire, release}
use gemba_blockchain.Faucet.Limiter.Laws.{
  try_acquire_keeps, try_acquire_refuses, try_acquire_cooldown_ms, try_acquire_refused,
}
use gemba_blockchain.Faucet.Budget.{global_budget_allow}
use gemba_blockchain.Faucet.Validation.{is_evm_address, matches_evm_address}
use gemba_blockchain.Faucet.Server.{
  Config, Server, Response, Admission, answered, awaits_balance, admit, release_cooldowns,
  take_address, take_ip, take_budget,
}
use gemba_blockchain.Faucet.System.{Ticket}

-- Two tickets for one address were let through at least a cooldown apart.
abbrev pub Apart : ℕ → Ticket → Ticket → Type 0
Apart c t u = (t.to ≢ u.to) ⊎ (t.at + c ≤ u.at) ⊎ (u.at + c ≤ t.at)

abbrev pub Spaced : ℕ → List Ticket → Type 0
Spaced c [] = Unit
Spaced c (t ∷ ts) = All (Apart c t) ts × Spaced c ts

-- The limiter remembers the ticket, or its cooldown is over at time `now`.
abbrev pub IsHeld : CooldownLimiter → ℕ → Ticket → Type 0
IsHeld l now t = (lookup t.to l.last ≡ some t.at) ⊎ (t.at + l.cooldown_ms ≤ now)

abbrev pub IsPast : ℕ → Ticket → Type 0
IsPast now t = t.at ≤ now

-- An acquisition for any address keeps what the limiter remembers.
pub try_acquire-IsHeld :
    (l : CooldownLimiter) (to : Text) (clock now : ℕ) (ts : List Ticket)
    → Distinct l.last
    → clock ≤ now
    → All (IsHeld l clock) ts
    → All (IsHeld (try_acquire l to now).0 now) ts
try_acquire-IsHeld l to clock now [] d le h = tt
try_acquire-IsHeld l to clock now (t ∷ ts) d le (h, hs) = (
  ground (arith, try_acquire_keeps l to t.to now t.at d, try_acquire_cooldown_ms l to now),
  try_acquire-IsHeld l to clock now ts d le hs,
)

-- An acquisition that is granted finds every ticket for its address over.
pub granted-Apart :
    (l : CooldownLimiter) (n : Ticket) (clock : ℕ) (ts : List Ticket)
    → clock ≤ n.at
    → (try_acquire l n.to n.at).1 ≡ true
    → All (IsHeld l clock) ts
    → All (Apart l.cooldown_ms n) ts
granted-Apart l n clock [] le g h = tt
granted-Apart l n clock (t ∷ ts) le g (h, hs) = (
  ground (arith, ==_iff n.to t.to, try_acquire_refuses l n.to n.at t.at),
  granted-Apart l n clock ts le g hs,
)

-- A release for an address whose tickets are all over keeps what the limiter remembers.
pub release-IsHeld :
    (l : CooldownLimiter) (to : Text) (now : ℕ) (ts : List Ticket)
    → All (IsHeld l now) ts
    → All (λ t. (to ≢ t.to) ⊎ (t.at + l.cooldown_ms ≤ now)) ts
    → All (IsHeld (release l to) now) ts
unfolding release
release-IsHeld l to now [] h o = tt
release-IsHeld l to now (t ∷ ts) (h, hs) (o, os) =
    (ground (arith, lookup-erase to t.to l.last, ==_iff to t.to), release-IsHeld l to now ts hs os)

-- The three ways in which a request leaves the address limiter.
pub data Arrival (l l' : CooldownLimiter) (to : Text) (now : ℕ) : Admission → Type 0 where
  turned_away : {r : Response} → l' ≡ l → Arrival l l' to now (answered r)
  rolled_back :
      {r : Response}
      → (try_acquire l to now).1 ≡ true
      → l' ≡ release (try_acquire l to now).0 to
      → Arrival l l' to now (answered r)
  let_in :
      (try_acquire l to now).1 ≡ true
      → l' ≡ (try_acquire l to now).0
      → Arrival l l' to now (awaits_balance to)

pub take_budget-Arrival :
    (cfg : Config) (s : Server) (l : CooldownLimiter) (to ip : Text) (now : ℕ)
    → (try_acquire l to now).1 ≡ true
    → s.by_address ≡ (try_acquire l to now).0
    → Arrival l (take_budget cfg s to ip now).0.by_address to now (take_budget cfg s to ip now).1
unfolding take_budget release_cooldowns
take_budget-Arrival cfg s l to ip now g e =
    elim (Bool-cases (global_budget_allow cfg.daily_global_max s.budget now).1) [
      | inl ok ↦ rw (ok) (let_in g e)
      | inr full ↦ rw (full) (rolled_back g (ap (λ x. release x to) e))
    ]

pub take_ip-Arrival :
    (cfg : Config) (s : Server) (l : CooldownLimiter) (to ip : Text) (now : ℕ)
    → (try_acquire l to now).1 ≡ true
    → s.by_address ≡ (try_acquire l to now).0
    → Arrival l (take_ip cfg s to ip now).0.by_address to now (take_ip cfg s to ip now).1
unfolding take_ip
take_ip-Arrival cfg s l to ip now g e = elim (Bool-cases (try_acquire s.by_ip ip now).1) [
  | inl ok ↦ rw (ok) (take_budget-Arrival cfg _ l to ip now g e)
  | inr cooling ↦ rw (cooling) (rolled_back g (ap (λ x. release x to) e))
]

pub admit-Arrival :
    (cfg : Config) (s : Server) (to ip : Text) (now : ℕ)
    → Arrival s.by_address
        (admit cfg s (text to) ip now).0.by_address
        to
        now
        (admit cfg s (text to) ip now).1
unfolding admit take_address is_evm_address
admit-Arrival cfg s to ip now = elim (Bool-cases (matches_evm_address to)) [
  | inr bad ↦ rw (bad) (turned_away refl)
  | inl good ↦ elim (Bool-cases (try_acquire s.by_address to now).1) [
    | inl ok ↦ rw (good, ok) (take_ip-Arrival cfg _ s.by_address to ip now ok refl)
    | inr cooling ↦
        rw (good, cooling) (turned_away (try_acquire_refused s.by_address to now cooling))
  ]
]
