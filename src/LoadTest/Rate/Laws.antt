-- ===== src/LoadTest/Rate/Laws.antt =====
-- The bucket lets no more through than its rate, and a caller of `take` gets its token.
use gemba_blockchain.Base.{
  Bool-cases, List, [], ap, arith, false, if◌then◌else◌, inl, inr, max, refl, some, suc, zero, ℕ,
  ◌*◌, ◌+◌, ◌-◌, ◌<◌, ◌∷◌, ◌≡◌, ◌≤◌,
}
use gemba_blockchain.LoadTest.Rate.{
  RateLimiter, token, set_rate, refill, try_take, wait_ms, take_token, new_limiter,
}

-- A limiter as `setRate` leaves it, with no more tokens than fit.
abbrev pub IsLimiter : RateLimiter → Type 0
IsLimiter l = (l.capacity ≡ max token (l.tps * 1000)) × (l.tokens ≤ l.capacity)

-- Rounds of `take`, each some milliseconds after the last one, and how many of them got a token.
unfoldable pub granted : RateLimiter → ℕ → List ℕ → ℕ
granted l now [] = 0
granted l now (pause ∷ pauses) =
    let tried = try_take l (now + pause) in
    let later = granted tried.0 (now + pause) pauses in if tried.1 then later + 1 else later

unfoldable pub total : List ℕ → ℕ
total [] = 0
total (x ∷ xs) = x + total xs

try_take-tally :
    (l : RateLimiter) (now pause : ℕ)
    → l.last ≡ now
    → let tried = try_take l (now + pause) in
      (tried.0.last ≡ now + pause)
      × (tried.0.tps ≡ l.tps)
      × (tried.0.tokens + (if tried.1 then token else 0) ≤ l.tokens + pause * l.tps)
unfolding try_take refill
try_take-tally l now pause same =
    let gap : (now + pause) - l.last ≡ pause = omega (arith, same) in rw gap (ground arith)

-- From any state on, over any rounds of `take`, the tokens given out are at most those in the bucket
-- and those that come in at the rate.
pub granted_bounded :
    (l : RateLimiter) (now : ℕ) (pauses : List ℕ)
    → l.last ≡ now
    → granted l now pauses * token ≤ l.tokens + total pauses * l.tps
unfolding granted total
granted_bounded l now [] same = omega arith
granted_bounded l now (pause ∷ pauses) same =
    let tally = try_take-tally l now pause same in
    let rest = granted_bounded (try_take l (now + pause)).0 (now + pause) pauses tally.0 in
    let same_rate = ap (λ rate. total pauses * rate) tally.1 in
    ground (arith, tally, rest, same_rate)

-- What was done with a limiter: a round of `take` some milliseconds after the last one, or a new rate.
pub data Action : Type 0 where
  tries : ℕ → Action
  sets_rate : ℕ → Action

-- The limiter and the time after the actions.
unfoldable pub after : RateLimiter → ℕ → List Action → RateLimiter × ℕ
after l now [] = (l, now)
after l now (tries pause ∷ acts) = after (try_take l (now + pause)).0 (now + pause) acts
after l now (sets_rate tps ∷ acts) = after (set_rate l tps) now acts

-- The capacity is that of the rate, and the clock was read last at the time.
abbrev IsRated : RateLimiter → ℕ → Type 0
IsRated l now = (l.capacity ≡ max token (l.tps * 1000)) × (l.last ≡ now)

try_take-IsRated :
    (l : RateLimiter) (now : ℕ)
    → l.capacity ≡ max token (l.tps * 1000)
    → IsRated (try_take l now).0 now
unfolding try_take refill
try_take-IsRated l now ok = ground (arith, ok)

after-IsRated :
    (l : RateLimiter) (now : ℕ) (acts : List Action)
    → IsRated l now
    → IsRated (after l now acts).0 (after l now acts).1
unfolding after set_rate
after-IsRated l now [] ok = ok
after-IsRated l now (tries pause ∷ acts) ok =
    after-IsRated (try_take l (now + pause)).0 (now + pause) acts
      (try_take-IsRated l (now + pause) ok.0)
after-IsRated l now (sets_rate tps ∷ acts) ok =
    after-IsRated (set_rate l tps) now acts (omega arith, ok.1)

-- What a round gives out and what it leaves fit into the bucket, whatever was in it.
try_take-capped :
    (l : RateLimiter) (now : ℕ)
    → let tried = try_take l now in
      ((if tried.1 then token else 0) + tried.0.tokens ≤ l.capacity) × (tried.0.tps ≡ l.tps)
unfolding try_take refill
try_take-capped l now = ground arith

try_take-last : (l : RateLimiter) (now : ℕ) → (try_take l now).0.last ≡ now
unfolding try_take refill
try_take-last l now = ground arith

granted_capped :
    (l : RateLimiter) (now : ℕ) (pauses : List ℕ)
    → granted l now pauses * token ≤ l.capacity + total pauses * l.tps
unfolding granted total
granted_capped l now [] = omega arith
granted_capped l now (pause ∷ pauses) =
    let tried = try_take l (now + pause) in
    let one = try_take-capped l (now + pause) in
    let rest = granted_bounded tried.0 (now + pause) pauses (try_take-last l (now + pause)) in
    let same_rate = ap (λ r. total pauses * r) one.1 in
    let more : total pauses * l.tps ≤ (pause + total pauses) * l.tps = grind arith in
    ground (arith, one.0, rest, same_rate, more)

-- Over any window, at most a full bucket of tokens and what comes in at the rate are given out,
-- whatever a new limiter did before: rounds of `take` at any times, and changes of its rate.
pub granted_within_capacity :
    (tps start : ℕ) (before : List Action) (pauses : List ℕ)
    → let s = after (new_limiter tps start) start before in
      granted s.0 s.1 pauses * token ≤ max token (s.0.tps * 1000) + total pauses * s.0.tps
unfolding new_limiter set_rate
granted_within_capacity tps start before pauses =
    let s = after (new_limiter tps start) start before in
    let ok = after-IsRated (new_limiter tps start) start before (omega arith, refl) in
    omega (arith, granted_capped s.0 s.1 pauses, ok.0)

try_take-IsLimiter : (l : RateLimiter) (now : ℕ) → IsLimiter l → IsLimiter (try_take l now).0
unfolding try_take refill
try_take-IsLimiter l now ok = ground (arith, ok)

set_rate-capacity :
    (l : RateLimiter) (tps : ℕ)
    → (set_rate l tps).capacity ≡ max token ((set_rate l tps).tps * 1000)
unfolding set_rate
set_rate-capacity l tps = ground arith

-- A round without a token waits two milliseconds at the least, and has taken in all that was due.
try_take-waits :
    (l : RateLimiter) (now : ℕ)
    → IsLimiter l
    → (try_take l now).1 ≡ false
    → let tried = (try_take l now).0 in
      (tried.tokens ≡ l.tokens + (now - l.last) * l.tps)
      × (tried.tokens < token)
      × (2 ≤ wait_ms tried)
      × (tried.tps ≡ l.tps)
      × (tried.last ≡ now)
unfolding try_take refill wait_ms
try_take-waits l now ok h = ground (arith, ok)

-- What a wait of two milliseconds or more is worth.
wait-worth :
    (pause tps fuel tokens : ℕ)
    → 2 ≤ pause
    → token ≤ tokens + (fuel + 1) * 2 * tps
    → token ≤ tokens + pause * tps + fuel * 2 * tps
wait-worth pause tps fuel tokens long enough =
    let order : 2 * tps ≤ pause * tps = grind arith in omega (arith, order, enough)

take_token-fills :
    (fuel : ℕ) (late : ℕ → ℕ) (l : RateLimiter) (now : ℕ)
    → IsLimiter l
    → token ≤ l.tokens + (now - l.last) * l.tps + fuel * 2 * l.tps
    → (r : RateLimiter × ℕ) × (take_token (suc fuel) late l now ≡ some r)
unfolding take_token
take_token-fills zero late l now ok enough = elim (Bool-cases (try_take l now).1) [
  | inl taken ↦ (((try_take l now).0, now), ground (arith, taken))
  | inr empty ↦
      let waits = try_take-waits l now ok empty in absurd (omega (arith, waits.0, waits.1, enough))
]
take_token-fills (suc fuel) late l now ok enough = elim (Bool-cases (try_take l now).1) [
  | inl taken ↦ (((try_take l now).0, now), ground (arith, taken))
  | inr empty ↦
      let waits = try_take-waits l now ok empty in
      let tried = (try_take l now).0 in
      let then_now = now + wait_ms tried + late (suc fuel) in
      let worth =
        wait-worth (then_now - tried.last) l.tps fuel tried.tokens (omega (arith, waits.2, waits.4))
          (omega (arith, waits.0, enough)) in
      let rest =
        take_token-fills fuel late tried then_now (try_take-IsLimiter l now ok)
          (rw (waits.3) worth) in
      (rest.0, ground (arith, empty, rest.1))
]

-- `take` returns, however late the timers are: with a rate above 0, a limiter that is as `setRate`
-- leaves it and holds no more than fits gives its token within half a million rounds.
pub take_token-returns :
    (late : ℕ → ℕ) (l : RateLimiter) (now : ℕ)
    → IsLimiter l
    → 0 < l.tps
    → (r : RateLimiter × ℕ) × (take_token 500001 late l now ≡ some r)
take_token-returns late l now ok running =
    take_token-fills 500000 late l now ok
      (let enough : 1000000 ≤ 1000000 * l.tps = omega (arith, running) in omega (arith, enough))
