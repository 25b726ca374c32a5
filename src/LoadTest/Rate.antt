-- ===== src/LoadTest/Rate.antt =====
-- endurance/lib/rateLimiter.js: the token bucket and the semaphore of the sender. Rates are in
-- thousandths of a token per second and tokens in millionths, so that `ms / 1000 * tps` is a product
-- of whole numbers; the rounding of the source's doubles is left out.
pub mod Laws
pub mod Slots
use gemba_blockchain.Base.{
  Bool, List, Option, [], false, if◌then◌else◌, leb, ltb, max, min, none, some, suc, true, zero, ℕ,
  ◌*◌, ◌++◌, ◌+◌, ◌-◌, ◌/◌, ◌∷◌,
}

-- One token.
abbrev pub token : ℕ
token = 1000000

pub record RateLimiter : Type 0 where
  pub tps : ℕ
  pub capacity : ℕ
  pub tokens : ℕ
  pub last : ℕ

unfoldable pub set_rate : RateLimiter → ℕ → RateLimiter
set_rate l tps = record l { tps = max 0 tps; capacity = max token (tps * 1000) }

unfoldable pub new_limiter : ℕ → ℕ → RateLimiter
new_limiter tps now =
    record (set_rate (record { tps = 0; capacity = 0; tokens = 0; last = now }) tps) {
      tokens = 0;
      last = now;
    }

-- `_refill` at a reading of the clock.
unfoldable pub refill : RateLimiter → ℕ → RateLimiter
refill l now = record l { tokens = min l.capacity (l.tokens + (now - l.last) * l.tps); last = now }

-- One round of the loop of `take`: the token is taken, or it is not there.
unfoldable pub try_take : RateLimiter → ℕ → RateLimiter × Bool
try_take l now =
    let filled = refill l now in
    if leb token filled.tokens
    then (record filled { tokens = filled.tokens - token }, true)
    else (filled, false)

-- The milliseconds that a round waits; a timer drops the fraction.
unfoldable pub wait_ms : RateLimiter → ℕ
wait_ms l =
    let need = if ltb 0 l.tps then (token - l.tokens) / l.tps else 50 in min 100 (max 2 need)

-- `take`: rounds until the token is there. The timer of a round fires `late` milliseconds after it
-- is due; the result is the limiter and the time of the return, and nothing when the fuel is gone.
unfoldable pub take_token : ℕ → (ℕ → ℕ) → RateLimiter → ℕ → Option (RateLimiter × ℕ)
take_token zero late l now = none
take_token (suc fuel) late l now =
    let tried = try_take l now in
    let again = take_token fuel late tried.0 (now + wait_ms tried.0 + late fuel) in
    if tried.1 then some (tried.0, now) else again

pub record Semaphore : Type 0 where
  pub max_slots : ℕ
  pub cur : ℕ
  pub queue : List ℕ

-- `acquire`: whether the caller goes on at once; otherwise it waits in the queue.
unfoldable pub acquire : Semaphore → ℕ → Semaphore × Bool
acquire s caller =
    if ltb s.cur s.max_slots
    then (record s { cur = s.cur + 1 }, true)
    else (record s { queue = s.queue ++ caller ∷ [] }, false)

-- The rest of `acquire` in a caller that was woken.
unfoldable pub resume : Semaphore → Semaphore
resume s = record s { cur = s.cur + 1 }

-- `release`: the first waiter, if any, is woken.
unfoldable pub release : Semaphore → Semaphore × Option ℕ
release s = elim s.queue [
  | [] ↦ (record s { cur = s.cur - 1 }, none)
  | r ∷ rest ↦ (record s { cur = s.cur - 1; queue = rest }, some r)
]
