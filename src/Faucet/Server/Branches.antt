-- ===== src/Faucet/Server/Branches.antt =====
-- What one request does to the server on each of its branches.
use gemba_blockchain.Base.{
  ==_refl, Text, ap, arith, lookup, lookup-erase, none, refl, some, text_eq, true, ℕ, ◌+◌, ◌-◌, ◌<◌,
  ◌↔◌, ◌∙◌, ◌≡◌, ◌⊎◌,
}
use gemba_blockchain.Js.{Value, text}
use gemba_blockchain.Faucet.Limiter.{CooldownLimiter, try_acquire, remaining, release}
use gemba_blockchain.Faucet.Limiter.Laws.{
  try_acquire_records, try_acquire_refuses, try_acquire_cooldown_ms,
}
use gemba_blockchain.Faucet.Budget.{global_budget_allow, global_budget_release}
use gemba_blockchain.Faucet.Validation.{is_evm_address, matches_evm_address}
use gemba_blockchain.Faucet.Server.{
  Config, Server, Response, address_on_cooldown, internal_error, status, Sent, drip, answered,
  awaits_balance, release_cooldowns, roll_back, take_budget, take_ip, take_address, admit, replied,
  on_balance, on_sent,
}

-- A request is let through to the balance query exactly when its address is well formed, and
-- neither the address, nor the IP, nor the daily budget holds it back.
pub admit-awaits_iff :
    (cfg : Config) (s : Server) (to ip : Text) (now : ℕ)
    → ((admit cfg s (text to) ip now).1 ≡ awaits_balance to) ↔ (
        (matches_evm_address to ≡ true)
        × (remaining s.by_address to now ≡ 0)
        × (remaining s.by_ip ip now ≡ 0)
        × ((global_budget_allow cfg.daily_global_max s.budget now).1 ≡ true))
unfolding admit take_address take_ip take_budget try_acquire is_evm_address
admit-awaits_iff cfg s to ip now = ground arith

-- A request that is answered before the balance query is answered 400 or 429.
pub admit-refused_status :
    (cfg : Config) (s : Server) (v : Value) (ip : Text) (now : ℕ) (r : Response)
    → (admit cfg s v ip now).1 ≡ answered r
    → (status r ≡ 400) ⊎ (status r ≡ 429)
unfolding admit take_address take_ip take_budget status
admit-refused_status cfg s (text to) ip now r h = ground arith
admit-refused_status cfg s _ ip now r h = ground arith

-- A failed send answers 500, frees the address and the IP, and gives the place in the budget back.
pub on_sent-failed :
    (s : Server) (to ip : Text) (sent : Sent) (now : ℕ)
    → drip to sent ≡ none
    → ((on_sent s to ip sent).1 ≡ internal_error)
      × (remaining (on_sent s to ip sent).0.by_address to now ≡ 0)
      × (remaining (on_sent s to ip sent).0.by_ip ip now ≡ 0)
      × ((on_sent s to ip sent).0.budget ≡ global_budget_release s.budget)
unfolding on_sent roll_back release_cooldowns release remaining
on_sent-failed s to ip sent now h = ground (
  arith,
  lookup-erase to to s.by_address.last,
  lookup-erase ip ip s.by_ip.last,
  ==_refl to,
  ==_refl ip,
)

-- What a request that is let through has done to the address limiter.
pub admit-by_address :
    (cfg : Config) (s : Server) (to ip : Text) (t : ℕ)
    → (admit cfg s (text to) ip t).1 ≡ awaits_balance to
    → ((admit cfg s (text to) ip t).0.by_address ≡ (try_acquire s.by_address to t).0)
      × ((try_acquire s.by_address to t).1 ≡ true)
      × (matches_evm_address to ≡ true)
unfolding admit take_address take_ip take_budget is_evm_address
admit-by_address cfg s to ip t h = ground arith

-- A request for an address whose cooldown runs is answered 429 and changes nothing.
pub admit_on_cooldown :
    (cfg : Config) (s : Server) (to ip : Text) (t now : ℕ)
    → matches_evm_address to ≡ true
    → lookup to s.by_address.last ≡ some t
    → now < t + s.by_address.cooldown_ms
    → admit cfg s (text to) ip now
      ≡ (s, answered (address_on_cooldown (s.by_address.cooldown_ms + t - now)))
unfolding admit take_address is_evm_address remaining
admit_on_cooldown cfg s to ip t now m e h =
    ground (arith, try_acquire_refuses s.by_address to now t e h)

-- When the balance query of a request that was let through throws, the caller gets 500, and a
-- request for the address that comes within the cooldown, from any IP, is answered that the address
-- is on cooldown.
pub balance_failure_burns_cooldown :
    (cfg : Config) (s : Server) (to ip ip' : Text) (t now : ℕ)
    → (admit cfg s (text to) ip t).1 ≡ awaits_balance to
    → now < t + s.by_address.cooldown_ms
    → let failed = on_balance cfg (admit cfg s (text to) ip t).0 to ip none in
      (failed.1 ≡ replied internal_error)
      × ((admit cfg failed.0 (text to) ip' now).1
          ≡ answered (address_on_cooldown (s.by_address.cooldown_ms + t - now)))
unfolding on_balance
balance_failure_burns_cooldown cfg s to ip ip' t now h k =
    let (same, granted, m) = admit-by_address cfg s to ip t h in
    let after = (admit cfg s (text to) ip t).0 in
    let cooldown : after.by_address.cooldown_ms ≡ s.by_address.cooldown_ms =
      ap (λ (l : CooldownLimiter). l.cooldown_ms) same
      ∙ try_acquire_cooldown_ms s.by_address to t in
    let recorded : lookup to after.by_address.last ≡ some t =
      ap (λ (l : CooldownLimiter). lookup to l.last) same
      ∙ try_acquire_records s.by_address to t granted in
    (
      refl,
      ground (
        arith,
        admit_on_cooldown cfg after to ip' t now m recorded
            (let bound : now < t + after.by_address.cooldown_ms = omega (arith, cooldown) in bound),
      ),
    )
