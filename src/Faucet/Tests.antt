-- ===== src/Faucet/Tests.antt =====
-- The faucet at concrete requests.
use gemba_blockchain.Base.{
  ==_false-ne, List, Text, [], arith, codes, false, filter_map, inl, inr, insert, lookup, none,
  refl, some, text_eq, true, ℕ, ◌+◌, ◌↔◌, ◌∷◌, ◌≡◌, ◌≢◌, ◌≤◌,
}
use gemba_blockchain.Js.{text}
use gemba_blockchain.Faucet.Limiter.{CooldownLimiter, remaining, sweep, try_acquire}
use gemba_blockchain.Faucet.Limiter.Laws.{
  Call, acquires, releases, run, try_acquire_once_per_cooldown,
}
use gemba_blockchain.Faucet.Budget.{Budget, global_budget_allow}
use gemba_blockchain.Faucet.Budget.Laws.{
  Call as BudgetCall, run as run_budget, allows, allow, give_back, daily_budget_bound,
  stale_release_exceeds_budget,
}
use gemba_blockchain.Faucet.Validation.{is_hex, is_digit, matches_evm_address, is_evm_address}
use gemba_blockchain.Faucet.Server.{
  Config, Server, address_on_cooldown, internal_error, waited, drip, answered, awaits_balance,
  take_budget, take_ip, take_address, admit, replied, on_balance, on_sent,
}
use gemba_blockchain.Faucet.Server.Branches.{admit-awaits_iff, balance_failure_burns_cooldown}
use gemba_blockchain.Faucet.System.{
  Ticket, System, arrive, balance_known, sent_known, set_phase, Reach, here, later, arrives,
  balances, settles, checking, sending,
}
use gemba_blockchain.Faucet.System.Held.{Spaced}
use gemba_blockchain.Faucet.System.Spacing.{drips-Spaced}

abbrev alice : Text
alice = codes "0x00000000000000000000000000000000000000aA"

abbrev bob : Text
bob = codes "0x00000000000000000000000000000000000000bb"

abbrev here_ip : Text
here_ip = codes "10.0.0.1"

abbrev there_ip : Text
there_ip = codes "10.0.0.2"

-- A cooldown of 100.
abbrev empty_limiter : CooldownLimiter
empty_limiter = record { cooldown_ms = 100; last = [] }

abbrev alice_limiter : CooldownLimiter
alice_limiter = record { cooldown_ms = 100; last = (alice, 5) ∷ [] }

abbrev two_limiter : CooldownLimiter
two_limiter = record { cooldown_ms = 100; last = (alice, 5) ∷ (bob, 90) ∷ [] }

abbrev calls : List Call
calls = acquires bob 40 ∷ releases bob ∷ acquires alice 60 ∷ []

alice≢bob : alice ≢ bob
alice≢bob = ==_false-ne alice bob refl

bob≢alice : bob ≢ alice
bob≢alice = ==_false-ne bob alice refl

try_acquire_once_per_cooldown_example :
    (try_acquire (run (try_acquire empty_limiter alice 5).0 calls) alice 70).1 ≡ false
unfolding try_acquire remaining lookup
try_acquire_once_per_cooldown_example =
    try_acquire_once_per_cooldown empty_limiter calls alice 5 70 tt refl
      (omega arith, (bob≢alice, (omega arith, tt))) (omega arith)

-- Three drips a day, on the day after day 0.
abbrev noon : ℕ
noon = 100_000_000

abbrev first_day : Budget
first_day = record { drip_day = 0; drip_count_today = 3 }

abbrev spent_day : Budget
spent_day = record { drip_day = 1; drip_count_today = 3 }

abbrev requests : List BudgetCall
requests = allow noon ∷ allow noon ∷ give_back ∷ allow noon ∷ allow noon ∷ []

daily_budget_bound_example :
    (run_budget 3 first_day (allow noon ∷ requests) 0 0).1
    ≤ 3 + (run_budget 3 first_day (allow noon ∷ requests) 0 0).2
daily_budget_bound_example =
    daily_budget_bound 3 1 noon requests first_day (refl, (refl, (refl, (tt, (refl, (refl, tt))))))
      (omega arith)

stale_release_exceeds_budget_example :
    run_budget 3 spent_day (allow 5 ∷ allows 3 noon (give_back ∷ allow noon ∷ [])) 0 0
    ≡ (record { drip_day = 1; drip_count_today = 3 }, 5, 1)
stale_release_exceeds_budget_example =
    stale_release_exceeds_budget 3 5 noon spent_day (omega arith) (omega arith) (omega arith)

abbrev cfg : Config
cfg = record { daily_global_max = 3; min_balance_wei = 10 }

abbrev fresh_server : Server
fresh_server = record { by_address = empty_limiter; by_ip = empty_limiter; budget = first_day }

abbrev alice_server : Server
alice_server = record {
  by_address = alice_limiter;
  by_ip = record { cooldown_ms = 100; last = (here_ip, 5) ∷ [] };
  budget = record { drip_day = 1; drip_count_today = 1 };
}

admit-awaits_iff_example :
    ((admit cfg fresh_server (text alice) here_ip 5).1 ≡ awaits_balance alice) ↔ (
      (matches_evm_address alice ≡ true)
      × (remaining empty_limiter alice 5 ≡ 0)
      × (remaining empty_limiter here_ip 5 ≡ 0)
      × ((global_budget_allow 3 first_day 5).1 ≡ true))
admit-awaits_iff_example = admit-awaits_iff cfg fresh_server alice here_ip 5

balance_failure_burns_cooldown_example :
    let failed =
      on_balance cfg (admit cfg fresh_server (text alice) here_ip noon).0 alice here_ip none in
    (failed.1 ≡ replied internal_error)
    × ((admit cfg failed.0 (text alice) there_ip (noon + 50)).1 ≡ answered (address_on_cooldown 50))
unfolding admit take_address take_ip take_budget is_evm_address matches_evm_address is_hex is_digit
    try_acquire remaining lookup global_budget_allow
balance_failure_burns_cooldown_example =
    balance_failure_burns_cooldown cfg fresh_server alice here_ip there_ip noon (noon + 50) refl
      (omega arith)

abbrev fresh_system : System
fresh_system = record { server = fresh_server; clock = 0; tickets = [] }

-- One request for Alice that the chain serves, and a second one after the cooldown.
abbrev ticket : ℕ → Ticket
ticket at = record { to = alice; ip = here_ip; at = at; phase = checking }

abbrev asked : System
asked = arrive cfg fresh_system alice here_ip noon

abbrev known : System
known = balance_known cfg asked 0 (ticket noon) (some 50) (noon + 1)

abbrev sent : System
sent =
    sent_known known 0 (record (ticket noon) { phase = sending })
      (waited (some (record { status = 1; hash = codes "0xab" }))) (noon + 2)

abbrev asked_again : System
asked_again = arrive cfg sent alice here_ip (noon + 200)

two_drips : Reach cfg 100 fresh_system asked_again
unfolding arrive balance_known sent_known set_phase admit take_address take_ip take_budget
    is_evm_address matches_evm_address is_hex is_digit try_acquire remaining lookup insert
    filter_map sweep global_budget_allow on_balance on_sent drip
two_drips =
    later
      (later
        (later (later here (arrives alice here_ip noon (omega arith) tt)) (
          balances 0 (ticket noon) (some 50) (noon + 1) (omega arith) (inr (omega arith), tt) refl
            refl))
        (settles 0 (record (ticket noon) { phase = sending })
          (waited (some (record { status = 1; hash = codes "0xab" }))) (noon + 2) (omega arith)
          (inr (omega arith), tt) refl refl))
      (arrives alice here_ip (noon + 200) (omega arith) (inl refl, tt))

drips-Spaced_example : Spaced 100 asked_again.tickets
drips-Spaced_example = drips-Spaced cfg 100 (refl, refl) two_drips

-- The same address in lower case passes the form, and is let through a millisecond after the first spelling.
abbrev alice_lower : Text
alice_lower = codes "0x00000000000000000000000000000000000000aa"

second_spelling_test : (try_acquire (try_acquire empty_limiter alice 5).0 alice_lower 6).1 ≡ true
unfolding try_acquire remaining sweep lookup filter_map insert
second_spelling_test = refl

second_spelling_test_form : is_evm_address (text alice_lower) ≡ true
unfolding is_evm_address matches_evm_address is_hex is_digit
second_spelling_test_form = refl
