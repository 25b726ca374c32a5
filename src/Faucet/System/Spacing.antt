-- ===== src/Faucet/System/Spacing.antt =====
-- However the requests interleave, drips to one spelling of an address are a cooldown apart. Another spelling of
-- the address has a cooldown of its own.
use gemba_blockchain.Base.{
  Bool, Option, Option-cases, [], false, get_elem?, if◌then◌else◌, inl, inr, ltb, none, refl, some,
  true, ℕ, ◌+◌, ◌<◌, ◌≡◌,
}
use gemba_blockchain.Js.{text}
use gemba_blockchain.Faucet.Limiter.{release}
use gemba_blockchain.Faucet.Server.{
  Config, Server, drip, admit, Verdict, replied, sends, below_floor, on_balance, on_sent, roll_back,
  release_cooldowns,
}
use gemba_blockchain.Faucet.System.{
  sending, done, Ticket, System, remove_at, set_phase, arrive, balance_known, sent_known, Step,
  arrives, balances, settles, Reach, here, later,
}
use gemba_blockchain.Faucet.System.Held.{Spaced, admit-Arrival}
use gemba_blockchain.Faucet.System.Invariant.{
  Inv, advance-Inv, Arrival-Inv, remove-Inv, give_up-Inv, set_phase-Inv, prompt_lem,
}

abbrev pub SystemInv : ℕ → System → Type 0
SystemInv c sys = Inv c sys.server.by_address sys.clock sys.tickets

balance-Inv :
    (cfg : Config) (c : ℕ) (s : System) (i : ℕ) (t : Ticket) (balance : Option ℕ) (now : ℕ)
    → get_elem? s.tickets i ≡ some t
    → now < t.at + c
    → Inv c s.server.by_address now s.tickets
    → SystemInv c (balance_known cfg s i t balance now)
unfolding balance_known on_balance roll_back release_cooldowns
balance-Inv cfg c s i t none now e k w = remove-Inv c s.server.by_address now s.tickets i w
balance-Inv cfg c s i t (some balance) now e k w =
    below (ltb balance cfg.min_balance_wei)
      (give_up-Inv c s.server.by_address now s.tickets i t e k w)
      (set_phase-Inv c s.server.by_address now sending s.tickets i w)
  where
    after : Bool → System
    after low =
        let (x, v) =
          let r : Server × Verdict =
            if low
            then (roll_back s.server t.to t.ip, replied below_floor)
            else (s.server, sends) in
          r in
        record {
          server = x;
          clock = now;
          tickets = elim v [
            | replied r ↦ remove_at i s.tickets
            | sends ↦ set_phase sending i s.tickets
          ];
        }

    below :
        (low : Bool)
        → Inv c (release s.server.by_address t.to) now (remove_at i s.tickets)
        → Inv c s.server.by_address now (set_phase sending i s.tickets)
        → SystemInv c (after low)
    below true x y = x
    below false x y = y

Step-Inv : (cfg : Config) (c : ℕ) {s t : System} → Step cfg c s t → SystemInv c s → SystemInv c t
unfolding arrive sent_known on_sent roll_back release_cooldowns
Step-Inv cfg c {s} (arrives to ip now le prompt) v =
    Arrival-Inv c s.server.by_address _ to ip s.clock now (admit cfg s.server (text to) ip now).0 _
      s.tickets le (admit-Arrival cfg s.server to ip now) v
Step-Inv cfg c {s} (balances i t balance now le prompt e phase) v =
    balance-Inv cfg c s i t balance now e (prompt_lem c now s.tickets i t prompt e (λ q. cc))
      (advance-Inv c s.server.by_address s.clock now s.tickets le v)
Step-Inv cfg c {s} (settles i t sent now le prompt e phase) v =
    let w = advance-Inv c s.server.by_address s.clock now s.tickets le v in
    elim (Option-cases (drip t.to sent)) [
      | inl failed ↦
          rw (failed, sent_known, on_sent)
            (give_up-Inv c s.server.by_address now s.tickets i t e
              (prompt_lem c now s.tickets i t prompt e (λ q. cc)) w)
      | inr (hash, ok) ↦
          rw (ok, sent_known, on_sent) (set_phase-Inv c s.server.by_address now done s.tickets i w)
    ]

Reach-Inv :
    (cfg : Config) (c : ℕ) {start sys : System}
    → Reach cfg c start sys
    → SystemInv c start
    → SystemInv c sys
Reach-Inv cfg c here v = v
Reach-Inv cfg c (later r st) v = Step-Inv cfg c st (Reach-Inv cfg c r v)

-- A server that has just started: no ticket, and an empty address limiter.
abbrev pub IsFresh : ℕ → System → Type 0
IsFresh c sys = (sys.server.by_address ≡ record { cooldown_ms = c; last = [] }) × (sys.tickets ≡ [])

-- In every state that a fresh server can reach, whatever the order in which requests arrive and the
-- chain answers, any two requests that spell the address alike, upper and lower case included, and
-- that hold a pending or a finished drip were let through at least a cooldown apart, if the chain
-- answers within a cooldown.
pub drips-Spaced :
    (cfg : Config) (c : ℕ) {start sys : System}
    → IsFresh c start
    → Reach cfg c start sys
    → Spaced c sys.tickets
drips-Spaced cfg c {start} (e, none_yet) r =
    (Reach-Inv cfg c r (
      rw (e, none_yet)
        (record { cooldown = refl; distinct = tt; held = tt; past = tt; spaced = tt }))).spaced
