-- ===== src/Faucet/System.antt =====
-- services/testnet-faucet/src/server.js under concurrent requests. The event loop runs `admit`,
-- `on_balance` and `on_sent` of different requests in any order; a step is one of them.
pub mod Held
pub mod Invariant
pub mod Spacing
use gemba_blockchain.Base.{
  All, List, Option, Text, [], get_elem?, none, some, suc, zero, ℕ, ◌+◌, ◌<◌, ◌∷◌, ◌≡◌, ◌≤◌, ◌⊎◌,
}
use gemba_blockchain.Js.{Value, text}
use gemba_blockchain.Faucet.Limiter.{CooldownLimiter}
use gemba_blockchain.Faucet.Server.{
  Config, Server, Sent, drip, Admission, answered, awaits_balance, admit, Verdict, replied, sends,
  on_balance, on_sent,
}

pub data Phase : Type 0 where
  checking sending done : Phase

-- A request that was let through at time `at`: it awaits the balance or the send, or has dripped.
pub record Ticket : Type 0 where
  pub to : Text
  pub ip : Text
  pub at : ℕ
  pub phase : Phase

-- The server, the time of the last step, and the requests let through that hold their cooldown.
pub record System : Type 0 where
  pub server : Server
  pub clock : ℕ
  pub tickets : List Ticket

module _ {ℓ} {A : Type ℓ} where
  -- The list without its entry at the position.
  unfoldable pub remove_at : ℕ → List A → List A
  remove_at i [] = []
  remove_at zero (x ∷ xs) = xs
  remove_at (suc i) (x ∷ xs) = x ∷ remove_at i xs

unfoldable pub set_phase : Phase → ℕ → List Ticket → List Ticket
set_phase p i [] = []
set_phase p zero (t ∷ ts) = record t { phase = p } ∷ ts
set_phase p (suc i) (t ∷ ts) = t ∷ set_phase p i ts

abbrev pub arrived : Text → Text → ℕ → Server × Admission → List Ticket → List Ticket
arrived to ip now (s, answered r) ts = ts
arrived to ip now (s, awaits_balance _) ts =
    record { to = to; ip = ip; at = now; phase = checking } ∷ ts

-- A request with a string address; any other is answered 400 and changes nothing.
unfoldable pub arrive : Config → System → Text → Text → ℕ → System
arrive cfg sys to ip now =
    let r = admit cfg sys.server (text to) ip now in
    record { server = r.0; clock = now; tickets = arrived to ip now r sys.tickets }

-- The balance query of the ticket at position `i` ends.
unfoldable pub balance_known : Config → System → ℕ → Ticket → Option ℕ → ℕ → System
balance_known cfg sys i t balance now =
    let (s, v) = on_balance cfg sys.server t.to t.ip balance in
    record {
      server = s;
      clock = now;
      tickets = elim v [
        | replied r ↦ remove_at i sys.tickets
        | sends ↦ set_phase sending i sys.tickets
      ];
    }

-- The send of the ticket at position `i` ends.
unfoldable pub sent_known : System → ℕ → Ticket → Sent → ℕ → System
sent_known sys i t sent now = record {
  server = (on_sent sys.server t.to t.ip sent).0;
  clock = now;
  tickets = elim (drip t.to sent) [
    | none ↦ remove_at i sys.tickets
    | some hash ↦ set_phase done i sys.tickets
  ];
}

-- A request that still waits for the chain was let through less than a cooldown ago.
abbrev pub IsPrompt : ℕ → ℕ → Ticket → Type 0
IsPrompt cooldown now t = (t.phase ≡ done) ⊎ (now < t.at + cooldown)

-- Time does not run backwards, and the chain answers within a cooldown.
pub data Step (cfg : Config) (c : ℕ) (sys : System) : System → Type 0 where
  arrives :
      (to ip : Text) (now : ℕ)
      → sys.clock ≤ now
      → All (IsPrompt c now) sys.tickets
      → Step cfg c sys (arrive cfg sys to ip now)
  balances :
      (i : ℕ) (t : Ticket) (balance : Option ℕ) (now : ℕ)
      → sys.clock ≤ now
      → All (IsPrompt c now) sys.tickets
      → get_elem? sys.tickets i ≡ some t
      → t.phase ≡ checking
      → Step cfg c sys (balance_known cfg sys i t balance now)
  settles :
      (i : ℕ) (t : Ticket) (sent : Sent) (now : ℕ)
      → sys.clock ≤ now
      → All (IsPrompt c now) sys.tickets
      → get_elem? sys.tickets i ≡ some t
      → t.phase ≡ sending
      → Step cfg c sys (sent_known sys i t sent now)

pub data Reach (cfg : Config) (c : ℕ) (start : System) : System → Type 0 where
  here : Reach cfg c start start
  later : {s t : System} → Reach cfg c start s → Step cfg c s t → Reach cfg c start t
