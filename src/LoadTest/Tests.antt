-- ===== src/LoadTest/Tests.antt =====
-- The load generator at concrete wallets and answers.
use gemba_blockchain.Base.{
  All, Bool, List, Option, Text, [], arith, codes, eqb, false, inl, insert, lookup, max, none, not,
  range, refl, some, text_eq, true, ℕ, ◌*◌, ◌++◌, ◌+◌, ◌-◌, ◌<◌, ◌∷◌, ◌≡◌, ◌≤◌,
}
use gemba_blockchain.Strings.{includes, starts_with}
use gemba_blockchain.LoadTest.Nonces.{NonceManager, take_nonce}
use gemba_blockchain.LoadTest.Nonces.Laws.{
  NonceCall, takes, settles_one, resyncs, apply_all, take_nonce-increases,
}
use gemba_blockchain.LoadTest.Send.{
  is_benign, is_transient, Broadcast, refused, judge, broadcast_from, fire_one,
}
use gemba_blockchain.LoadTest.Send.Laws.{failed_send_leaves_gap}
use gemba_blockchain.LoadTest.Collector.{Meta, Collector, track, block, sweep_inflight}
use gemba_blockchain.LoadTest.Collector.Sweep.{sweep_inflight_gives_up}
use gemba_blockchain.LoadTest.Collector.Laws.{
  History, begins, tracks, scans, sweeps, IsAccounted, History-IsAccounted,
}
use gemba_blockchain.LoadTest.Rate.{RateLimiter, new_limiter, token, take_token, acquire}
use gemba_blockchain.LoadTest.Rate.Laws.{
  granted, total, tries, sets_rate, after, granted_within_capacity, take_token-returns,
}
use gemba_blockchain.LoadTest.Rate.Slots.{
  Sender, new_sender, SenderStep, asks, starts, goes, sends_within_slots,
}
use gemba_blockchain.LoadTest.Logger.{Dir, RunLogger}
use gemba_blockchain.LoadTest.Logger.Keeping.{Log, log_write, writes, log_writes, Keeps}
use gemba_blockchain.LoadTest.Logger.Laws.{writes-Keeps}
use gemba_blockchain.LoadTest.Receipts.{Workers, take_job}
use gemba_blockchain.LoadTest.Receipts.Laws.{
  takes_job, begins_at, runs_on, places_of, places_of-run,
}
use gemba_blockchain.LoadTest.Receipts.Blocks.{block_rounds, block_rounds-tile}
use gemba_blockchain.Strings.{to_lower, lower}
use gemba_blockchain.LoadTest.Reclaim.{may_run, Plan, Holder, same_address, pass_a, pass_d}
use gemba_blockchain.LoadTest.Reclaim.Laws.{IsApart, passes_spare_faucet}

abbrev wallet : Text
wallet = codes "w"

abbrev manager : NonceManager
manager = record { next = (wallet, 7) ∷ []; inflight = (wallet, 2) ∷ [] }

abbrev later_calls : List NonceCall
later_calls = resyncs wallet 7 ∷ settles_one wallet ∷ takes (codes "x") ∷ []

take_nonce-increases_example :
    (take_nonce manager wallet).1
    < (take_nonce (apply_all (take_nonce manager wallet).0 later_calls) wallet).1
take_nonce-increases_example = take_nonce-increases manager later_calls wallet

-- The provider refuses every attempt.
abbrev poor : ℕ → Broadcast
poor attempt = refused (codes "no funds")

failed_send_leaves_gap_example :
    let r = fire_one manager wallet poor none in
    (r.1 ≡ (take_nonce manager wallet).1)
    × (r.2 ≡ false)
    × (r.1 < (take_nonce (apply_all r.0 later_calls) wallet).1)
unfolding broadcast_from judge is_benign is_transient includes starts_with
failed_send_leaves_gap_example =
    failed_send_leaves_gap manager wallet poor none (codes "no funds") later_calls refl

abbrev empty_collector : Collector
empty_collector = record {
  timeout_ms = 50;
  inflight = [];
  receipt_queue = [];
  mined = 0;
  timed_out = 0;
  rebroadcasts = 0;
  settled = [];
}

-- Two transactions, a block with the first one, and two rounds of the sweep.
abbrev busy : Collector
busy = track (track empty_collector (codes "h1") wallet 10 true) (codes "h2") wallet 20 true

abbrev drained : Collector
drained = sweep_inflight (sweep_inflight (block busy (codes "h1" ∷ [])) 100) 200

abbrev two_tracked : List (Text × Text)
two_tracked = (codes "h2", wallet) ∷ (codes "h1", wallet) ∷ []

drained-History : History 50 drained two_tracked
unfolding track lookup insert
drained-History = sweeps 200 (
    sweeps 100 (
      scans (codes "h1" ∷ [])
        (tracks (codes "h2") wallet 20 true (tracks (codes "h1") wallet 10 true begins refl) refl)))

History-IsAccounted_example : IsAccounted drained two_tracked
History-IsAccounted_example = History-IsAccounted 50 drained two_tracked drained-History

abbrev late : Meta
late = record { from = wallet; submit_ms = 10; deadline = 60; rebroadcast = false; signed = true }

abbrev one_late : Collector
one_late = record empty_collector { inflight = (codes "h1", late) ∷ [] }

sweep_inflight_gives_up_example :
    lookup (codes "h1") (sweep_inflight (sweep_inflight one_late 100) 200).inflight ≡ none
unfolding lookup
sweep_inflight_gives_up_example =
    sweep_inflight_gives_up one_late (codes "h1") late 100 200 (refl, tt) refl (omega arith)
      (omega arith)

abbrev limiter : RateLimiter
limiter = record { tps = 4000; capacity = 4000000; tokens = 500000; last = 100 }

granted_within_capacity_example :
    let s = after (new_limiter 4000 100) 100 (tries 600 ∷ sets_rate 2000 ∷ tries 50 ∷ []) in
    granted s.0 s.1 (200 ∷ 10 ∷ 400 ∷ []) * token
    ≤ max token (s.0.tps * 1000) + total (200 ∷ 10 ∷ 400 ∷ []) * s.0.tps
granted_within_capacity_example =
    granted_within_capacity 4000 100 (tries 600 ∷ sets_rate 2000 ∷ tries 50 ∷ [])
      (200 ∷ 10 ∷ 400 ∷ [])

take_token-returns_example :
    (r : RateLimiter × ℕ) × (take_token 500001 (λ i. i) limiter 100 ≡ some r)
take_token-returns_example =
    take_token-returns (λ i. i) limiter 100 (refl, omega arith) (omega arith)

abbrev one_sender : Sender
one_sender = new_sender 1

abbrev sending_one : Sender
sending_one = record {
  slots = record { max_slots = 1; cur = 1; queue = [] };
  waiting = false;
  woken = false;
  sends = 1;
}

asked_one : SenderStep one_sender sending_one
unfolding acquire
asked_one = asks one_sender refl refl

sends_within_slots_example : (sending_one.sends ≤ 1) × (sending_one.slots.cur ≡ sending_one.sends)
sends_within_slots_example =
    sends_within_slots 1 sending_one
      (goes one_sender one_sender sending_one (starts one_sender) asked_one)

abbrev tx_log : Text
tx_log = codes "tx"

abbrev empty_dir : Dir
empty_dir = record { files = λ f. none }

abbrev fresh_logger : RunLogger
fresh_logger = record { dir = empty_dir; rotate_at = 2; streams = []; counts = []; seq = [] }

abbrev no_lines : Log
no_lines = record { current = []; archive = none }

abbrev six_writes : List (Text × Text)
six_writes =
    (tx_log, codes "a")
    ∷ (tx_log, codes "b")
    ∷ (codes "blocks", codes "c")
    ∷ (tx_log, codes "d")
    ∷ (tx_log, codes "e")
    ∷ (tx_log, codes "f")
    ∷ []

fresh-Keeps : Keeps fresh_logger tx_log no_lines
unfolding lookup
fresh-Keeps = ((refl, refl, λ i. refl, λ i. refl), inl (refl, refl))

writes-Keeps_example :
    Keeps (writes fresh_logger six_writes) tx_log (log_writes 2 tx_log no_lines six_writes)
writes-Keeps_example = writes-Keeps six_writes 2 fresh_logger tx_log no_lines refl fresh-Keeps

-- Five lines were written, and the first two are in no file.
log_writes_test :
    log_writes 2 tx_log no_lines six_writes
    ≡ record { current = codes "f" ∷ []; archive = some (codes "d" ∷ codes "e" ∷ []) }
unfolding log_writes log_write
log_writes_test = refl

abbrev mined_one : Workers
mined_one = record {
  receipt_queue = record { hash = codes "h"; tries = 0 } ∷ [];
  held = [];
  resolved = [];
  reverted = 0;
}

places_of-run_example : places_of (codes "h") (take_job mined_one) ≡ places_of (codes "h") mined_one
places_of-run_example =
    places_of-run (codes "h") mined_one (take_job mined_one)
      (runs_on mined_one mined_one (take_job mined_one) (begins_at mined_one) (takes_job mined_one))

abbrev two_rounds : List (Option ℕ × (ℕ → Bool))
two_rounds = (some 9, λ n. not (eqb n 9)) ∷ (none, λ n. true) ∷ (some 10, λ n. true) ∷ []

block_rounds-tile_example :
    let r = block_rounds 7 two_rounds in (7 ≤ r.1) × (r.0 ≡ range 8 (r.1 - 7))
block_rounds-tile_example = block_rounds-tile two_rounds 7 (omega arith)

abbrev plan : Plan
plan = record {
  founder = codes "0xF0";
  native_pool = codes "0x01";
  wgmb = codes "0x02";
  faucet = codes "0xFa";
  max_fee = 17;
  topup = 50000000;
  topup_min = 20000000;
}

-- An empty wallet with liquidity, and the faucet as a wallet in another case.
abbrev holders : List Holder
holders =
    record { index = some 0; address = codes "0x0a"; lp = 5; wgmb = 0; native = 0 }
    ∷ record { index = some 1; address = codes "0xfA"; lp = 5; wgmb = 0; native = 0 }
    ∷ []

abbrev workers : List (Text × ℕ)
workers = (codes "0x0a", 1000000) ∷ (codes "0xFA", 1000000) ∷ []

may_run-plan : may_run plan ≡ true
unfolding may_run same_address to_lower lower
may_run-plan = refl

passes_spare_faucet_example : All (IsApart plan) (pass_a plan 3 holders ++ pass_d plan workers)
passes_spare_faucet_example = passes_spare_faucet plan holders 3 workers may_run-plan
