-- ===== src/LoadTest/Collector/Laws.antt =====
-- Every transaction that is tracked is in flight, mined or timed out.
use gemba_blockchain.Base.{
  ==_iff, Bool, Bool-cases, Distinct, Distinct-erase, Distinct-insert, List, Map, Option-cases,
  Text, [], ap, arith, erase, false, inl, inr, insert, length, lookup, lookup-erase, lookup-insert,
  none, refl, some, sym, text_eq, true, ℕ, ◌++◌, ◌+◌, ◌==◌, ◌∙◌, ◌∷◌, ◌≡◌, ◌≤◌,
}
use gemba_blockchain.LoadTest.Collector.{
  Meta, Collector, track, mine_one, block, sweep_entries, sweep_inflight,
}
use gemba_blockchain.LoadTest.Collector.Accounts.{
  one_if, flying, calls, successes, occurrences, is_held, calls-append, successes-append,
  occurrences-append, flying-insert_new, flying-erase, sweep_entries-flying, sweep_entries-held,
}
use gemba_blockchain.LoadTest.Collector.Sweep.{
  sweep_entries-Distinct, sweep_entries-counts, length-append,
}

-- The steps of the collector, with the hashes and the wallets of the transactions that were tracked; a hash that is
-- tracked is not in flight.
pub data History (timeout : ℕ) : Collector → List (Text × Text) → Type 0 where
  begins :
      History timeout
        (record {
          timeout_ms = timeout;
          inflight = [];
          receipt_queue = [];
          mined = 0;
          timed_out = 0;
          rebroadcasts = 0;
          settled = [];
        })
        []
  tracks :
      {c : Collector} {n : List (Text × Text)} (hash from : Text) (submit_ms : ℕ) (signed : Bool)
      → History timeout c n
      → lookup hash c.inflight ≡ none
      → History timeout (track c hash from submit_ms signed) ((hash, from) ∷ n)
  scans :
      {c : Collector} {n : List (Text × Text)} (hashes : List Text)
      → History timeout c n
      → History timeout (block c hashes) n
  sweeps :
      {c : Collector} {n : List (Text × Text)} (now : ℕ)
      → History timeout c n
      → History timeout (sweep_inflight c now) n

unfoldable pub tracked_from : Text → List (Text × Text) → ℕ
tracked_from w [] = 0
tracked_from w ((hash, from) ∷ rest) = one_if (from == w) + tracked_from w rest

unfoldable pub tracked_as : Text → List (Text × Text) → ℕ
tracked_as h [] = 0
tracked_as h ((hash, from) ∷ rest) = one_if (hash == h) + tracked_as h rest

pub record IsAccounted (c : Collector) (tracked : List (Text × Text)) : Type 0 where
  pub distinct : Distinct c.inflight
  -- each is in flight, mined or timed out
  pub total : length c.inflight + c.mined + c.timed_out ≡ length tracked
  -- one call for each that is not in flight, with its outcome
  pub settles : length c.settled ≡ c.mined + c.timed_out
  pub outcomes : successes c.settled ≡ c.mined
  -- and for its wallet
  pub wallets : (w : Text) → flying w c.inflight + calls w c.settled ≡ tracked_from w tracked
  -- a hash is in flight or has its receipt asked for, no more often than it was tracked
  pub hashes :
      (h : Text)
      → is_held (lookup h c.inflight) + occurrences h c.receipt_queue ≤ tracked_as h tracked

length-insert_new :
    (k : Text) (v : Meta) (m : Map Text Meta)
    → lookup k m ≡ none
    → length (insert k v m) ≡ length m + 1
unfolding insert lookup
length-insert_new k v [] h = omega arith
length-insert_new k v ((j, w) ∷ m) h = ground (arith, length-insert_new k v m)

length-erase_absent :
    (k : Text) (m : Map Text Meta) → lookup k m ≡ none → length (erase k m) ≡ length m
unfolding erase lookup
length-erase_absent k [] h = refl
length-erase_absent k ((j, w) ∷ m) h = ground (arith, length-erase_absent k m)

length-erase :
    (k : Text) (v : Meta) (m : Map Text Meta)
    → Distinct m
    → lookup k m ≡ some v
    → length (erase k m) + 1 ≡ length m
unfolding erase lookup
length-erase k v [] d h = cc
length-erase k v ((j, w) ∷ m) (fresh, d) h =
    ground (arith, length-erase k v m d, length-erase_absent k m, fresh, ==_iff j k)

length-append_one : {A : Type 0} (xs : List A) (x : A) → length (xs ++ x ∷ []) ≡ length xs + 1
length-append_one [] x = omega arith
length-append_one (y ∷ xs) x = omega (arith, length-append_one xs x)

mined-hashes :
    (c : Collector) (hash : Text) (m : Meta) (h : Text) {k : ℕ}
    → lookup hash c.inflight ≡ some m
    → is_held (lookup h c.inflight) + occurrences h c.receipt_queue ≤ k
    → is_held (lookup h (erase hash c.inflight)) + occurrences h (c.receipt_queue ++ hash ∷ []) ≤ k
unfolding occurrences
mined-hashes c hash m h flying le =
    let joined = occurrences-append h c.receipt_queue (hash ∷ []) in
    let erased = lookup-erase hash h c.inflight in
    elim (Bool-cases (hash == h)) [
      | inl same ↦
          let own : is_held (lookup h c.inflight) ≡ 1 =
            ap (λ x. is_held (lookup x c.inflight)) (sym ((==_iff hash h).0 same))
            ∙ ap is_held flying in
          ground (arith, joined, erased, same, own, le)
      | inr other ↦ ground (arith, joined, erased, other, le)
    ]

mine_one-IsAccounted :
    (c : Collector) (n : List (Text × Text)) (hash : Text)
    → IsAccounted c n
    → IsAccounted (mine_one c hash) n
unfolding mine_one calls successes
mine_one-IsAccounted c n hash v = elim (Option-cases (lookup hash c.inflight)) [
  | inl strange ↦ rw (strange, mine_one) v
  | inr (m, flying) ↦
      rw (flying, mine_one)
        (record {
          distinct = Distinct-erase hash c.inflight v.distinct;
          total = omega (arith, v.total, length-erase hash m c.inflight v.distinct flying);
          settles = omega (arith, v.settles, length-append_one c.settled (m.from, true));
          outcomes = omega (arith, v.outcomes, successes-append c.settled ((m.from, true) ∷ []));
          wallets = λ w. omega (
            arith,
            v.wallets w,
            calls-append w c.settled ((m.from, true) ∷ []),
            flying-erase w hash m c.inflight v.distinct flying,
          );
          hashes = λ h. mined-hashes c hash m h flying (v.hashes h);
        })
]

block-IsAccounted :
    (hashes : List Text) (c : Collector) (n : List (Text × Text))
    → IsAccounted c n
    → IsAccounted (block c hashes) n
unfolding block
block-IsAccounted [] c n v = v
block-IsAccounted (hash ∷ hashes) c n v =
    block-IsAccounted hashes (mine_one c hash) n (mine_one-IsAccounted c n hash v)

sweep-IsAccounted :
    (c : Collector) (n : List (Text × Text)) (now : ℕ)
    → IsAccounted c n
    → IsAccounted (sweep_inflight c now) n
unfolding sweep_inflight calls successes
sweep-IsAccounted c n now v =
    let c' = record c { settled = [] } in
    let d = sweep_entries c' now c.inflight in
    let (p, q, r, t) = sweep_entries-counts c' now c.inflight in
    record {
      distinct = sweep_entries-Distinct c' now c.inflight v.distinct;
      total = omega (arith, p, r, v.total);
      settles = omega (arith, length-append c.settled d.settled, q, r, v.settles);
      outcomes = omega (
        arith,
        successes-append c.settled d.settled,
        (sweep_entries-flying [] c' now c.inflight).1,
        r,
        v.outcomes,
      );
      wallets = λ w. omega (
        arith,
        calls-append w c.settled d.settled,
        (sweep_entries-flying w c' now c.inflight).0,
        v.wallets w,
      );
      hashes = λ h. omega (
        arith,
        sweep_entries-held h c' now c.inflight v.distinct,
        ap (occurrences h) (sweep_entries-flying [] c' now c.inflight).2,
        v.hashes h,
      );
    }

tracked-hashes :
    (c : Collector) (hash : Text) (m : Meta) (h : Text) {k : ℕ}
    → is_held (lookup h c.inflight) + occurrences h c.receipt_queue ≤ k
    → is_held (lookup h (insert hash m c.inflight)) + occurrences h c.receipt_queue
      ≤ one_if (hash == h) + k
tracked-hashes c hash m h le = ground (arith, lookup-insert hash h m c.inflight, le)

track-IsAccounted :
    (c : Collector) (n : List (Text × Text)) (hash from : Text) (submit_ms : ℕ) (signed : Bool)
    → lookup hash c.inflight ≡ none
    → IsAccounted c n
    → IsAccounted (track c hash from submit_ms signed) ((hash, from) ∷ n)
unfolding track tracked_from tracked_as
track-IsAccounted c n hash from submit_ms signed new v =
    let m : Meta = record {
      from = from;
      submit_ms = submit_ms;
      deadline = submit_ms + c.timeout_ms;
      rebroadcast = false;
      signed = signed;
    } in
    record {
      distinct = Distinct-insert hash m c.inflight v.distinct;
      total = omega (arith, v.total, length-insert_new hash m c.inflight new);
      settles = v.settles;
      outcomes = v.outcomes;
      wallets = λ w. omega (arith, v.wallets w, flying-insert_new w hash m c.inflight new);
      hashes = λ h. tracked-hashes c hash m h (v.hashes h);
    }

-- At every time, if no hash is tracked while it is in flight, each transaction that was tracked is
-- in flight, was mined or timed out, and is counted once; `onSettle` was called once for each that
-- is not in flight, as often for each wallet as it has such transactions, and with success as often
-- as one was mined; and no hash is in flight or queued for its receipt more often than it was
-- tracked.
pub History-IsAccounted :
    (timeout : ℕ) (c : Collector) (n : List (Text × Text)) → History timeout c n → IsAccounted c n
unfolding flying calls successes tracked_from tracked_as occurrences lookup
History-IsAccounted timeout c n begins = record {
  distinct = tt;
  total = omega arith;
  settles = omega arith;
  outcomes = refl;
  wallets = λ w. refl;
  hashes = λ h. omega arith;
}
History-IsAccounted timeout c n (tracks {c = c'} {n = k} hash from submit_ms signed h new) =
    track-IsAccounted c' k hash from submit_ms signed new (History-IsAccounted timeout c' k h)
History-IsAccounted timeout c n (scans {c = c'} hashes h) =
    block-IsAccounted hashes c' n (History-IsAccounted timeout c' n h)
History-IsAccounted timeout c n (sweeps {c = c'} now h) =
    sweep-IsAccounted c' n now (History-IsAccounted timeout c' n h)
