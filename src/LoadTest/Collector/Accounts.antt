-- ===== src/LoadTest/Collector/Accounts.antt =====
-- endurance/lib/receiptCollector.js: counts of what is in flight and of the calls of `onSettle`, by wallet, by hash
-- and by outcome.
use mathlib.Core.Option.{some-injective}
use gemba_blockchain.Base.{
  ==_iff, Bool, Bool-cases, Distinct, List, Map, Option, Option-cases, Text, [], ap, arith, erase,
  if◌then◌else◌, inl, inr, insert, kept, lookup, none, refl, some, subst, text_eq, ℕ, ◌++◌, ◌+◌,
  ◌==◌, ◌∷◌, ◌≡◌, ◌≤◌,
}
use gemba_blockchain.LoadTest.Collector.{Meta, Collector, sweep_meta, sweep_entries}
use gemba_blockchain.LoadTest.Collector.Sweep.{swept, lookup-sweep_entries}

abbrev pub one_if : Bool → ℕ
one_if b = if b then 1 else 0

-- The transactions of a wallet that are in flight.
unfoldable pub flying : Text → Map Text Meta → ℕ
flying w [] = 0
flying w ((hash, m) ∷ rest) = one_if (m.from == w) + flying w rest

-- The calls of `onSettle` for a wallet, and those that say that it was mined.
unfoldable pub calls : Text → List (Text × Bool) → ℕ
calls w [] = 0
calls w ((from, mined) ∷ rest) = one_if (from == w) + calls w rest

unfoldable pub successes : List (Text × Bool) → ℕ
successes [] = 0
successes ((from, mined) ∷ rest) = one_if mined + successes rest

unfoldable pub occurrences : Text → List Text → ℕ
occurrences h [] = 0
occurrences h (x ∷ xs) = one_if (x == h) + occurrences h xs

-- Whether the hash is in flight.
abbrev pub is_held : Option Meta → ℕ
is_held o = elim o [ none ↦ 0 | some m ↦ 1 ]

pub calls-append :
    (w : Text) (xs ys : List (Text × Bool)) → calls w (xs ++ ys) ≡ calls w xs + calls w ys
unfolding calls
calls-append w [] ys = omega arith
calls-append w (x ∷ xs) ys = omega (arith, calls-append w xs ys)

pub successes-append :
    (xs ys : List (Text × Bool)) → successes (xs ++ ys) ≡ successes xs + successes ys
unfolding successes
successes-append [] ys = omega arith
successes-append (x ∷ xs) ys = omega (arith, successes-append xs ys)

pub occurrences-append :
    (h : Text) (xs ys : List Text) → occurrences h (xs ++ ys) ≡ occurrences h xs + occurrences h ys
unfolding occurrences
occurrences-append h [] ys = omega arith
occurrences-append h (x ∷ xs) ys = omega (arith, occurrences-append h xs ys)

pub flying-insert_new :
    (w k : Text) (v : Meta) (m : Map Text Meta)
    → lookup k m ≡ none
    → flying w (insert k v m) ≡ flying w m + one_if (v.from == w)
unfolding flying insert lookup
flying-insert_new w k v [] h = omega arith
flying-insert_new w k v ((j, x) ∷ m) h = ground (arith, flying-insert_new w k v m)

flying-erase_absent :
    (w k : Text) (m : Map Text Meta) → lookup k m ≡ none → flying w (erase k m) ≡ flying w m
unfolding flying erase lookup
flying-erase_absent w k [] h = refl
flying-erase_absent w k ((j, x) ∷ m) h = ground (arith, flying-erase_absent w k m)

pub flying-erase :
    (w k : Text) (v : Meta) (m : Map Text Meta)
    → Distinct m
    → lookup k m ≡ some v
    → flying w (erase k m) + one_if (v.from == w) ≡ flying w m
unfolding flying erase lookup
flying-erase w k v [] d h = cc
flying-erase w k v ((j, x) ∷ m) (fresh, d) h = elim (Bool-cases (j == k)) [
  | inl same ↦
      let e = (==_iff j k).0 same in
      let absent : lookup k m ≡ none = subst (λ i. lookup i m ≡ none) e fresh in
      let found : x ≡ v = some-injective x v (ground (arith, h, same)) in
      let from : one_if (x.from == w) ≡ one_if (v.from == w) =
        ap (λ y. one_if (y.from == w)) found in
      ground (arith, same, from, flying-erase_absent w k m absent)
  | inr other ↦
      let later : lookup k m ≡ some v = ground (arith, h, other) in
      ground (arith, other, flying-erase w k v m d later)
]

sweep_meta-from :
    (timeout now : ℕ) (m kept : Meta) → sweep_meta timeout now m ≡ some kept → kept.from ≡ m.from
unfolding sweep_meta
sweep_meta-from timeout now m kept h = ground (arith, h)

-- A round of the sweep settles what it takes out of flight, wallet by wallet, and none of it as mined.
pub sweep_entries-flying :
    (w : Text) (c : Collector) (now : ℕ) (m : Map Text Meta)
    → let d = sweep_entries c now m in
      (flying w d.inflight + calls w d.settled ≡ flying w m + calls w c.settled)
      × (successes d.settled ≡ successes c.settled)
      × (d.receipt_queue ≡ c.receipt_queue)
unfolding sweep_entries flying calls successes
sweep_entries-flying w c now [] = (refl, refl, refl)
sweep_entries-flying w c now ((j, x) ∷ m) =
    let (p, q, r) = sweep_entries-flying w c now m in
    elim (Option-cases (sweep_meta c.timeout_ms now x)) [
      | inl lost ↦ rw (lost, sweep_entries) (omega (arith, p), omega (arith, q), r)
      | inr (y, stays) ↦
          let from : one_if (y.from == w) ≡ one_if (x.from == w) =
            ap (λ f. one_if (f == w)) (sweep_meta-from c.timeout_ms now x y stays) in
          rw (stays, sweep_entries) (omega (arith, p, from), q, r)
    ]

-- No hash comes into flight by a sweep.
pub sweep_entries-held :
    (h : Text) (c : Collector) (now : ℕ) (m : Map Text Meta)
    → Distinct m
    → is_held (lookup h (sweep_entries c now m).inflight) ≤ is_held (lookup h m)
sweep_entries-held h c now m d =
    let found = ap is_held (lookup-sweep_entries h c now m d) in
    elim (Option-cases (lookup h m)) [
      | inl absent ↦
          rw absent (omega (arith, found, ap (λ o. is_held (swept c.timeout_ms now o)) absent))
      | inr (x, flies) ↦ rw flies (held-most _)
    ]
  where
    held-most : (o : Option Meta) → is_held o ≤ 1
    held-most none = omega arith
    held-most (some y) = omega arith
