-- ===== src/LoadTest/Collector/Sweep.antt =====
-- What a round of the sweep does to each transaction in flight.
use gemba_blockchain.Base.{
  ==_iff, Bool-cases, Distinct, List, Map, Option, Option-cases, Text, [], ap, arith, inl, inr,
  length, lookup, none, refl, some, subst, sym, text_eq, ℕ, ◌++◌, ◌+◌, ◌<◌, ◌==◌, ◌∙◌, ◌∷◌, ◌≡◌,
}
use gemba_blockchain.LoadTest.Collector.{Meta, Collector, sweep_meta, sweep_entries, sweep_inflight}

-- What a round makes of the entry that it finds.
abbrev pub swept : ℕ → ℕ → Option Meta → Option Meta
swept timeout now none = none
swept timeout now (some m) = sweep_meta timeout now m

pub lookup-sweep_entries :
    (k : Text) (c : Collector) (now : ℕ) (m : Map Text Meta)
    → Distinct m
    → lookup k (sweep_entries c now m).inflight ≡ swept c.timeout_ms now (lookup k m)
unfolding sweep_entries lookup
lookup-sweep_entries k c now [] d = refl
lookup-sweep_entries k c now ((j, x) ∷ m) (fresh, d) =
    elim (Option-cases (sweep_meta c.timeout_ms now x)) [
      | inl lost ↦ elim (Bool-cases (j == k)) [
        | inl same_key ↦
            let e = (==_iff j k).0 same_key in
            rw (lost, sweep_entries, same_key)
              (lookup-sweep_entries k c now m d
                ∙ ap (swept c.timeout_ms now) (subst (λ i. lookup i m ≡ none) e fresh)
                ∙ sym lost)
        | inr other ↦ rw (lost, sweep_entries, other) (lookup-sweep_entries k c now m d)
      ]
      | inr (y, stays) ↦ elim (Bool-cases (j == k)) [
        | inl same_key ↦ rw (stays, sweep_entries, same_key) (sym stays)
        | inr other ↦ rw (stays, sweep_entries, other) (lookup-sweep_entries k c now m d)
      ]
    ]

pub sweep_entries-Distinct :
    (c : Collector) (now : ℕ) (m : Map Text Meta)
    → Distinct m
    → Distinct (sweep_entries c now m).inflight
unfolding sweep_entries
sweep_entries-Distinct c now [] d = tt
sweep_entries-Distinct c now ((j, x) ∷ m) (fresh, d) =
    elim (Option-cases (sweep_meta c.timeout_ms now x)) [
      | inl lost ↦ rw (lost, sweep_entries) (sweep_entries-Distinct c now m d)
      | inr (y, stays) ↦
          rw (stays, sweep_entries)
            (
              lookup-sweep_entries j c now m d ∙ ap (swept c.timeout_ms now) fresh,
              sweep_entries-Distinct c now m d,
            )
    ]

pub sweep_entries-counts :
    (c : Collector) (now : ℕ) (m : Map Text Meta)
    → let d = sweep_entries c now m in
      (length d.inflight + d.timed_out ≡ length m + c.timed_out)
      × (length d.settled + c.timed_out ≡ length c.settled + d.timed_out)
      × (d.mined ≡ c.mined)
      × (d.timeout_ms ≡ c.timeout_ms)
unfolding sweep_entries
sweep_entries-counts c now [] = (omega arith, omega arith, refl, refl)
sweep_entries-counts c now ((j, x) ∷ m) =
    let (p, q, r, t) = sweep_entries-counts c now m in
    elim (Option-cases (sweep_meta c.timeout_ms now x)) [
      | inl lost ↦ rw (lost, sweep_entries) (omega (arith, p), omega (arith, q), r, t)
      | inr (y, stays) ↦ rw (stays, sweep_entries) (omega (arith, p), q, r, t)
    ]

pub length-append : {A : Type 0} (xs ys : List A) → length (xs ++ ys) ≡ length xs + length ys
length-append [] ys = omega arith
length-append (x ∷ xs) ys = omega (arith, length-append xs ys)

sweep_inflight-timeout_ms :
    (c : Collector) (now : ℕ) → (sweep_inflight c now).timeout_ms ≡ c.timeout_ms
unfolding sweep_inflight
sweep_inflight-timeout_ms c now =
    (sweep_entries-counts (record c { settled = [] }) now c.inflight).3

lookup-sweep_inflight :
    (k : Text) (c : Collector) (now : ℕ)
    → Distinct c.inflight
    → lookup k (sweep_inflight c now).inflight ≡ swept c.timeout_ms now (lookup k c.inflight)
unfolding sweep_inflight
lookup-sweep_inflight k c now d =
    lookup-sweep_entries k (record c { settled = [] }) now c.inflight d

swept_twice :
    (timeout now later : ℕ) (m : Meta)
    → m.deadline < now
    → now + timeout < later
    → swept timeout later (swept timeout now (some m)) ≡ none
unfolding sweep_meta
swept_twice timeout now later m p q = ground arith

-- A transaction that is past its deadline is in flight no longer after a round of the sweep and one
-- more that comes later than a timeout after it.
pub sweep_inflight_gives_up :
    (c : Collector) (hash : Text) (m : Meta) (now later : ℕ)
    → Distinct c.inflight
    → lookup hash c.inflight ≡ some m
    → m.deadline < now
    → now + c.timeout_ms < later
    → lookup hash (sweep_inflight (sweep_inflight c now) later).inflight ≡ none
unfolding sweep_inflight
sweep_inflight_gives_up c hash m now later d e p q =
    let c1 = sweep_inflight c now in
    let d1 : Distinct c1.inflight =
      sweep_entries-Distinct (record c { settled = [] }) now c.inflight d in
    lookup-sweep_inflight hash c1 later d1
    ∙ (λ i. swept (sweep_inflight-timeout_ms c now i) later (lookup-sweep_inflight hash c now d i))
    ∙ ap (λ o. swept c.timeout_ms later (swept c.timeout_ms now o)) e
    ∙ swept_twice c.timeout_ms now later m p q
