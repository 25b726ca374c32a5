-- ===== src/Purchase/System/Once.antt =====
-- However webhooks interleave, an order is dispensed at most once.
use gemba_blockchain.Base.{
  ==_iff, Bool, Bool-cases, List, Map, Option, Text, [], ap, arith, false, if◌then◌else◌, inl, inr,
  keep, lookup, lookup-insert, ltb, none, not, refl, some, subst, suc, text_eq, true, ℕ, ◌&&◌, ◌+◌,
  ◌<◌, ◌==◌, ◌∷◌, ◌≡◌, ◌≤◌,
}
use gemba_blockchain.Strings.{trim}
use gemba_blockchain.Purchase.{
  price_of, Floats, Calls, PurchaseConfig, Order, OrderStatus, pending, fulfilled, Store, create,
  has_id,
}
use gemba_blockchain.Purchase.Webhook.{Webhook, Reception, receive, fulfil, on_dispensed}
use gemba_blockchain.Purchase.Laws.{IsDue, Handled, receive-Handled}
use gemba_blockchain.Purchase.System.{
  Shop, without, began, returned, received, ordered, ShopStep, buys, notifies, returns, ShopReach,
  opens, continues,
}

unfoldable pub count : Text → List Text → ℕ
count id [] = 0
count id (i ∷ ids) = let rest = count id ids in if i == id then suc rest else rest

count-without :
    (id j : Text) (ids : List Text)
    → has_id id ids ≡ true
    → count j ids ≡ (if id == j then suc (count j (without id ids)) else count j (without id ids))
unfolding count without
count-without id j [] h = cc
count-without id j (i ∷ ids) h =
    ground (arith, count-without id j ids, ==_iff i id, ==_iff i j, ==_iff id j)

has_id-kept :
    (id j : Text) (ids : List Text)
    → has_id j (keep (λ i. not (i == id)) ids) ≡ (if id == j then false else has_id j ids)
unfolding keep
has_id-kept id j [] = ground arith
has_id-kept id j (i ∷ ids) =
    ground (arith, has_id-kept id j ids, ==_iff i id, ==_iff i j, ==_iff id j)

abbrev pub phase_of : OrderStatus → ℕ
phase_of pending = 1
phase_of (fulfilled hash) = 2

phase_of_pos : (x : OrderStatus) → 0 < phase_of x
phase_of_pos pending = omega arith
phase_of_pos (fulfilled hash) = omega arith

module _ {N : Type 0} where
  -- 0 for an order that is not there, 1 for a pending one, 2 for a fulfilled one.
  unfoldable pub phase : Option (Order N) → ℕ
  phase none = 0
  phase (some o) = phase_of o.order_status

  phase-fulfil :
      (id j hash : Text) (m : Map Text (Order N))
      → phase (lookup j (fulfil id hash m))
        ≡ (if id == j && ltb 0 (phase (lookup j m)) then 2 else phase (lookup j m))
  unfolding phase lookup fulfil
  phase-fulfil id j hash [] = ground arith
  phase-fulfil id j hash ((k, o) ∷ m) = ground (
    arith,
    phase-fulfil id j hash m,
    phase_of_pos o.order_status,
    ==_iff k id,
    ==_iff k j,
    ==_iff id j,
  )

  -- What holds of an order in every state of the shop.
  pub record Inv (s : Shop N) (id : Text) : Type 0 where
    pub once : count id s.running + count id s.paid ≤ 1
    pub idle : has_id id s.store.inflight ≡ false → count id s.running ≡ 0
    pub absent : phase (lookup id s.store.orders) ≡ 0 → count id s.running + count id s.paid ≡ 0
    pub unpaid : phase (lookup id s.store.orders) ≡ 1 → count id s.paid ≡ 0

  returned-Inv :
      (s : Shop N) (id : Text) (hash : Option Text) (saved : Bool) (j : Text)
      → has_id id s.running ≡ true
      → Inv s j
      → Inv (returned s id hash saved) j
  unfolding returned on_dispensed count
  returned-Inv s id none saved j h v = record {
    once = ground (arith, v.once, count-without id j s.running h);
    idle = λ e.
        ground (
          arith,
          v.once,
          v.idle,
          count-without id j s.running h,
          has_id-kept id j s.store.inflight,
        );
    absent = λ e. ground (arith, v.absent, count-without id j s.running h);
    unpaid = v.unpaid;
  }
  returned-Inv s id (some hash) saved j h v =
      let p = phase-fulfil id j hash s.store.orders in
      record {
        once = ground (arith, v.once, count-without id j s.running h);
        idle = λ e. ground (
          arith,
          v.once,
          v.idle,
          count-without id j s.running h,
          has_id-kept id j s.store.inflight,
        );
        absent = λ e. ground (arith, v.absent, p, count-without id j s.running h);
        unpaid = λ e. ground (arith, v.absent, v.unpaid, p, count-without id j s.running h);
      }

module _ {N : Type 0} (js : Floats N) (calls : Calls N) (cfg : PurchaseConfig N) where
  ordered-Inv :
      (s : Shop N) (address : Text) (gmb : N) (id j : Text)
      → lookup id s.store.orders ≡ none
      → Inv s j
      → Inv (ordered js calls cfg s address gmb id) j
  unfolding ordered create phase
  ordered-Inv s address gmb id j h v =
      let new : Order N = record {
        evm_address = trim address;
        gmb_amount = gmb;
        eur = price_of js calls cfg gmb;
        order_status = pending;
      } in
      let q = lookup-insert id j new s.store.orders in
      elim (Bool-cases (calls.is_address (trim address))) [
        | inr bad ↦ rw (bad, create) v
        | inl good ↦ elim (Bool-cases (js.le cfg.min_gmb gmb && js.le gmb cfg.max_gmb)) [
          | inr outside ↦ rw (good, outside, create) v
          | inl inside ↦
              rw (good, inside, create)
                (record {
                  once = v.once;
                  idle = v.idle;
                  absent = λ e. ground (arith, v.absent, q);
                  unpaid = λ e. ground (arith, v.absent, v.unpaid, q, ==_iff id j);
                })
        ]
      ]

  received-Inv : (s : Shop N) (w : Webhook) (j : Text) → Inv s j → Inv (received js calls cfg s w) j
  unfolding received count phase
  received-Inv s w j v =
      by_cases (receive js calls cfg s.store w) (receive-Handled js calls cfg s.store w)
    where
      by_cases :
          (r : Store N × Reception N)
          → Handled js calls cfg s.store w r
          → Inv (record s { store = r.0; running = began r.1 s.running }) j
      by_cases r (inl (reply, e)) = rw e v
      by_cases r (inr (b, id, o, due, e)) = rw e (begun id o due)
        where
          begun :
              (id : Text) (o : Order N)
              → IsDue js calls cfg s.store w b id o
              → Inv
                  (record s {
                    store = record s.store { inflight = id ∷ s.store.inflight };
                    running = id ∷ s.running;
                  })
                  j
          begun id o due =
              let pend : phase (lookup id s.store.orders) ≡ 1 =
                rw (due.known, phase) (ap phase_of due.unpaid) in
              elim (Bool-cases (id == j)) [
                | inr other ↦ record {
                  once = ground (arith, v.once, other);
                  idle = λ e. ground (arith, v.idle, other);
                  absent = λ e. ground (arith, v.absent, other);
                  unpaid = v.unpaid;
                }
                | inl same ↦
                    let is_j = (==_iff id j).0 same in
                    let running_none : count j s.running ≡ 0 =
                      v.idle (subst (λ x. has_id x s.store.inflight ≡ false) is_j due.idle) in
                    let pend_j : phase (lookup j s.store.orders) ≡ 1 =
                      subst (λ x. phase (lookup x s.store.orders) ≡ 1) is_j pend in
                    let paid_none : count j s.paid ≡ 0 = v.unpaid pend_j in
                    record {
                      once = ground (arith, running_none, paid_none);
                      idle = λ e. ground (arith, same);
                      absent = λ e. absurd (omega (arith, pend_j));
                      unpaid = v.unpaid;
                    }
              ]

  step-Inv : {s t : Shop N} → ShopStep js calls cfg s t → (j : Text) → Inv s j → Inv t j
  step-Inv {s} (buys address gmb id fresh) j v = ordered-Inv s address gmb id j fresh v
  step-Inv {s} (notifies w) j v = received-Inv s w j v
  step-Inv {s} (returns id hash saved h) j v = returned-Inv s id hash saved j h v

  reach-Inv : {s t : Shop N} → ShopReach js calls cfg s t → (j : Text) → Inv s j → Inv t j
  reach-Inv opens j v = v
  reach-Inv (continues r st) j v = step-Inv st j (reach-Inv r j v)

  -- The shop when the service starts: nothing runs, and nothing was paid by this process.
  abbrev pub Opens : Shop N → Type 0
  Opens s = (s.running ≡ []) × (s.paid ≡ [])

  -- In every state that the service can reach from its start, whatever orders come in, however
  -- webhooks are repeated or overlap, and whatever the chain and the disk answer, the dispensings
  -- of an order that run and those that have returned a receipt are together at most one, if the
  -- random id of a new order is in no order.
  pub dispensed_at_most_once :
      {start s : Shop N} (id : Text)
      → Opens start
      → ShopReach js calls cfg start s
      → count id s.running + count id s.paid ≤ 1
  unfolding count
  dispensed_at_most_once {start} id (e, f) r =
      (reach-Inv r id (
        rw (e, f)
          (record {
            once = ground arith;
            idle = λ q. refl;
            absent = λ q. ground arith;
            unpaid = λ q. refl;
          }))).once
