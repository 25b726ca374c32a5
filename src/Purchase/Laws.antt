-- ===== src/Purchase/Laws.antt =====
-- The webhook handler: it dispenses only for an authentic, completed payment of a pending order.
use gemba_blockchain.Base.{
  ==_false-ne, ==_iff, ==_refl, All, Bool, Bool-cases, List, Option, Option-cases, Text, [], ap,
  arith, codes, false, inl, inr, keep, lookup, map, none, not, refl, some, subst, sym, text_eq,
  true, ◌&&◌, ◌==◌, ◌∙◌, ◌∷◌, ◌≡◌, ◌≢◌, ◌⊎◌,
}
use gemba_blockchain.Purchase.{
  Field, given, missing, null_value, upper, Floats, Calls, PurchaseConfig, Body, Order, OrderStatus,
  pending, fulfilled, Store, own, Signature, authentic, forged, unequal_buffers, check_signature,
  PurchaseReply, webhook_failed, find_order, first_text, amount_of, is_in_eur, paid_in_full, has_id,
}
use gemba_blockchain.Purchase.Webhook.{
  Webhook, Reception, answers, dispenses, order_key, begin_dispense, with_order, with_body, receive,
  on_dispensed,
}

-- A text that is not there or empty.
abbrev pub IsSilent : Option Text → Type 0
IsSilent o = (o ≡ none) ⊎ (o ≡ some [])

-- The first of two texts that says something, or the empty text.
pub data IsFirst (a b : Option Text) (t : Text) : Type 0 where
  first : a ≡ some t → t ≢ [] → IsFirst a b t
  second : IsSilent a → b ≡ some t → t ≢ [] → IsFirst a b t
  neither : IsSilent a → IsSilent b → t ≡ [] → IsFirst a b t

first_text-IsFirst : (a b : Option Text) → IsFirst a b (first_text a b)
first_text-IsFirst (some (c ∷ s)) b = first refl (λ e. cc)
first_text-IsFirst none (some (c ∷ s)) = second (inl refl) refl (λ e. cc)
first_text-IsFirst none (some []) = neither (inl refl) (inr refl) refl
first_text-IsFirst none none = neither (inl refl) (inl refl) refl
first_text-IsFirst (some []) (some (c ∷ s)) = second (inr refl) refl (λ e. cc)
first_text-IsFirst (some []) (some []) = neither (inr refl) (inr refl) refl
first_text-IsFirst (some []) none = neither (inr refl) (inl refl) refl

has_id-none : (id : Text) (ids : List Text) → has_id id ids ≡ false → All (λ i. i ≢ id) ids
has_id-none id [] h = tt
has_id-none id (i ∷ ids) h =
    (==_false-ne i id (ground (arith, h)), has_id-none id ids (ground (arith, h)))

module _ {N : Type 0} (js : Floats N) (calls : Calls N) (cfg : PurchaseConfig N) where
  -- An amount that is not finite passes, and a finite one is at most a hundredth off the price.
  abbrev pub IsNear : N → N → Type 0
  IsNear paid eur =
      (js.is_finite paid ≡ false) ⊎ (js.lt js.one_hundredth (js.abs (js.sub paid eur)) ≡ false)

  -- The amount that the payment states, or where it states none the body, is near the price, a `null` as 0.
  pub data IsPaid (b : Body N) (eur : N) : Type 0 where
    by_payment : (paid : N) → b.payment.amount ≡ given paid → IsNear paid eur → IsPaid b eur
    by_body :
        (paid : N)
        → ((other : N) → b.payment.amount ≢ given other)
        → b.amount ≡ given paid
        → IsNear paid eur
        → IsPaid b eur
    by_null :
        ((other : N) → b.payment.amount ≢ given other)
        → b.amount ≡ null_value
        → IsNear (js.whole 0) eur
        → IsPaid b eur
    unstated : ((other : N) → b.payment.amount ≢ given other) → b.amount ≡ missing → IsPaid b eur

  is_near :
      (paid eur : N)
      → not (js.is_finite paid && js.lt js.one_hundredth (js.abs (js.sub paid eur))) ≡ true
      → IsNear paid eur
  is_near paid eur h = elim (Bool-cases (js.is_finite paid)) [
    | inr endless ↦ inl endless
    | inl finite ↦ inr (ground (arith, h, finite))
  ]

  body-IsPaid :
      (b : Body N) (eur : N)
      → ((other : N) → b.payment.amount ≢ given other)
      → (y : Field N) → b.amount ≡ y
      → paid_in_full js calls cfg y eur ≡ true
      → IsPaid b eur
  unfolding paid_in_full
  body-IsPaid b eur silent (given paid) e h = by_body paid silent e (is_near paid eur h)
  body-IsPaid b eur silent null_value e h = by_null silent e (is_near (js.whole 0) eur h)
  body-IsPaid b eur silent missing e h = unstated silent e

  amount-IsPaid :
      (b : Body N) (eur : N)
      → (x : Field N) → b.payment.amount ≡ x
      → paid_in_full js calls cfg (elim x [ given n ↦ given n | _ ↦ b.amount ]) eur ≡ true
      → IsPaid b eur
  unfolding paid_in_full
  amount-IsPaid b eur (given paid) e h = by_payment paid e (is_near paid eur h)
  amount-IsPaid b eur missing e h =
      body-IsPaid b eur (λ q r. let clash : missing ≡ given q = sym e ∙ r in cc) b.amount refl h
  amount-IsPaid b eur null_value e h =
      body-IsPaid b eur (λ q r. let clash : null_value ≡ given q = sym e ∙ r in cc) b.amount refl h

  -- The conditions for a payment to be dispensed for the order.
  pub record IsDue (s : Store N) (w : Webhook) (b : Body N) (id : Text) (o : Order N) : Type 0 where
    pub signed : w.signature ≡ calls.hmac_hex cfg.whsec w.raw
    pub parsed : calls.parse w.raw ≡ some b
    pub completed : IsFirst b.event w.event_header (codes "payment.completed")
    pub named :
        (b.payment.order_id ≡ some id) ⊎ ((b.payment.order_id ≡ none) × (id ≡ codes "undefined"))
    pub known : lookup id s.orders ≡ some o
    pub unpaid : o.order_status ≡ pending
    pub idle : has_id id s.inflight ≡ false
    pub alone : All (λ i. i ≢ id) s.inflight
    pub in_eur :
        (currency : Text) × IsFirst b.payment.currency b.currency currency
        × ((map upper currency ≡ []) ⊎ (map upper currency ≡ codes "EUR"))
    pub in_full : IsPaid b o.eur

  -- What a call of the handler comes to.
  abbrev pub Handled : Store N → Webhook → Store N × Reception N → Type 0
  Handled s w r =
      ((reply : PurchaseReply) × (r ≡ (s, answers reply)))
      ⊎ ((b : Body N) × (id : Text) × (o : Order N) × IsDue s w b id o
          × (r
              ≡ (record s { inflight = id ∷ s.inflight }, dispenses id o.evm_address o.gmb_amount)))

  signature_sound :
      (sig expected : Text) → check_signature sig expected ≡ authentic → sig ≡ expected
  unfolding check_signature
  signature_sound sig expected h = ground (arith, ==_iff sig expected)

  order_key-named :
      (b : Body N) (o : Option Text)
      → b.payment.order_id ≡ o
      → (b.payment.order_id ≡ some (order_key js calls cfg b))
        ⊎ ((b.payment.order_id ≡ none) × (order_key js calls cfg b ≡ codes "undefined"))
  order_key-named b none e = inr (e, rw e refl)
  order_key-named b (some id) e = inl (e ∙ ap (λ k. some k) (sym (rw e refl)))

  eur_stated :
      (b : Body N)
      → is_in_eur js calls cfg b ≡ true
      → let currency = map upper (first_text b.payment.currency b.currency) in
        (currency ≡ []) ⊎ (currency ≡ codes "EUR")
  eur_stated b h =
      let currency = map upper (first_text b.payment.currency b.currency) in
      ground (arith, h, ==_iff currency [], ==_iff currency (codes "EUR"))

  order-Handled :
      (s : Store N) (w : Webhook) (b : Body N)
      → w.signature ≡ calls.hmac_hex cfg.whsec w.raw
      → calls.parse w.raw ≡ some b
      → first_text b.event w.event_header ≡ codes "payment.completed"
      → (o : Order N) → lookup (order_key js calls cfg b) s.orders ≡ some o
      → Handled s w (with_order js calls cfg s b (order_key js calls cfg b) (own o))
  unfolding with_order begin_dispense
  order-Handled s w b signed parsed completed o known = by_status o.order_status refl
    where
      id : Text
      id = order_key js calls cfg b

      due :
          o.order_status ≡ pending
          → (busy : Bool) → has_id id s.inflight ≡ busy
          → (eur : Bool) → is_in_eur js calls cfg b ≡ eur
          → (full : Bool) → paid_in_full js calls cfg (amount_of js calls cfg b) o.eur ≡ full
          → Handled s w (with_order js calls cfg s b id (own o))
      due p true q eur e full f = rw (p, q, with_order) (inl (_, refl))
      due p false q false e full f = rw (p, q, e, with_order, begin_dispense) (inl (_, refl))
      due p false q true e false f = rw (p, q, e, f, with_order, begin_dispense) (inl (_, refl))
      due p false q true e true f =
          rw (p, q, e, f, with_order, begin_dispense)
            (inr (
              b,
              id,
              o,
              record {
                signed = signed;
                parsed = parsed;
                completed =
                    subst (IsFirst b.event w.event_header) completed
                      (first_text-IsFirst b.event w.event_header);
                named = order_key-named b b.payment.order_id refl;
                known = known;
                unpaid = p;
                idle = q;
                alone = has_id-none (order_key js calls cfg b) s.inflight q;
                in_eur = (
                  first_text b.payment.currency b.currency,
                  first_text-IsFirst b.payment.currency b.currency,
                  eur_stated b e,
                );
                in_full = amount-IsPaid b o.eur b.payment.amount refl f;
              },
              refl,
            ))

      by_status :
          (x : OrderStatus)
          → o.order_status ≡ x
          → Handled s w (with_order js calls cfg s b id (own o))
      by_status (fulfilled hash) p = rw (p, with_order) (inl (_, refl))
      by_status pending p = due p _ refl _ refl _ refl

  body-Handled :
      (s : Store N) (w : Webhook) (b : Body N)
      → w.signature ≡ calls.hmac_hex cfg.whsec w.raw
      → calls.parse w.raw ≡ some b
      → Handled s w (with_body js calls cfg s w b)
  unfolding with_body find_order with_order
  body-Handled s w b signed parsed =
      elim (Bool-cases (first_text b.event w.event_header == codes "payment.completed")) [
        | inr other ↦ rw (other, with_body) (inl (_, refl))
        | inl completed ↦ elim (Option-cases (lookup (order_key js calls cfg b) s.orders)) [
          | inr (o, known) ↦
              rw (completed, with_body, known, find_order)
                (order-Handled s w b signed parsed
                  ((==_iff (first_text b.event w.event_header) (codes "payment.completed")).0
                    completed)
                  o known)
          | inl absent ↦ elim (Bool-cases (calls.is_inherited (order_key js calls cfg b))) [
            | inl proto ↦
                rw (completed, with_body, absent, find_order, proto, with_order) (inl (_, refl))
            | inr strange ↦
                rw (completed, with_body, absent, find_order, strange, with_order) (inl (_, refl))
          ]
        ]
      ]

  -- A webhook is either answered at once with the store unchanged, or it dispenses the stored
  -- amount to the stored address of a pending order that no other webhook is dispensing, and then
  -- it carries the signature of its body, is a completed payment of that order, names euro or no
  -- currency, and names no amount, one that is not finite, or one at most a hundredth off the
  -- price.
  pub receive-Handled : (s : Store N) (w : Webhook) → Handled s w (receive js calls cfg s w)
  unfolding receive
  receive-Handled s w =
      by_signature (check_signature w.signature (calls.hmac_hex cfg.whsec w.raw)) refl
    where
      by_signature :
          (x : Signature)
          → check_signature w.signature (calls.hmac_hex cfg.whsec w.raw) ≡ x
          → Handled s w (receive js calls cfg s w)
      by_signature forged e = rw (e, receive) (inl (_, refl))
      by_signature unequal_buffers e = rw (e, receive) (inl (_, refl))
      by_signature authentic e = elim (Option-cases (calls.parse w.raw)) [
        | inl garbled ↦ rw (e, garbled, receive) (inl (_, refl))
        | inr (b, parsed) ↦
            rw (e, parsed, receive) (body-Handled s w b (signature_sound _ _ e) parsed)
      ]

  abbrev id_of : Reception N → Text
  id_of (answers reply) = []
  id_of (dispenses id to amount) = id

  keep_others :
      (id : Text) (ids : List Text) → has_id id ids ≡ false → keep (λ i. not (i == id)) ids ≡ ids
  unfolding keep
  keep_others id [] h = refl
  keep_others id (i ∷ ids) h = ground (arith, keep_others id ids)

  -- A dispensing that fails leaves the store as it was before its webhook, if nothing else happened
  -- in between.
  pub receive_failed :
      (s s' : Store N) (w : Webhook) (id to : Text) (amount : N) (saved : Bool)
      → receive js calls cfg s w ≡ (s', dispenses id to amount)
      → on_dispensed s' id none saved ≡ (s, webhook_failed)
  unfolding on_dispensed keep
  receive_failed s s' w id to amount saved e =
      by_cases (receive js calls cfg s w) (receive-Handled s w) e
    where
      by_cases :
          (r : Store N × Reception N)
          → Handled s w r
          → r ≡ (s', dispenses id to amount)
          → on_dispensed s' id none saved ≡ (s, webhook_failed)
      by_cases r (inl (reply, q)) p = cc
      by_cases r (inr (b, i, o, due, q)) p =
          let left : record s { inflight = i ∷ s.inflight } ≡ s' = ap (λ x. x.0) (sym q ∙ p) in
          let same_id : i ≡ id = ap (λ x. id_of x.1) (sym q ∙ p) in
          let kept : keep (λ x. not (x == i)) (i ∷ s.inflight) ≡ s.inflight =
            ground (arith, ==_refl i, keep_others i s.inflight due.idle) in
          subst (λ j. on_dispensed s' j none saved ≡ (s, webhook_failed)) same_id
            (subst (λ t. on_dispensed t i none saved ≡ (s, webhook_failed)) left
              (λ k. (record s { inflight = kept k }, webhook_failed)))
