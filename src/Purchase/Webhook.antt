-- ===== src/Purchase/Webhook.antt =====
-- services/purchase-backend/src/server.js: `POST /webhook` and `GET /status/:orderId`. `receive` is the
-- webhook handler up to `await dispenseGmb`, `on_dispensed` the rest.
use gemba_blockchain.Base.{
  Bool, Map, Option, Text, [], codes, if◌then◌else◌, keep, none, not, some, text_eq, ◌==◌, ◌∷◌,
}
use gemba_blockchain.Purchase.{
  Floats, Body, Calls, PurchaseConfig, pending, fulfilled, Order, Store, PurchaseReply,
  bad_signature, ignored, unknown, already, currency_mismatch, amount_mismatch, webhook_done,
  webhook_failed, Found, own, inherited, nothing, authentic, forged, unequal_buffers,
  check_signature, first_text, has_id, find_order, paid_in_full, amount_of, is_in_eur,
}

-- What `receive` comes to: a reply, or a call `dispenseGmb(orderId, evmAddress, gmbAmount)`.
pub data Reception (N : Type 0) : Type 0 where
  answers : PurchaseReply → Reception N
  dispenses : Text → Text → N → Reception N

pub record Webhook : Type 0 where
  pub signature : Text
  pub event_header : Option Text
  pub raw : Text

module _ {N : Type 0} (js : Floats N) (calls : Calls N) (cfg : PurchaseConfig N) where
  -- The cross-checks of the payment, and the mark that keeps a second webhook out.
  unfoldable pub begin_dispense : Store N → Body N → Text → Order N → Store N × Reception N
  begin_dispense s b id o =
      if is_in_eur js calls cfg b
      then if paid_in_full js calls cfg (amount_of js calls cfg b) o.eur
        then (record s { inflight = id ∷ s.inflight }, dispenses id o.evm_address o.gmb_amount)
        else (s, answers amount_mismatch)
      else (s, answers currency_mismatch)

  unfoldable pub with_order : Store N → Body N → Text → Found N → Store N × Reception N
  with_order s b id nothing = (s, answers unknown)
  -- What every object inherits has no amount: `parseEther` throws.
  with_order s b id inherited =
      (s, answers (if is_in_eur js calls cfg b then webhook_failed else currency_mismatch))
  with_order s b id (own o) =
      let begun = begin_dispense s b id o in
      elim o.order_status [
        | fulfilled hash ↦ (s, answers already)
        | pending ↦ if has_id id s.inflight then (s, answers already) else begun
      ]

  -- A body that names no order is looked up under `undefined`.
  abbrev pub order_key : Body N → Text
  order_key b = elim b.payment.order_id [ none ↦ codes "undefined" | some id ↦ id ]

  unfoldable pub with_body : Store N → Webhook → Body N → Store N × Reception N
  with_body s w b =
      if first_text b.event w.event_header == codes "payment.completed"
      then with_order s b (order_key b) (find_order js calls cfg s (order_key b))
      else (s, answers ignored)

  unfoldable pub receive : Store N → Webhook → Store N × Reception N
  receive s w = elim (check_signature w.signature (calls.hmac_hex cfg.whsec w.raw)) [
    | forged ↦ (s, answers bad_signature)
    | unequal_buffers ↦ (s, answers webhook_failed)
    | authentic ↦ elim (calls.parse w.raw) [
      | none ↦ (s, answers webhook_failed)
      | some b ↦ with_body s w b
    ]
  ]

module _ {N : Type 0} where
  -- `o.status = 'fulfilled'; o.txHash = hash`: `o` is the object in `orders`.
  unfoldable pub fulfil : Text → Text → Map Text (Order N) → Map Text (Order N)
  fulfil id hash [] = []
  fulfil id hash ((k, o) ∷ m) =
      let rest = fulfil id hash m in
      if k == id then (k, record o { order_status = fulfilled hash }) ∷ m else (k, o) ∷ rest

  -- After `await dispenseGmb`; `none` where it throws, and `saved` says whether `save` returns.
  unfoldable pub on_dispensed : Store N → Text → Option Text → Bool → Store N × PurchaseReply
  on_dispensed s id none saved =
      (record s { inflight = keep (λ i. not (i == id)) s.inflight }, webhook_failed)
  on_dispensed s id (some hash) saved = (
    record s { orders = fulfil id hash s.orders; inflight = keep (λ i. not (i == id)) s.inflight },
    if saved then webhook_done else webhook_failed,
  )

pub data StatusReply (N : Type 0) : Type 0 where
  not_found : StatusReply N
  shows : Order N → StatusReply N
  shows_undefined : StatusReply N

-- `GET /status/:orderId`
unfoldable pub get_status : {N : Type 0} → Found N → StatusReply N
get_status nothing = not_found
get_status (own o) = shows o
get_status inherited = shows_undefined
