-- ===== src/Purchase.antt =====
-- services/purchase-backend/src/server.js: the orders, and `POST /create`. The number type of JavaScript,
-- ethers, node:crypto and JSON.parse are parameters.
pub mod Webhook
pub mod Laws
pub mod System
mod Tests
use gemba_blockchain.Base.{
  Bool, List, Map, Option, Text, [], all, any, codes, eqb, false, if◌then◌else◌, insert, leb,
  length, lookup, ltb, map, none, not, some, text_eq, true, ℕ, ◌&&◌, ◌-◌, ◌==◌, ◌||◌, ◌∷◌,
}
use gemba_blockchain.Strings.{trim}

-- IEEE doubles: comparisons, arithmetic, `Math.round`, `Math.abs`, `Number.isFinite`.
pub record Floats (N : Type 0) : Type 0 where
  pub le : N → N → Bool
  pub lt : N → N → Bool
  pub mul : N → N → N
  pub sub : N → N → N
  pub div : N → N → N
  pub round : N → N
  pub abs : N → N
  pub is_finite : N → Bool
  pub whole : ℕ → N
  pub one_hundredth : N

-- A number of the body: left out, `null`, or what `Number` makes of it.
pub data Field (N : Type 0) : Type 0 where
  missing : Field N
  null_value : Field N
  given : N → Field N

pub record Payment (N : Type 0) : Type 0 where
  pub order_id : Option Text
  pub currency : Option Text
  pub amount : Field N

-- The parsed body of a webhook; an empty text is falsy.
pub record Body (N : Type 0) : Type 0 where
  pub event : Option Text
  pub payment : Payment N
  pub currency : Option Text
  pub amount : Field N

-- The code that the service calls: `createHmac('sha256', secret).update(raw).digest('hex')`,
-- `isAddress`, `JSON.parse`, and whether every object inherits a property of the name.
pub record Calls (N : Type 0) : Type 0 where
  pub hmac_hex : Text → Text → Text
  pub is_address : Text → Bool
  pub parse : Text → Option (Body N)
  pub is_inherited : Text → Bool

pub record PurchaseConfig (N : Type 0) : Type 0 where
  pub whsec : Text
  pub price_per_gmb_eur : N
  pub min_gmb : N
  pub max_gmb : N

pub data OrderStatus : Type 0 where
  pending : OrderStatus
  fulfilled : Text → OrderStatus

pub record Order (N : Type 0) : Type 0 where
  pub evm_address : Text
  pub gmb_amount : N
  pub eur : N
  pub order_status : OrderStatus

-- `orders` and `inflight`.
pub record Store (N : Type 0) : Type 0 where
  pub orders : Map Text (Order N)
  pub inflight : List Text

pub data PurchaseReply : Type 0 where
  invalid_evm_address invalid_amount gateway_error create_failed : PurchaseReply
  created : Text → PurchaseReply
  bad_signature ignored unknown already currency_mismatch amount_mismatch : PurchaseReply
  webhook_done webhook_failed : PurchaseReply

unfoldable pub reply_status : PurchaseReply → ℕ
reply_status invalid_evm_address = 400
reply_status invalid_amount = 400
reply_status gateway_error = 502
reply_status create_failed = 500
reply_status (created _) = 200
reply_status bad_signature = 401
reply_status ignored = 200
reply_status unknown = 200
reply_status already = 200
reply_status currency_mismatch = 400
reply_status amount_mismatch = 400
reply_status webhook_done = 200
reply_status webhook_failed = 500

-- `orders[id]`: an own property, one that every object inherits, or none.
pub data Found (N : Type 0) : Type 0 where
  own : Order N → Found N
  inherited : Found N
  nothing : Found N

pub data Signature : Type 0 where
  authentic forged unequal_buffers : Signature

-- `Buffer.from(sig)` is longer than the text where a character is not ASCII, and
-- `timingSafeEqual` throws on buffers of different lengths.
unfoldable pub check_signature : Text → Text → Signature
check_signature sig expected =
    if eqb (length sig) (length expected)
    then if all (λ c. ltb c 128) sig
      then if sig == expected then authentic else forged
      else unequal_buffers
    else forged

-- `a || b`, and `''` behind both.
abbrev pub first_text : Option Text → Option Text → Text
first_text (some (c ∷ s)) b = c ∷ s
first_text _ (some b) = b
first_text _ none = []

abbrev pub upper : ℕ → ℕ
upper c = if leb b'a' c && leb c b'z' then c - 32 else c

abbrev pub eur_code : Text
eur_code = codes "EUR"

abbrev pub has_id : Text → List Text → Bool
has_id id ids = any (λ i. i == id) ids

module _ {N : Type 0} (js : Floats N) (calls : Calls N) (cfg : PurchaseConfig N) where
  -- `Math.round(gmb * cfg.pricePerGmbEur * 100) / 100`
  unfoldable pub price_of : N → N
  price_of gmb =
      js.div (js.round (js.mul (js.mul gmb cfg.price_per_gmb_eur) (js.whole 100))) (js.whole 100)

  -- `POST /create` up to the request to the gateway: the order stands in the store before it.
  unfoldable pub create : Store N → Text → N → Text → Store N × Option PurchaseReply
  unfolding price_of
  create s evm_address gmb order_id =
      let address = trim evm_address in
      if calls.is_address address
      then if js.le cfg.min_gmb gmb && js.le gmb cfg.max_gmb
        then (
          record s {
            orders =
                insert order_id
                  (record {
                    evm_address = address;
                    gmb_amount = gmb;
                    eur = price_of gmb;
                    order_status = pending;
                  })
                  s.orders;
          },
          none,
        )
        else (s, some invalid_amount)
      else (s, some invalid_evm_address)

  -- Behind the store: writing it or asking the gateway threw, the gateway refused, or it answered with
  -- a payment page or none.
  unfoldable pub on_gateway : Text → Option (Bool × Option Text) → PurchaseReply
  on_gateway order_id none = create_failed
  on_gateway order_id (some (false, page)) = gateway_error
  on_gateway order_id (some (true, page)) = created order_id

  unfoldable pub find_order : Store N → Text → Found N
  find_order s id = elim (lookup id s.orders) [
    | some o ↦ own o
    | none ↦ if calls.is_inherited id then inherited else nothing
  ]

  unfoldable pub paid_in_full : Field N → N → Bool
  paid_in_full missing eur = true
  paid_in_full null_value eur =
      not (js.is_finite (js.whole 0) && js.lt js.one_hundredth (js.abs (js.sub (js.whole 0) eur)))
  paid_in_full (given paid) eur =
      not (js.is_finite paid && js.lt js.one_hundredth (js.abs (js.sub paid eur)))

  -- `p.amount ?? body.amount`
  abbrev pub amount_of : Body N → Field N
  amount_of b = elim b.payment.amount [ given n ↦ given n | _ ↦ b.amount ]

  -- `paidCcy && paidCcy !== 'EUR'`, negated.
  abbrev pub is_in_eur : Body N → Bool
  is_in_eur b =
      let ccy = map upper (first_text b.payment.currency b.currency) in ccy == [] || ccy == eur_code
