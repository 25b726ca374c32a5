-- ===== src/Purchase/Tests.antt =====
-- The shop at concrete webhooks, with whole euros for numbers and the body itself for its digest.
use gemba_blockchain.Base.{
  [], codes, false, insert, leb, lookup, ltb, none, refl, some, text_eq, true, ℕ, ◌*◌, ◌+◌, ◌-◌,
  ◌/◌, ◌∷◌, ◌≡◌, ◌≤◌,
}
use gemba_blockchain.Strings.{trim, trim_start, trim_end, is_space}
use gemba_blockchain.Purchase.{
  Floats, given, missing, Body, Calls, PurchaseConfig, Order, pending, Store, create, price_of,
  check_signature, find_order, paid_in_full,
}
use gemba_blockchain.Purchase.Webhook.{
  Webhook, dispenses, receive, with_body, with_order, begin_dispense,
}
use gemba_blockchain.Purchase.Laws.{Handled, receive-Handled}
use gemba_blockchain.Purchase.System.{
  Shop, received, returned, ordered, ShopReach, opens, continues, buys, notifies, returns,
}
use gemba_blockchain.Purchase.System.Once.{count, dispensed_at_most_once}

abbrev euros : Floats ℕ
euros = record {
  le = leb;
  lt = ltb;
  mul = λ a b. a * b;
  sub = λ a b. a - b;
  div = λ a b. a / b;
  round = λ a. a;
  abs = λ a. a;
  is_finite = λ a. true;
  whole = λ a. a;
  one_hundredth = 0;
}

abbrev completed_body : Body ℕ
completed_body = record {
  event = some (codes "payment.completed");
  payment = record {
    order_id = some (codes "o1");
    currency = some (codes "eur");
    amount = given 20;
  };
  currency = none;
  amount = missing;
}

abbrev calls : Calls ℕ
calls = record {
  hmac_hex = λ secret raw. raw;
  is_address = λ a. true;
  parse = λ raw. some completed_body;
  is_inherited = λ name. false;
}

abbrev config : PurchaseConfig ℕ
config = record { whsec = codes "s"; price_per_gmb_eur = 1; min_gmb = 10; max_gmb = 100 }

abbrev webhook : Webhook
webhook = record { signature = codes "7b"; event_header = none; raw = codes "7b" }

abbrev waiting : Order ℕ
waiting = record { evm_address = codes "0xa"; gmb_amount = 20; eur = 20; order_status = pending }

abbrev one_order : Store ℕ
one_order = record { orders = (codes "o1", waiting) ∷ []; inflight = [] }

abbrev busy_order : Store ℕ
busy_order = record one_order { inflight = codes "o1" ∷ [] }

webhook_dispenses :
    receive euros calls config one_order webhook
    ≡ (busy_order, dispenses (codes "o1") (codes "0xa") 20)
unfolding receive check_signature with_body with_order find_order begin_dispense paid_in_full lookup
webhook_dispenses = refl

receive-Handled_example :
    Handled euros calls config one_order webhook (receive euros calls config one_order webhook)
receive-Handled_example = receive-Handled euros calls config one_order webhook

abbrev opening : Shop ℕ
opening = record { store = record { orders = []; inflight = [] }; running = []; paid = [] }

-- An order, its webhook twice, and the receipt.
abbrev bought : Shop ℕ
bought = ordered euros calls config opening (codes "0xa") 20 (codes "o1")

abbrev notified : Shop ℕ
notified = received euros calls config (received euros calls config bought webhook) webhook

abbrev closed : Shop ℕ
closed = returned notified (codes "o1") (some (codes "0xf")) true

one_sale : ShopReach euros calls config opening closed
unfolding ordered received create price_of receive check_signature with_body with_order find_order
    begin_dispense paid_in_full lookup insert trim trim_start trim_end is_space
one_sale =
    continues
      (continues
        (continues (continues opens (buys (codes "0xa") 20 (codes "o1") refl)) (notifies webhook))
        (notifies webhook))
      (returns (codes "o1") (some (codes "0xf")) true refl)

dispensed_at_most_once_example :
    count (codes "o1") closed.running + count (codes "o1") closed.paid ≤ 1
dispensed_at_most_once_example =
    dispensed_at_most_once euros calls config (codes "o1") (refl, refl) one_sale
