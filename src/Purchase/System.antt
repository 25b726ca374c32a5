-- ===== src/Purchase/System.antt =====
-- services/purchase-backend/src/server.js under concurrent webhooks: a step is the code of one handler
-- between two awaits.
pub mod Once
use gemba_blockchain.Base.{
  Bool, List, Option, Text, [], if◌then◌else◌, lookup, none, some, text_eq, true, ◌==◌, ◌∷◌, ◌≡◌,
}
use gemba_blockchain.Purchase.{Floats, Calls, PurchaseConfig, Store, create, has_id}
use gemba_blockchain.Purchase.Webhook.{
  Webhook, Reception, answers, dispenses, receive, on_dispensed,
}

-- The orders whose `dispenseGmb` runs, and those for which one has returned.
pub record Shop (N : Type 0) : Type 0 where
  pub store : Store N
  pub running : List Text
  pub paid : List Text

unfoldable pub without : Text → List Text → List Text
without id [] = []
without id (i ∷ ids) = let rest = without id ids in if i == id then ids else i ∷ rest

module _ {N : Type 0} where
  abbrev pub began : Reception N → List Text → List Text
  began (answers r) running = running
  began (dispenses id to amount) running = id ∷ running

  unfoldable pub returned : Shop N → Text → Option Text → Bool → Shop N
  returned s id hash saved = record {
    store = (on_dispensed s.store id hash saved).0;
    running = without id s.running;
    paid = elim hash [ none ↦ s.paid | some h ↦ id ∷ s.paid ];
  }

module _ {N : Type 0} (js : Floats N) (calls : Calls N) (cfg : PurchaseConfig N) where
  unfoldable pub received : Shop N → Webhook → Shop N
  received s w =
      let r = receive js calls cfg s.store w in
      record s { store = r.0; running = began r.1 s.running }

  unfoldable pub ordered : Shop N → Text → N → Text → Shop N
  ordered s address gmb id = record s { store = (create js calls cfg s.store address gmb id).0 }

  -- The random id of a new order is in no order.
  pub data ShopStep (s : Shop N) : Shop N → Type 0 where
    buys :
        (address : Text) (gmb : N) (id : Text)
        → lookup id s.store.orders ≡ none
        → ShopStep s (ordered s address gmb id)
    notifies : (w : Webhook) → ShopStep s (received s w)
    returns :
        (id : Text) (hash : Option Text) (saved : Bool)
        → has_id id s.running ≡ true
        → ShopStep s (returned s id hash saved)

  pub data ShopReach (s : Shop N) : Shop N → Type 0 where
    opens : ShopReach s s
    continues : {t u : Shop N} → ShopReach s t → ShopStep t u → ShopReach s u
