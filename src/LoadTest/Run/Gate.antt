-- ===== src/LoadTest/Run/Gate.antt =====
-- endurance/scripts/run.js: what becomes of a request, from its broadcast to the outcome of its transaction.
-- The effect of a transaction on the workload waits under its hash until the collector resolves it.
use gemba_blockchain.Base.{
  Bool, List, Map, Option, Text, [], codes, erase, false, if◌then◌else◌, insert, lookup, none, some,
  text_eq, true, ℕ, ◌++◌, ◌==◌, ◌∷◌,
}
use gemba_blockchain.LoadTest.Nonces.{NonceManager, settle_one}
use gemba_blockchain.LoadTest.Metrics.{Metrics, on_submit, on_submit_fail, on_soft}
use gemba_blockchain.LoadTest.Send.{SendStatus, sent_ok, soft, dropped, threw}

module _ {ℓ} (C : Type ℓ) where
  -- `_apply` and `_onResolve` of a request.
  pub record Effects : Type ℓ where
    pub apply : Option (C → C)
    pub on_resolve : Option (Bool → C → C)

  -- The workload's state, `ctx.pendingByHash`, and the parts that `fireOne` reports to.
  pub record Gate : Type ℓ where
    pub ctx : C
    pub pending : Map Text Effects
    pub metrics : Metrics
    pub nonces : NonceManager
    pub tracked : List Text

  abbrev pub has_effects : Effects → Bool
  has_effects e = elim e.apply [
    | some f ↦ true
    | none ↦ elim e.on_resolve [ some g ↦ true | none ↦ false ]
  ]

  -- The part of `fireOne` behind `sendRaw`, for a request of type `type`. `free_permit` is
  -- `permitInFlight[address] = false`, which is done for a permit; the read of its nonce comes later.
  unfoldable pub on_broadcast :
      (C → C) → Gate → Text → Text → Text → Effects → SendStatus → ℕ → Gate
  on_broadcast free_permit g address type hash effects status now =
      let freed : C = if type == codes "permit" then free_permit g.ctx else g.ctx in
      let kept : Map Text Effects =
        if has_effects effects then insert hash effects g.pending else g.pending in
      let submitted : Metrics = on_submit g.metrics type now in
      elim status [
        | sent_ok ↦ record g {
          metrics = submitted;
          pending = kept;
          tracked = g.tracked ++ hash ∷ [];
        }
        | soft msg ↦ record g {
          metrics = on_soft submitted msg;
          pending = kept;
          tracked = g.tracked ++ hash ∷ [];
        }
        | dropped msg ↦ record g {
          metrics = on_soft g.metrics msg;
          nonces = settle_one g.nonces address;
          ctx = freed;
        }
        | threw msg ↦ record g {
          metrics = on_submit_fail g.metrics msg;
          nonces = settle_one g.nonces address;
          ctx = freed;
        }
      ]

  -- `onResolve` of the collector.
  unfoldable pub on_resolved : Gate → Text → Bool → Gate
  on_resolved g hash ok = elim (lookup hash g.pending) [
    | none ↦ g
    | some e ↦
        let told : C = elim e.on_resolve [ none ↦ g.ctx | some f ↦ f ok g.ctx ] in
        let applied : C = elim e.apply [ none ↦ told | some f ↦ f told ] in
        record g { pending = erase hash g.pending; ctx = if ok then applied else told }
  ]
