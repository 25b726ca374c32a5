-- ===== src/LoadTest/Workload/Permits/Laws.antt =====
-- The nonces of the permits of an owner, and what a spender takes out of its allowances.
use gemba_blockchain.Base.{
  ==_iff, Bool-cases, List, Option-cases, Text, [], ap, arith, false, if◌then◌else◌, inl, inr,
  lookup, lookup-insert, lookup-insert_self, ltb, none, refl, some, subst, text_eq, true, ℕ, ◌+◌,
  ◌==◌, ◌∙◌, ◌∷◌, ◌≡◌,
}
use gemba_blockchain.LoadTest.Workload.{Tx}
use gemba_blockchain.LoadTest.Workload.Permits.{
  Permits, permit_xfer, in_flight, nonce_of, PermitMessage, permit_message, permit_tx, build_permit,
  apply_permit, resolve_permit, resync_permit_nonce, build_permit_transfer_from,
}

-- The wallets build permits and their outcomes come in, successful or not.
pub data PermitEvent : Type 0 where
  signs : Text → (ℕ → ℕ) → PermitEvent
  resolves : Text → PermitEvent
  confirms : PermitMessage → PermitEvent
  transfers : Text → PermitEvent

module _ (sign : PermitMessage → Text) (pool : List Text) where
  unfoldable pub after : Permits → PermitEvent → Permits
  after c (signs f draws) = (build_permit sign pool draws c f).0
  after c (resolves f) = resolve_permit c f
  after c (confirms m) = apply_permit c m
  after c (transfers f) = (build_permit_transfer_from c f).0

  -- The nonces that an owner signs.
  unfoldable pub nonces : Text → Permits → List PermitEvent → List ℕ
  nonces g c [] = []
  nonces g c (signs f draws ∷ es) =
      let rest = nonces g (after c (signs f draws)) es in
      elim (build_permit sign pool draws c f).1 [
        | none ↦ rest
        | some r ↦ if f == g then (r.1).nonce ∷ rest else rest
      ]
  nonces g c (resolves f ∷ es) = nonces g (after c (resolves f)) es
  nonces g c (confirms m ∷ es) = nonces g (after c (confirms m)) es
  nonces g c (transfers f ∷ es) = nonces g (after c (transfers f)) es

  -- `start, start + 1, …`
  unfoldable pub Consecutive : ℕ → List ℕ → Type 0
  Consecutive start [] = Unit
  Consecutive start (n ∷ ns) = (n ≡ start) × Consecutive (start + 1) ns

  build_permit-nonce :
      (c : Permits) (f g : Text) (draws : ℕ → ℕ)
      → in_flight c f ≡ false
      → nonce_of (build_permit sign pool draws c f).0 g
        ≡ (if f == g then nonce_of c f + 1 else nonce_of c g)
  unfolding build_permit
  build_permit-nonce c f g draws free =
      ground (arith, free, lookup-insert f g (nonce_of c f + 1) c.permit_nonce)

  build_permit-signed :
      (c : Permits) (f : Text) (draws : ℕ → ℕ)
      → in_flight c f ≡ false
      → (r : Tx × PermitMessage) × ((build_permit sign pool draws c f).1 ≡ some r)
        × ((r.1).nonce ≡ nonce_of c f)
  unfolding build_permit
  build_permit-signed c f draws free =
      let m = permit_message pool draws c f in
      ((permit_tx sign m, m), rw (free, build_permit) refl, refl)

  transfer-nonce :
      (c : Permits) (f g : Text) → nonce_of (build_permit_transfer_from c f).0 g ≡ nonce_of c g
  unfolding build_permit_transfer_from
  transfer-nonce c f g = elim (Option-cases (lookup f c.permits_by_spender)) [
    | inl absent ↦ rw (absent, build_permit_transfer_from) refl
    | inr ([], found) ↦ rw (found, build_permit_transfer_from) refl
    | inr (e ∷ q, found) ↦
        rw (found, build_permit_transfer_from)
          (ground (arith, Bool-cases (ltb e.remaining permit_xfer)))
  ]

  -- As long as no nonce is read again, the permits of an owner carry the nonces from its counter
  -- on, each one once and in order, whatever other wallets do.
  pub nonces-Consecutive :
      (es : List PermitEvent) (c : Permits) (g : Text) → Consecutive (nonce_of c g) (nonces g c es)
  unfolding nonces Consecutive after build_permit resolve_permit apply_permit
      build_permit_transfer_from
  nonces-Consecutive [] c g = tt
  nonces-Consecutive (signs f draws ∷ es) c g = elim (Bool-cases (in_flight c f)) [
    | inl busy ↦
        let same : (build_permit sign pool draws c f).0 ≡ c = rw (busy, build_permit) refl in
        let unsigned : (build_permit sign pool draws c f).1 ≡ none = rw (busy, build_permit) refl in
        let held = (build_permit sign pool draws c f).0 in
        rw (unsigned, nonces)
          (subst (λ n. Consecutive n (nonces g held es)) (ap (λ d. nonce_of d g) same)
            (nonces-Consecutive es held g))
    | inr free ↦
        let taken = (build_permit sign pool draws c f).0 in
        let rest = nonces-Consecutive es taken g in
        let counter = build_permit-nonce c f g draws free in
        let signed = build_permit-signed c f draws free in
        elim (Bool-cases (f == g)) [
          | inl same ↦
              let own : nonce_of c f ≡ nonce_of c g = ap (nonce_of c) ((==_iff f g).0 same) in
              let next : nonce_of taken g ≡ nonce_of c g + 1 = ground (arith, counter, same, own) in
              let tail : Consecutive (nonce_of c g + 1) (nonces g taken es) =
                subst (λ n. Consecutive n (nonces g taken es)) next rest in
              rw (signed.1, nonces) (rw (same, nonces) (signed.2 ∙ own, tail))
          | inr other ↦
              let stays : nonce_of taken g ≡ nonce_of c g = ground (arith, counter, other) in
              let tail : Consecutive (nonce_of c g) (nonces g taken es) =
                subst (λ n. Consecutive n (nonces g taken es)) stays rest in
              rw (signed.1, nonces) (rw (other, nonces) tail)
        ]
  ]
  nonces-Consecutive (resolves f ∷ es) c g = nonces-Consecutive es (resolve_permit c f) g
  nonces-Consecutive (confirms m ∷ es) c g = nonces-Consecutive es (apply_permit c m) g
  nonces-Consecutive (transfers f ∷ es) c g =
      let left = (build_permit_transfer_from c f).0 in
      subst (λ n. Consecutive n (nonces g left es)) (transfer-nonce c f g)
        (nonces-Consecutive es left g)

  -- While a permit of an owner is in flight it signs no other one, until its outcome.
  pub build_permit-blocked :
      (c : Permits) (f : Text) (draws : ℕ → ℕ)
      → let r = build_permit sign pool draws c f in in_flight r.0 f ≡ true
  unfolding build_permit
  build_permit-blocked c f draws = elim (Bool-cases (in_flight c f)) [
    | inl busy ↦ ground (arith, busy)
    | inr free ↦ ground (arith, free, lookup-insert_self f true c.permit_in_flight)
  ]

  -- A nonce that is read late frees the slot of a newer permit and takes its nonce back: when a permit
  -- was lost, the next one is signed before the nonce is read, and then another one, with the
  -- nonce of the first, while the second is still in flight.
  pub late_resync_frees_slot :
      (c : Permits) (f : Text) (draws draws' : ℕ → ℕ)
      → in_flight c f ≡ false
      → let lost = (build_permit sign pool draws c f).0 in
        let second = (build_permit sign pool draws' (resolve_permit lost f) f).0 in
        let late = resync_permit_nonce second f (some (nonce_of c f)) in
        (in_flight second f ≡ true) × (in_flight late f ≡ false) × (nonce_of late f ≡ nonce_of c f)
  unfolding resync_permit_nonce
  late_resync_frees_slot c f draws draws' free =
      let lost = (build_permit sign pool draws c f).0 in
      let second = (build_permit sign pool draws' (resolve_permit lost f) f).0 in
      (
        build_permit-blocked (resolve_permit lost f) f draws',
        ground (arith, lookup-insert_self f false second.permit_in_flight),
        ground (arith, lookup-insert_self f (nonce_of c f) second.permit_nonce),
      )
