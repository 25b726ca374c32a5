-- ===== src/LoadTest/Workload/Permits.antt =====
-- endurance/config/workloads.js: the permits that an owner signs and a spender uses, and the vouchers.
-- The digests and signatures are ethers', as arguments; a signature stands for its three parts.
pub mod Laws
use gemba_blockchain.Base.{
  Bool, List, Map, Option, Text, [], codes, false, if◌then◌else◌, insert, lookup, ltb, none, some,
  text_eq, true, ℕ, ◌++◌, ◌+◌, ◌-◌, ◌^◌, ◌∷◌,
}
use gemba_blockchain.LoadTest.Workload.{Arg, num, addr, bytes, Tx, call, others, deadline, coin}

abbrev pub permit_value : ℕ
permit_value = 10 ^ 20

abbrev pub permit_xfer : ℕ
permit_xfer = 10 ^ 15

pub record Allowance : Type 0 where
  pub owner : Text
  pub remaining : ℕ

pub record Permits : Type 0 where
  pub permit_nonce : Map Text ℕ
  pub permit_in_flight : Map Text Bool
  pub permits_by_spender : Map Text (List Allowance)

abbrev pub in_flight : Permits → Text → Bool
in_flight c f = elim (lookup f c.permit_in_flight) [ none ↦ false | some b ↦ b ]

abbrev pub nonce_of : Permits → Text → ℕ
nonce_of c f = elim (lookup f c.permit_nonce) [ none ↦ 0 | some n ↦ n ]

-- What `build` of `permit` signs: owner, spender, value, nonce and deadline.
pub record PermitMessage : Type 0 where
  pub owner : Text
  pub spender : Text
  pub value : ℕ
  pub nonce : ℕ
  pub deadline : ℕ

abbrev pub permit_message : List Text → (ℕ → ℕ) → Permits → Text → PermitMessage
permit_message pool draws c f = record {
  owner = f;
  spender = others pool f draws;
  value = permit_value;
  nonce = nonce_of c f;
  deadline = deadline;
}

abbrev pub permit_tx : (PermitMessage → Text) → PermitMessage → Tx
permit_tx sign m =
    call (codes "permitToken") (codes "permit")
      (addr m.owner ∷ addr m.spender ∷ num m.value ∷ num m.deadline ∷ bytes (sign m) ∷ []) 0 110000

-- `permit`: nothing while one of the owner is in flight.
unfoldable pub build_permit :
    (PermitMessage → Text)
    → List Text
    → (ℕ → ℕ)
    → Permits
    → Text
    → Permits × Option (Tx × PermitMessage)
build_permit sign pool draws c f =
    let message = permit_message pool draws c f in
    let taken = record c {
      permit_nonce = insert f (message.nonce + 1) c.permit_nonce;
      permit_in_flight = insert f true c.permit_in_flight;
    } in
    if in_flight c f then (c, none) else (taken, some (permit_tx sign message, message))

-- `_apply` of a permit.
unfoldable pub apply_permit : Permits → PermitMessage → Permits
apply_permit c m =
    let q : List Allowance = elim (lookup m.spender c.permits_by_spender) [
      | none ↦ []
      | some q ↦ q
    ] in
    record c {
      permits_by_spender =
          insert m.spender (q ++ record { owner = m.owner; remaining = permit_value } ∷ [])
            c.permits_by_spender;
    }

-- `_onResolve`: the slot is free, and after a failure the nonce is read again.
unfoldable pub resolve_permit : Permits → Text → Permits
resolve_permit c f = record c { permit_in_flight = insert f false c.permit_in_flight }

-- `ctx.resyncPermitNonce`, with what `readNonce` returned: nothing where every provider failed.
unfoldable pub resync_permit_nonce : Permits → Text → Option ℕ → Permits
resync_permit_nonce c f none = c
resync_permit_nonce c f (some n) = record c {
  permit_nonce = insert f n c.permit_nonce;
  permit_in_flight = insert f false c.permit_in_flight;
}

-- `readNonce`: two passes over the providers, and the first answer.
unfoldable pub first_answer : List (Option ℕ) → Option ℕ
first_answer [] = none
first_answer (none ∷ rest) = first_answer rest
first_answer (some n ∷ rest) = some n

unfoldable pub read_nonce : List (Option ℕ) → List (Option ℕ) → Option ℕ
read_nonce first second = first_answer (first ++ second)

-- The start of the run for one wallet: an unknown nonce blocks its permits.
unfoldable pub init_permit_nonce : Permits → Text → Option ℕ → Permits
init_permit_nonce c f none = record c { permit_in_flight = insert f true c.permit_in_flight }
init_permit_nonce c f (some n) = record c { permit_nonce = insert f n c.permit_nonce }

-- `permitTransferFrom`: an allowance that is used up is dropped, without a transaction.
unfoldable pub build_permit_transfer_from : Permits → Text → Permits × Option Tx
build_permit_transfer_from c f = elim (lookup f c.permits_by_spender) [
  | none ↦ (c, none)
  | some queue ↦ elim queue [
    | [] ↦ (c, none)
    | e ∷ q ↦
        if ltb e.remaining permit_xfer
        then (record c { permits_by_spender = insert f q c.permits_by_spender }, none)
        else (
          record c {
            permits_by_spender =
                insert f (record e { remaining = e.remaining - permit_xfer } ∷ q)
                  c.permits_by_spender;
          },
          some (
              call (codes "permitToken") (codes "transferFrom")
                (addr e.owner ∷ addr f ∷ num permit_xfer ∷ []) 0 80000),
        )
  ]
]

-- `voucherRedeem`, with the signature of its recipient and id.
unfoldable pub build_voucher_redeem : (Text → ℕ → Text) → ℕ → Text → ℕ × Tx
build_voucher_redeem sign voucher_id f = (
  voucher_id + 1,
  call (codes "voucherMinter") (codes "redeem")
      (addr f ∷ num voucher_id ∷ num coin ∷ num deadline ∷ bytes (sign f voucher_id) ∷ []) 0 120000,
)
