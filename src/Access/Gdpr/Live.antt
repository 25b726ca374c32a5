-- ===== src/Access/Gdpr/Live.antt =====
-- services/access-control/src/db.js: what `getEmployeeCapabilities` lists, described by the rows.
use gemba_blockchain.Base.{
  ==_false-ne, ==_iff, Bool-cases, List, Text, [], false, inl, inr, refl, some, subst, sym, text_eq,
  true, ℕ, ◌==◌, ◌∷◌, ◌≡◌, ◌≢◌,
}
use gemba_blockchain.Access.Db.{Employee, Capability, find_own, join_wallets}

-- The zones of the capabilities of the tenant for the employee that are not revoked, in order, each with the
-- employee's wallet.
pub data IsLive (tenant id wallet : Text) : List Capability → List (ℕ × Text) → Type 0 where
  none_left : IsLive tenant id wallet [] []
  live :
      {c : Capability} {cs : List Capability} {zs : List (ℕ × Text)}
      → c.tenant_id ≡ tenant
      → c.employee_id ≡ id
      → c.revoked ≡ false
      → IsLive tenant id wallet cs zs
      → IsLive tenant id wallet (c ∷ cs) ((c.zone, wallet) ∷ zs)
  foreign :
      {c : Capability} {cs : List Capability} {zs : List (ℕ × Text)}
      → c.tenant_id ≢ tenant
      → IsLive tenant id wallet cs zs
      → IsLive tenant id wallet (c ∷ cs) zs
  of_another :
      {c : Capability} {cs : List Capability} {zs : List (ℕ × Text)}
      → c.employee_id ≢ id
      → IsLive tenant id wallet cs zs
      → IsLive tenant id wallet (c ∷ cs) zs
  revoked_before :
      {c : Capability} {cs : List Capability} {zs : List (ℕ × Text)}
      → c.revoked ≡ true
      → IsLive tenant id wallet cs zs
      → IsLive tenant id wallet (c ∷ cs) zs

pub join_wallets-IsLive :
    (tenant id : Text) (es : List Employee) (e : Employee) (cs : List Capability)
    → find_own tenant id es ≡ some e
    → IsLive tenant id e.wallet cs (join_wallets tenant id es cs)
unfolding join_wallets
join_wallets-IsLive tenant id es e [] own = none_left
join_wallets-IsLive tenant id es e (c ∷ cs) own =
    let rest = join_wallets-IsLive tenant id es e cs own in
    elim (Bool-cases (c.tenant_id == tenant)) [
      | inr other ↦ rw (other, join_wallets) (foreign (==_false-ne _ _ other) rest)
      | inl mine ↦ elim (Bool-cases (c.employee_id == id)) [
        | inr other ↦ rw (mine, other, join_wallets) (of_another (==_false-ne _ _ other) rest)
        | inl named ↦ elim (Bool-cases c.revoked) [
          | inl gone ↦
              let step : join_wallets tenant id es (c ∷ cs) ≡ join_wallets tenant id es cs =
                rw (mine, named, gone, join_wallets) refl in
              subst (IsLive tenant id e.wallet (c ∷ cs)) (sym step) (revoked_before gone rest)
          | inr valid ↦
              let step : join_wallets tenant id es (c ∷ cs)
                  ≡ (c.zone, e.wallet) ∷ join_wallets tenant id es cs =
                rw (mine, named, valid, own, join_wallets) refl in
              subst (IsLive tenant id e.wallet (c ∷ cs)) (sym step) (
                live ((==_iff c.tenant_id tenant).0 mine) ((==_iff c.employee_id id).0 named) valid
                  rest)
        ]
      ]
    ]
