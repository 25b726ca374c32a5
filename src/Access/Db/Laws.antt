-- ===== src/Access/Db/Laws.antt =====
-- Lemmas on the rows of one tenant.
use gemba_blockchain.Base.{
  List, Text, [], any, arith, false, keep, none, not, refl, some, text_eq, true, ◌==◌, ◌∷◌, ◌≡◌,
}
use gemba_blockchain.Access.Db.{Employee, is_own, find_own}

-- `find_own` reads only the rows of the tenant.
pub find_own-keep :
    (tenant id : Text) (es : List Employee)
    → find_own tenant id es ≡ find_own tenant id (keep (λ e. e.tenant_id == tenant) es)
unfolding find_own keep
find_own-keep tenant id [] = refl
find_own-keep tenant id (e ∷ es) = ground (arith, find_own-keep tenant id es)

pub find_own-any :
    (tenant id : Text) (es : List Employee) {e : Employee}
    → find_own tenant id es ≡ some e
    → any (is_own tenant id) es ≡ true
unfolding find_own
find_own-any tenant id [] h = cc
find_own-any tenant id (x ∷ es) {e} h = ground (arith, find_own-any tenant id es {e = e})

pub find_own-any_id :
    (tenant id : Text) (es : List Employee) {e : Employee}
    → find_own tenant id es ≡ some e
    → any (λ x. x.id == id) es ≡ true
unfolding find_own
find_own-any_id tenant id [] h = cc
find_own-any_id tenant id (x ∷ es) {e} h = ground (arith, find_own-any_id tenant id es {e = e})

pub find_own-kept_none :
    (tenant id : Text) (es : List Employee)
    → find_own tenant id (keep (λ e. not (is_own tenant id e)) es) ≡ none
unfolding find_own keep
find_own-kept_none tenant id [] = refl
find_own-kept_none tenant id (e ∷ es) = ground (arith, find_own-kept_none tenant id es)

pub any-false_of_find_own-none :
    (tenant id : Text) (es : List Employee)
    → any (is_own tenant id) es ≡ false
    → find_own tenant id es ≡ none
unfolding find_own
any-false_of_find_own-none tenant id [] h = refl
any-false_of_find_own-none tenant id (e ∷ es) h =
    ground (arith, any-false_of_find_own-none tenant id es)
