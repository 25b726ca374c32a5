-- ===== src/Base/Maps.antt =====
-- JavaScript's `Map` (and objects used as maps) as association lists in insertion order.
use mathlib.Core.Path.{◌≡◌, refl}
use mathlib.Core.Bool.{Bool, true, false}
use mathlib.Core.List.{List, [], ◌∷◌}
use mathlib.Core.Option.{Option, none, some}
use native.Mathlib.Omega.{arith}
use gemba_blockchain.Base.Tests.{Equality, ◌==◌, if◌then◌else◌, ==_refl}

abbrev pub Map {ℓ κ} : Type ℓ → Type κ → Type (ℓ ⊔ κ)
Map K V = List (K × V)

-- What a filter keeps of an entry.
abbrev pub kept {κ} : {V : Type κ} → (V → Bool) → Option V → Option V
kept p none = none
kept p (some v) = if p v then some v else none

module _ {ℓ κ} {K : Type ℓ} {V : Type κ} ⦃e : Equality K⦄ where
  -- `map.get(k)`.
  unfoldable pub lookup : K → Map K V → Option V
  lookup key [] = none
  lookup key ((j, found) ∷ rest) = if j == key then some found else lookup key rest

  -- `map.has(k)`.
  unfoldable pub contains : K → Map K V → Bool
  contains k [] = false
  contains k ((j, v) ∷ m) = if j == k then true else contains k m

  -- `map.set(k, v)`: a key that is there keeps its place.
  unfoldable pub insert : K → V → Map K V → Map K V
  insert k v [] = (k, v) ∷ []
  insert k v ((j, w) ∷ m) = if j == k then (j, v) ∷ m else (j, w) ∷ insert k v m

  -- `map.delete(k)`.
  unfoldable pub erase : K → Map K V → Map K V
  erase k [] = []
  erase k ((j, w) ∷ m) = if j == k then erase k m else (j, w) ∷ erase k m

  -- `for (const [k, v] of map) if (!p(v)) map.delete(k)`.
  unfoldable pub filter_map : (V → Bool) → Map K V → Map K V
  filter_map p [] = []
  filter_map p ((j, w) ∷ m) = if p w then (j, w) ∷ filter_map p m else filter_map p m

  pub lookup-insert :
      (key other : K) (new : V) (entries : Map K V)
      → lookup other (insert key new entries)
        ≡ (if key == other then some new else lookup other entries)
  unfolding lookup insert
  lookup-insert key other new [] = refl
  lookup-insert key other new ((i, old) ∷ entries) = ground (
    arith,
    e.equates_iff key other,
    e.equates_iff i key,
    e.equates_iff i other,
    lookup-insert key other new entries,
  )

  pub lookup-insert_self : (k : K) (v : V) (m : Map K V) → lookup k (insert k v m) ≡ some v
  lookup-insert_self k v m = ground (arith, lookup-insert k k v m, ==_refl k)

  pub lookup-erase :
      (k j : K) (m : Map K V) → lookup j (erase k m) ≡ (if k == j then none else lookup j m)
  unfolding lookup erase
  lookup-erase k j [] = ground arith
  lookup-erase k j ((i, w) ∷ m) =
      ground (arith, e.equates_iff k j, e.equates_iff i k, e.equates_iff i j, lookup-erase k j m)

  -- No key stands twice.
  abbrev pub Distinct : Map K V → Type κ
  Distinct [] = Unit
  Distinct ((j, w) ∷ m) = (lookup j m ≡ none) × Distinct m

  pub Distinct-insert : (k : K) (v : V) (m : Map K V) → Distinct m → Distinct (insert k v m)
  unfolding insert lookup
  Distinct-insert k v [] d = (refl, tt)
  Distinct-insert k v ((i, w) ∷ m) d = ground (
    arith,
    e.equates_iff i k,
    e.equates_iff k i,
    lookup-insert k i v m,
    Distinct-insert k v m d.1,
  )

  pub Distinct-erase : (k : K) (m : Map K V) → Distinct m → Distinct (erase k m)
  unfolding erase
  Distinct-erase k [] d = tt
  Distinct-erase k ((i, w) ∷ m) d = ground (arith, lookup-erase k i m, Distinct-erase k m d.1)

  lookup-filter_map-none :
      (p : V → Bool) (k : K) (m : Map K V) → lookup k m ≡ none → lookup k (filter_map p m) ≡ none
  unfolding lookup filter_map
  lookup-filter_map-none p k [] h = refl
  lookup-filter_map-none p k ((i, w) ∷ m) h = ground (arith, lookup-filter_map-none p k m)

  pub Distinct-filter_map : (p : V → Bool) (m : Map K V) → Distinct m → Distinct (filter_map p m)
  unfolding filter_map
  Distinct-filter_map p [] d = tt
  Distinct-filter_map p ((i, w) ∷ m) d =
      ground (arith, lookup-filter_map-none p i m, Distinct-filter_map p m d.1)

  pub lookup-filter_map :
      (p : V → Bool) (k : K) (m : Map K V)
      → Distinct m
      → lookup k (filter_map p m) ≡ kept p (lookup k m)
  unfolding lookup filter_map
  lookup-filter_map p k [] d = refl
  lookup-filter_map p k ((i, w) ∷ m) d =
      ground (arith, e.equates_iff i k, lookup-filter_map p k m d.1, lookup-filter_map-none p k m)

pub ruleset maps = (lookup-insert, lookup-erase, lookup-insert_self)
