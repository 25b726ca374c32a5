-- ===== src/LoadTest/Workload/Queues/Laws.antt =====
-- A token is used no more often than it was minted, and how long the queues get.
use gemba_blockchain.Base.{
  ==_iff, Bool, Bool-cases, List, Map, Option, Text, [], ap, arith, drop, eqb, if◌then◌else◌, inl,
  inr, insert, length, length-append, length-drop-one, length-range, lookup-insert,
  lookup-insert_self, none, range, refl, some, suc, sym, text_eq, zero, ℕ, ◌&&◌, ◌++◌, ◌+◌, ◌-◌,
  ◌==◌, ◌∙◌, ◌∷◌, ◌≡◌, ◌≤◌, ◌⊎◌,
}
use gemba_blockchain.LoadTest.Workload.{Tx}
use gemba_blockchain.LoadTest.Workload.Reads.{first_number, names_id}
use gemba_blockchain.LoadTest.Workload.Queues.{
  qcap, cap, queue_of, push_capped, shift_queue, Mints, apply_mint, TokenUse, nft_transfer,
  mkt_list, royalty_list, create_english, create_dutch, use_of, build_use, Batches,
  apply_batch_mint,
}

abbrev one_if : Bool → ℕ
one_if b = if b then 1 else 0

unfoldable pub occurrences : ℕ → List ℕ → ℕ
occurrences id [] = 0
occurrences id (x ∷ xs) = one_if (eqb x id) + occurrences id xs

occurrences-append :
    (id : ℕ) (xs ys : List ℕ) → occurrences id (xs ++ ys) ≡ occurrences id xs + occurrences id ys
unfolding occurrences
occurrences-append id [] ys = omega arith
occurrences-append id (x ∷ xs) ys = omega (arith, occurrences-append id xs ys)

occurrences-drop : (id n : ℕ) (xs : List ℕ) → occurrences id (drop n xs) ≤ occurrences id xs
unfolding occurrences
occurrences-drop id zero xs = omega arith
occurrences-drop id (suc n) [] = omega arith
occurrences-drop id (suc n) (x ∷ xs) = omega (arith, occurrences-drop id n xs)

occurrences-cap : (id : ℕ) (xs : List ℕ) → occurrences id (cap xs) ≤ occurrences id xs
unfolding cap
occurrences-cap id xs = ground (arith, occurrences-drop id 1 xs)

-- A mint of the id by the wallet is mined, or a wallet uses the first token of its queue.
pub data TokenEvent : Type 0 where
  minted : Text → ℕ → TokenEvent
  uses : TokenUse → List Text → (ℕ → ℕ) → Text → TokenEvent

unfoldable pub after : Mints → TokenEvent → Mints
after c (minted f id) = apply_mint c f id
after c (uses u pool draws f) = (build_use u pool draws c f).0

-- Whether the event mints the id for the wallet, and whether it builds a use of the id by it.
unfoldable pub mints_it : Text → ℕ → TokenEvent → ℕ
mints_it g id (minted f j) = one_if (f == g && eqb j id)
mints_it g id (uses u pool draws f) = 0

abbrev used_id : Text → ℕ → Text → Option (Tx × ℕ) → ℕ
used_id g id f o = elim o [ none ↦ 0 | some r ↦ if f == g then names_id id r.0 else 0 ]

unfoldable pub uses_it : Text → ℕ → Mints → TokenEvent → ℕ
uses_it g id c (minted f j) = 0
uses_it g id c (uses u pool draws f) = used_id g id f (build_use u pool draws c f).1

unfoldable pub mints_all : Text → ℕ → List TokenEvent → ℕ
mints_all g id [] = 0
mints_all g id (e ∷ es) = mints_it g id e + mints_all g id es

unfoldable pub uses_all : Text → ℕ → Mints → List TokenEvent → ℕ
uses_all g id c [] = 0
uses_all g id c (e ∷ es) = uses_it g id c e + uses_all g id (after c e) es

List-cases : {A : Type 0} (xs : List A) → (xs ≡ []) ⊎ ((x : A) × (rest : List A) × (xs ≡ x ∷ rest))
List-cases [] = inl refl
List-cases (x ∷ rest) = inr (x, rest, refl)

queue-insert :
    {A : Type 0} (f g : Text) (q : List A) (m : Map Text (List A))
    → queue_of g (insert f q m) ≡ (if f == g then q else queue_of g m)
queue-insert f g q m = ground (arith, lookup-insert f g q m)

-- A use sends the id that it takes.
use_of-names_id :
    (u : TokenUse) (pool : List Text) (draws : ℕ → ℕ) (f : Text) (id j : ℕ)
    → names_id id (use_of u pool draws f j) ≡ one_if (eqb j id)
unfolding use_of names_id first_number
use_of-names_id nft_transfer pool draws f id j = refl
use_of-names_id mkt_list pool draws f id j = refl
use_of-names_id royalty_list pool draws f id j = refl
use_of-names_id create_english pool draws f id j = refl
use_of-names_id create_dutch pool draws f id j = refl

abbrev owned_of : Mints → Text → ℕ → ℕ
owned_of c g id = occurrences id (queue_of g c.owned)

after-balance :
    (c : Mints) (e : TokenEvent) (g : Text) (id : ℕ)
    → owned_of (after c e) g id + uses_it g id c e ≤ owned_of c g id + mints_it g id e
unfolding after uses_it mints_it apply_mint push_capped build_use shift_queue occurrences
after-balance c (minted f j) g id =
    let q = queue_of f c.owned in
    let joined = occurrences-append id q (j ∷ []) in
    let capped = occurrences-cap id (q ++ j ∷ []) in
    let inserted = queue-insert f g (cap (q ++ j ∷ [])) c.owned in
    elim (Bool-cases (f == g)) [
      | inl same ↦
          let own : q ≡ queue_of g c.owned = ap (λ w. queue_of w c.owned) ((==_iff f g).0 same) in
          ground (arith, inserted, same, joined, capped, own)
      | inr other ↦ ground (arith, inserted, other)
    ]
after-balance c (uses u pool draws f) g id = elim (List-cases (queue_of f c.owned)) [
  | inl empty ↦ rw (empty, uses_it, after, build_use, shift_queue) (omega arith)
  | inr (j, rest, found) ↦
      let inserted = queue-insert f g rest c.owned in
      elim (Bool-cases (f == g)) [
        | inl same ↦
            let own : queue_of f c.owned ≡ queue_of g c.owned =
              ap (λ w. queue_of w c.owned) ((==_iff f g).0 same) in
            let here : occurrences id (queue_of g c.owned)
                ≡ one_if (eqb j id) + occurrences id rest =
              ap (occurrences id) (sym own ∙ found) in
            rw (found, uses_it, after, build_use, shift_queue)
              (ground (arith, inserted, same, here, use_of-names_id u pool draws f id j))
        | inr other ↦
            rw (found, uses_it, after, build_use, shift_queue) (ground (arith, inserted, other))
      ]
]

-- A wallet uses a token, by a transfer, a listing or an auction that sends its id, no more often
-- than mints of it by the wallet were mined, beyond those that it had.
pub uses_within_mints :
    (es : List TokenEvent) (c : Mints) (g : Text) (id : ℕ)
    → uses_all g id c es ≤ owned_of c g id + mints_all g id es
unfolding uses_all mints_all
uses_within_mints [] c g id = omega arith
uses_within_mints (e ∷ es) c g id =
    omega (arith, after-balance c e g id, uses_within_mints es (after c e) g id)

-- A push keeps a queue at 300.
push_capped-bounded :
    {A : Type 0} (f : Text) (e : A) (m : Map Text (List A))
    → length (queue_of f m) ≤ qcap
    → length (queue_of f (push_capped f e m)) ≤ qcap
unfolding push_capped cap
push_capped-bounded f e m fits =
    let q = queue_of f m in
    let grown = q ++ e ∷ [] in
    let joined = length-append q (e ∷ []) in
    let inserted = lookup-insert_self f (cap grown) m in
    ground (arith, inserted, joined, fits, length-drop-one grown)

-- A batch mint that is mined takes a full queue past 300: of the tokens that it adds, only one makes
-- room.
pub batch_mint_exceeds_cap :
    (c : Batches) (f : Text) (start n : ℕ)
    → length (queue_of f c.batch_ids) ≡ qcap
    → 1 ≤ n
    → length (queue_of f (apply_batch_mint c f start n).batch_ids) ≡ qcap + n - 1
unfolding apply_batch_mint cap
batch_mint_exceeds_cap c f start n full some_ids =
    let grown = queue_of f c.batch_ids ++ range start n in
    let joined = length-append (queue_of f c.batch_ids) (range start n) in
    let inserted = lookup-insert_self f (cap grown) c.batch_ids in
    ground (arith, inserted, joined, full, some_ids, length-drop-one grown, length-range start n)
