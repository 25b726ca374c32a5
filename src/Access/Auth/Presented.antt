-- ===== src/Access/Auth/Presented.antt =====
-- services/access-control/src/auth.js: which key a request presents, in the words of its headers.
use gemba_blockchain.Base.{
  Bool-cases, Option, Text, [], ap, arith, codes, drop, inl, inr, length, none, refl, some, subst,
  suc, sym, take, true, zero, ℕ, ◌&&◌, ◌++◌, ◌∙◌, ◌∷◌, ◌≡◌, ◌≢◌,
}
use gemba_blockchain.Strings.{is_space, trim, trim_start, trim_end, to_lower, starts_with}
use gemba_blockchain.Access.Auth.{
  Headers, or_empty, or_else, head_is_space, strip_bearer, presented_key,
}

-- `Bearer` in any case, white space, and the rest.
pub record IsBearer (s rest : Text) : Type 0 where
  pub word : Text
  pub gap : ℕ
  pub parts : s ≡ word ++ gap ∷ rest
  pub is_word : to_lower word ≡ codes "bearer"
  pub is_gap : is_space gap ≡ true

-- A request presents a key by `x-api-key`, or where that is not there or empty by `authorization`, behind `Bearer` or
-- bare, without the white space around it.
pub data Presents (h : Headers) (key : Text) : Type 0 where
  by_x_api_key : h.x_api_key ≡ some key → key ≢ [] → Presents h key
  by_bearer :
      (rest : Text)
      → or_empty h.x_api_key ≡ []
      → IsBearer (or_empty h.authorization) rest
      → key ≡ trim rest
      → Presents h key
  by_bare :
      or_empty h.x_api_key ≡ []
      → ((rest : Text) → IsBearer (or_empty h.authorization) rest → ⊥)
      → key ≡ trim (or_empty h.authorization)
      → Presents h key

trim_start_twice : (s : Text) → trim_start (trim_start s) ≡ trim_start s
unfolding trim_start
trim_start_twice [] = refl
trim_start_twice (c ∷ s) = elim (Bool-cases (is_space c)) [
  | inl space ↦ rw (space, trim_start) (trim_start_twice s)
  | inr other ↦ rw (other, trim_start) (rw (other, trim_start) refl)
]

trim-gap : (c : ℕ) (s : Text) → is_space c ≡ true → trim (trim_start (c ∷ s)) ≡ trim s
unfolding trim trim_start
trim-gap c s space = rw (space, trim_start) (ap trim_end (trim_start_twice s))

starts_with-append :
    (word rest : Text) (p : Text)
    → to_lower word ≡ p
    → starts_with (to_lower (word ++ rest)) p ≡ true
unfolding to_lower starts_with
starts_with-append word rest [] e = refl
starts_with-append [] rest (x ∷ p) e = ground (arith, e)
starts_with-append (c ∷ word) rest (x ∷ p) e =
    let tail = starts_with-append word rest p (ground (arith, e)) in ground (arith, e, tail)

starts_with-take :
    (s p : Text) → starts_with (to_lower s) p ≡ true → to_lower (take (length p) s) ≡ p
unfolding to_lower starts_with
starts_with-take s [] h = refl
starts_with-take [] (x ∷ p) h = ground (arith, h)
starts_with-take (c ∷ s) (x ∷ p) h =
    let tail = starts_with-take s p (ground (arith, h)) in ground (arith, h, tail)

drop-word : (word rest p : Text) → to_lower word ≡ p → drop (length p) (word ++ rest) ≡ rest
unfolding to_lower
drop-word [] rest [] e = refl
drop-word [] rest (x ∷ p) e = ground (arith, e)
drop-word (c ∷ word) rest [] e = ground (arith, e)
drop-word (c ∷ word) rest (x ∷ p) e = drop-word word rest p (ground (arith, e))

take-drop : (n : ℕ) (s : Text) → s ≡ take n s ++ drop n s
take-drop zero s = refl
take-drop (suc n) [] = refl
take-drop (suc n) (c ∷ s) = ap (λ t. c ∷ t) (take-drop n s)

-- What is stripped of a bearer's header, and of any other.
bearer-stripped : (s rest : Text) → IsBearer s rest → trim (strip_bearer s) ≡ trim rest
unfolding strip_bearer
bearer-stripped s rest b =
    let text = b.word ++ b.gap ∷ rest in
    let starts = starts_with-append b.word (b.gap ∷ rest) (codes "bearer") b.is_word in
    let left : drop 6 text ≡ b.gap ∷ rest =
      drop-word b.word (b.gap ∷ rest) (codes "bearer") b.is_word in
    let space : head_is_space (drop 6 text) ≡ true = ap head_is_space left ∙ b.is_gap in
    let stripped : strip_bearer text ≡ trim_start (drop 6 text) =
      rw (starts, space, strip_bearer) refl in
    ap (λ x. trim (strip_bearer x)) b.parts
    ∙ ap trim stripped
    ∙ ap (λ x. trim (trim_start x)) left
    ∙ trim-gap b.gap rest b.is_gap

head-parts :
    (t : Text)
    → head_is_space t ≡ true
    → (c : ℕ) × (rest : Text) × (t ≡ c ∷ rest) × (is_space c ≡ true)
head-parts [] h = ground (arith, h)
head-parts (c ∷ rest) h = (c, rest, refl, h)

IsBearer-found :
    (s : Text)
    → starts_with (to_lower s) (codes "bearer") && head_is_space (drop 6 s) ≡ true
    → (rest : Text) × IsBearer s rest
IsBearer-found s h =
    let (c, rest, parts, space) = head-parts (drop 6 s) (ground (arith, h)) in
    (
      rest,
      record {
        word = take 6 s;
        gap = c;
        parts = take-drop 6 s ∙ ap (λ t. take 6 s ++ t) parts;
        is_word = starts_with-take s (codes "bearer") (ground (arith, h));
        is_gap = space;
      },
    )

bearer-test :
    (s rest : Text)
    → IsBearer s rest
    → starts_with (to_lower s) (codes "bearer") && head_is_space (drop 6 s) ≡ true
bearer-test s rest b =
    let text = b.word ++ b.gap ∷ rest in
    let starts = starts_with-append b.word (b.gap ∷ rest) (codes "bearer") b.is_word in
    let left = drop-word b.word (b.gap ∷ rest) (codes "bearer") b.is_word in
    let space : head_is_space (drop 6 text) ≡ true = ap head_is_space left ∙ b.is_gap in
    let both : starts_with (to_lower text) (codes "bearer") && head_is_space (drop 6 text) ≡ true =
      ground (arith, starts, space) in
    ap (λ x. starts_with (to_lower x) (codes "bearer") && head_is_space (drop 6 x)) b.parts ∙ both

bare-stripped : (s : Text) → ((rest : Text) → IsBearer s rest → ⊥) → strip_bearer s ≡ s
unfolding strip_bearer
bare-stripped s none_there =
    elim (Bool-cases (starts_with (to_lower s) (codes "bearer") && head_is_space (drop 6 s))) [
      | inl bearer ↦ let found = IsBearer-found s bearer in absurd (none_there found.0 found.1)
      | inr bare ↦ rw (bare, strip_bearer) refl
    ]

or_else-first : (key other : Text) → key ≢ [] → or_else key other ≡ key
or_else-first [] other some_key = absurd (some_key refl)
or_else-first (c ∷ key) other some_key = refl

pub Presents-presented_key : (h : Headers) (key : Text) → Presents h key → presented_key h ≡ key
unfolding presented_key
Presents-presented_key h key (by_x_api_key given some_key) = rw given (or_else-first key _ some_key)
Presents-presented_key h key (by_bearer rest silent bearer e) =
    rw silent (bearer-stripped (or_empty h.authorization) rest bearer ∙ sym e)
Presents-presented_key h key (by_bare silent other e) =
    rw silent (ap trim (bare-stripped (or_empty h.authorization) other) ∙ sym e)

-- Without `x-api-key` the other header is read.
silent-Presents : (h : Headers) → or_empty h.x_api_key ≡ [] → Presents h (presented_key h)
unfolding presented_key strip_bearer
silent-Presents h silent =
    let s = or_empty h.authorization in
    let read : presented_key h ≡ trim (strip_bearer s) = rw (silent, presented_key) refl in
    elim (Bool-cases (starts_with (to_lower s) (codes "bearer") && head_is_space (drop 6 s))) [
      | inl bearer ↦
          let found = IsBearer-found s bearer in
          by_bearer found.0 silent found.1 (read ∙ bearer-stripped s found.0 found.1)
      | inr bare ↦
          let as_it_is : strip_bearer s ≡ s = rw (bare, strip_bearer) refl in
          by_bare silent (λ rest b. ground (arith, bearer-test s rest b, bare))
            (read ∙ ap trim as_it_is)
    ]

pub presented_key-Presents : (h : Headers) → presented_key h ≢ [] → Presents h (presented_key h)
presented_key-Presents h some_key = by_header h.x_api_key refl
  where
    by_header : (x : Option Text) → h.x_api_key ≡ x → Presents h (presented_key h)
    by_header none e = silent-Presents h (ap or_empty e)
    by_header (some []) e = silent-Presents h (ap or_empty e)
    by_header (some (c ∷ key)) e =
        let read : presented_key h ≡ c ∷ key =
          Presents-presented_key h (c ∷ key) (by_x_api_key e (λ q. cc)) in
        subst (Presents h) (sym read) (by_x_api_key e (λ q. cc))
