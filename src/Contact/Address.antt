-- ===== src/Contact/Address.antt =====
-- services/contact-form/src/server.js: what a form is that `is_valid` accepts, in the words of the fields.
use gemba_blockchain.Base.{
  All, Bool, Bool-cases, Option-cases, Text, [], all, ap, arith, eqb, false, inl, inr, length, ltb,
  subst, suc, take, true, zero, ℕ, ◌&&◌, ◌++◌, ◌<◌, ◌∙◌, ◌∷◌, ◌≡◌, ◌≢◌,
}
use gemba_blockchain.Js.{Value, undefined, null, boolean, number, text, object}
use gemba_blockchain.Strings.{is_space, trim, break_at}
use gemba_blockchain.Strings.Laws.{break_at-parts}
use gemba_blockchain.Contact.{clean, is_plain, has_inner_dot, is_email}

-- A text that is not empty, without white space and without `@`.
pub record IsPart (s : Text) : Type 0 where
  pub present : 0 < length s
  pub plain : All (λ c. (is_space c ≡ false) × (c ≢ b'@')) s

-- `local@domain.top`, from such parts.
abbrev pub IsAddress : Text → Type 0
IsAddress s =
    (local : Text) × (domain : Text) × (top : Text) × (s ≡ local ++ b'@' ∷ (domain ++ b'.' ∷ top))
    × IsPart local
    × IsPart domain
    × IsPart top

-- A value of the body that is there and says something.
pub record IsFilled (string_of : Value → Text) (v : Value) : Type 0 where
  pub defined : v ≢ undefined
  pub not_null : v ≢ null
  pub says : 0 < length (trim (string_of v))

all-plain : (s : Text) → all is_plain s ≡ true → All (λ c. (is_space c ≡ false) × (c ≢ b'@')) s
unfolding is_plain
all-plain [] h = tt
all-plain (c ∷ s) h =
    ((ground (arith, h), λ e. ground (arith, h, e)), all-plain s (ground (arith, h)))

all-parts :
    (p : ℕ → Bool) (xs ys : Text) (x : ℕ)
    → all p (xs ++ x ∷ ys) ≡ true
    → (all p xs ≡ true) × (all p ys ≡ true)
all-parts p [] ys x h = ground (arith, h)
all-parts p (y ∷ xs) ys x h = ground (arith, h, all-parts p xs ys x)

has_inner_dot-parts :
    (s : Text)
    → has_inner_dot s ≡ true
    → (a : Text) × (b : Text) × (s ≡ a ++ b'.' ∷ b) × (0 < length a) × (0 < length b)
unfolding has_inner_dot
has_inner_dot-parts [] h = ground (arith, h)
has_inner_dot-parts (c ∷ []) h = ground (arith, h)
has_inner_dot-parts (c ∷ d ∷ []) h = ground (arith, h)
has_inner_dot-parts (c ∷ d ∷ e ∷ s) h = elim (Bool-cases (eqb d b'.')) [
  | inl dot ↦
      let same : d ≡ b'.' = ground (arith, dot) in
      (c ∷ [], e ∷ s, ap (λ x. c ∷ x ∷ e ∷ s) same, omega arith, omega arith)
  | inr other ↦
      let (a, b, parts, some_a, some_b) =
        has_inner_dot-parts (d ∷ e ∷ s) (ground (arith, h, other)) in
      (c ∷ a, b, ap (λ x. c ∷ x) parts, omega arith, some_b)
]

pub is_email-IsAddress : (s : Text) → is_email s ≡ true → IsAddress s
unfolding is_email
is_email-IsAddress s h = elim (Option-cases (break_at b'@' s)) [
  | inl missing ↦ absurd (ground (arith, h, missing))
  | inr ((local, domain), found) ↦
      let tests : (ltb 0 (length local)
            && all is_plain local
            && all is_plain domain
            && has_inner_dot domain)
          ≡ true =
        rw (found, is_email) at h in
      let (a, b, parts, some_a, some_b) = has_inner_dot-parts domain (ground (arith, tests)) in
      let plain_domain : all is_plain (a ++ b'.' ∷ b) ≡ true =
        subst (λ d. all is_plain d ≡ true) parts (ground (arith, tests)) in
      let halves = all-parts is_plain a b b'.' plain_domain in
      (
        local,
        a,
        b,
        break_at-parts b'@' s local domain found ∙ ap (λ d. local ++ b'@' ∷ d) parts,
        record { present = ground (arith, tests); plain = all-plain local (ground (arith, tests)) },
        record { present = some_a; plain = all-plain a halves.0 },
        record { present = some_b; plain = all-plain b halves.1 },
      )
]

length-take-present : (n : ℕ) (s : Text) → 0 < length (take n s) → 0 < length s
length-take-present zero s h = ground (arith, h)
length-take-present (suc n) [] h = ground (arith, h)
length-take-present (suc n) (c ∷ s) h = omega arith

pub clean-IsFilled :
    (string_of : Value → Text) (v : Value) (n : ℕ)
    → 0 < length (clean string_of v n)
    → IsFilled string_of v
unfolding clean
clean-IsFilled string_of undefined n h = ground (arith, h)
clean-IsFilled string_of null n h = ground (arith, h)
clean-IsFilled string_of (boolean b) n h = record {
  defined = λ e. cc;
  not_null = λ e. cc;
  says = length-take-present n _ h;
}
clean-IsFilled string_of (number b) n h = record {
  defined = λ e. cc;
  not_null = λ e. cc;
  says = length-take-present n _ h;
}
clean-IsFilled string_of (text b) n h = record {
  defined = λ e. cc;
  not_null = λ e. cc;
  says = length-take-present n _ h;
}
clean-IsFilled string_of object n h = record {
  defined = λ e. cc;
  not_null = λ e. cc;
  says = length-take-present n _ h;
}

-- What is cleaned of a value that is there is its first characters without the white space around.
pub clean_email :
    (string_of : Value → Text) (v : Value) (n : ℕ)
    → is_email (clean string_of v n) ≡ true
    → IsAddress (take n (trim (string_of v)))
unfolding clean is_email break_at
clean_email string_of undefined n h = absurd (ground (arith, h))
clean_email string_of null n h = absurd (ground (arith, h))
clean_email string_of (boolean b) n h = is_email-IsAddress _ h
clean_email string_of (number b) n h = is_email-IsAddress _ h
clean_email string_of (text b) n h = is_email-IsAddress _ h
clean_email string_of object n h = is_email-IsAddress _ h
