-- ===== src/Contact.antt =====
-- services/contact-form/src/server.js: the form that mails an inquiry and its confirmation. The answers of
-- Turnstile and of the mail server are arguments, and so is `String` on the values of the body.
pub mod Address
pub mod Laws
mod Tests
use gemba_blockchain.Base.{
  Bool, List, Option, Text, [], all, codes, eqb, false, if◌then◌else◌, length, ltb, max, none, not,
  some, take, true, ℕ, ◌&&◌, ◌||◌, ◌∷◌,
}
use gemba_blockchain.Js.{Value, Num, undefined, null, boolean, number, text, object, natural}
use gemba_blockchain.Strings.{is_space, trim, split, break_at}

-- `String(s ?? '').trim().slice(0, max)`.
unfoldable pub clean : (Value → Text) → Value → ℕ → Text
clean string_of undefined max = []
clean string_of null max = []
clean string_of v max = take max (trim (string_of v))

-- `[^\s@]`.
unfoldable pub is_plain : ℕ → Bool
is_plain c = not (is_space c) && not (eqb c b'@')

-- `\.[^\s@]+$` behind at least one character, where all characters are plain.
unfoldable pub has_inner_dot : Text → Bool
has_inner_dot [] = false
has_inner_dot (c ∷ []) = false
has_inner_dot (c ∷ d ∷ []) = false
has_inner_dot (c ∷ d ∷ e ∷ s) = eqb d b'.' || has_inner_dot (d ∷ e ∷ s)

-- `/^[^\s@]+@[^\s@]+\.[^\s@]+$/`.
unfoldable pub is_email : Text → Bool
is_email s = elim (break_at b'@' s) [
  | none ↦ false
  | some (local, domain) ↦
      ltb 0 (length local) && all is_plain local && all is_plain domain && has_inner_dot domain
]

-- `a || b` on the values of the body.
unfoldable pub truthy : Value → Bool
truthy undefined = false
truthy null = false
truthy (boolean b) = b
truthy (number n) = elim n [ natural k ↦ not (eqb k 0) | _ ↦ true ]
truthy (text s) = ltb 0 (length s)
truthy object = true

pub record Body : Type 0 where
  pub name : Value
  pub email : Value
  pub subject : Value
  pub message : Value
  pub token : Value
  pub cf_turnstile_response : Value

-- What Turnstile answers, if it is asked: it throws, or it has a verdict.
pub data Siteverify : Type 0 where
  unreachable : Siteverify
  verdict : Bool → Siteverify

-- `verifyTurnstile`: nothing where it throws. Without a secret nobody passes.
unfoldable pub verify_turnstile : Text → (Text → Text → Siteverify) → Text → Text → Option Bool
verify_turnstile secret siteverify token ip =
    if eqb (length secret) 0
    then some false
    else elim (siteverify token ip) [ unreachable ↦ none | verdict b ↦ some b ]

-- `(cf-connecting-ip || x-forwarded-for || '').toString().split(',')[0].trim()`; a header that is not
-- there is empty.
unfoldable pub client_ip : Text → Text → Text
client_ip cf forwarded =
    let header = if ltb 0 (length cf) then cf else forwarded in
    elim (split b',' header) [ [] ↦ [] | first ∷ rest ↦ trim first ]

-- The two mails: the inquiry with its reply address, subject and text parts, and the confirmation.
pub data Letter : Type 0 where
  inquiry : Text → Text → Text → Text → Letter
  confirmation : Text → Text → Text → Letter

pub data Answer : Type 0 where
  sent_both : Answer
  invalid_input : Answer
  turnstile_failed : Answer
  send_failed : Answer

unfoldable pub status : Answer → ℕ
status sent_both = 200
status invalid_input = 400
status turnstile_failed = 403
status send_failed = 500

-- The letters that go out one after the other until one fails, and whether all did.
unfoldable pub send_all : (Letter → Bool) → List Letter → List Letter × Bool
send_all mail_up [] = ([], true)
send_all mail_up (l ∷ ls) =
    let rest = send_all mail_up ls in if mail_up l then (l ∷ rest.0, rest.1) else ([], false)

-- The fields of the form, cleaned.
pub record Fields : Type 0 where
  pub name : Text
  pub email : Text
  pub subject : Text
  pub message : Text
  pub token : Text

unfoldable pub fields_of : (Value → Text) → Body → Fields
fields_of string_of body =
    let subject = clean string_of body.subject 160 in
    record {
      name = clean string_of body.name 120;
      email = clean string_of body.email 160;
      subject = if ltb 0 (length subject) then subject else codes "Contact form message";
      message = clean string_of body.message 5000;
      token =
          clean string_of (if truthy body.token then body.token else body.cf_turnstile_response)
            4096;
    }

unfoldable pub is_valid : Fields → Bool
is_valid f = ltb 0 (length f.name) && is_email f.email && ltb 0 (length f.message)

abbrev pub letters : Fields → List Letter
letters f = inquiry f.name f.email f.subject f.message ∷ confirmation f.name f.email f.message ∷ []

-- `POST /api/contact`: the letters that go out and the answer.
unfoldable pub post_contact :
    (Value → Text)
    → Text
    → (Text → Text → Siteverify)
    → (Letter → Bool)
    → Body
    → Text
    → Text
    → List Letter × Answer
post_contact string_of secret siteverify mail_up body cf forwarded =
    let f = fields_of string_of body in
    let sending = send_all mail_up (letters f) in
    let answered : List Letter × Answer =
      elim (verify_turnstile secret siteverify f.token (client_ip cf forwarded)) [
        | none ↦ ([], send_failed)
        | some passed ↦
            if passed
            then (sending.0, if sending.1 then sent_both else send_failed)
            else ([], turnstile_failed)
      ] in
    if is_valid f then answered else ([], invalid_input)
