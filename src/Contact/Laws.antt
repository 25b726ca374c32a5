-- ===== src/Contact/Laws.antt =====
-- Nothing is mailed without a valid form and a passed challenge.
use gemba_blockchain.Base.{
  Bool, Bool-cases, Option, Option-cases, Text, [], ap, arith, eqb, false, if◌then◌else◌, inl, inr,
  length, none, refl, some, take, true, ◌<◌, ◌∙◌, ◌∷◌, ◌≡◌, ◌⊎◌,
}
use gemba_blockchain.Js.{Value}
use gemba_blockchain.Strings.{trim}
use gemba_blockchain.Contact.Address.{IsFilled, IsAddress, clean-IsFilled, clean_email}
use gemba_blockchain.Contact.{
  clean, truthy, Body, Siteverify, unreachable, verdict, verify_turnstile, client_ip, Letter,
  inquiry, confirmation, send_all, fields_of, is_valid, letters, post_contact, status,
}

-- The answer of Turnstile as `verifyTurnstile` passes it on.
abbrev verdict_of : Siteverify → Option Bool
verdict_of unreachable = none
verdict_of (verdict b) = some b

verdict-passed : (s : Siteverify) → verdict_of s ≡ some true → s ≡ verdict true
verdict-passed unreachable h = ground (arith, h)
verdict-passed (verdict b) h = ground (arith, h)

module _ (string_of : Value → Text) (secret : Text) (siteverify : Text → Text → Siteverify) where
  verify_turnstile-passed :
      (token ip : Text)
      → verify_turnstile secret siteverify token ip ≡ some true
      → (0 < length secret) × (siteverify token ip ≡ verdict true)
  unfolding verify_turnstile
  verify_turnstile-passed token ip h = elim (Bool-cases (eqb (length secret) 0)) [
    | inl unset ↦ ground (arith, h, unset)
    | inr set ↦ (ground (arith, set), verdict-passed (siteverify token ip) (ground (arith, h, set)))
  ]

  -- Turnstile accepted the one or the other token of the body.
  abbrev pub AcceptsToken : Body → Text → Type 0
  AcceptsToken body ip =
      (v : Value) × ((v ≡ body.token) ⊎ (v ≡ body.cf_turnstile_response))
      × (siteverify (clean string_of v 4096) ip ≡ verdict true)

  accepted-token :
      (body : Body) (ip : Text)
      → siteverify (fields_of string_of body).token ip ≡ verdict true
      → AcceptsToken body ip
  unfolding fields_of
  accepted-token body ip h = (
    (if truthy body.token then body.token else body.cf_turnstile_response),
    (elim (Bool-cases (truthy body.token)) [
      | inl given ↦ inl (rw given refl)
      | inr absent ↦ inr (rw absent refl)
    ]),
    h,
  )

  is_valid-fields :
      (body : Body)
      → is_valid (fields_of string_of body) ≡ true
      → IsFilled string_of body.name
        × IsAddress (take 160 (trim (string_of body.email)))
        × IsFilled string_of body.message
  unfolding is_valid fields_of
  is_valid-fields body h = (
    clean-IsFilled string_of body.name 120 (ground (arith, h)),
    clean_email string_of body.email 160 (ground (arith, h)),
    clean-IsFilled string_of body.message 5000 (ground (arith, h)),
  )

  -- Either no letter goes out, or the form has a name and a message that are more than white space
  -- and an address of the form `local@domain.top`, a secret is configured, and Turnstile accepted a
  -- token of the body.
  pub post_contact-guarded :
      (mail_up : Letter → Bool) (body : Body) (cf forwarded : Text)
      → let r = post_contact string_of secret siteverify mail_up body cf forwarded in
        (r.0 ≡ [])
        ⊎ (IsFilled string_of body.name
            × IsAddress (take 160 (trim (string_of body.email)))
            × IsFilled string_of body.message
            × (0 < length secret)
            × AcceptsToken body (client_ip cf forwarded))
  unfolding post_contact
  post_contact-guarded mail_up body cf forwarded =
      let f = fields_of string_of body in
      let verified = verify_turnstile secret siteverify f.token (client_ip cf forwarded) in
      elim (Bool-cases (is_valid f)) [
        | inr invalid ↦ inl (rw (invalid, post_contact) refl)
        | inl valid ↦ elim (Option-cases verified) [
          | inl threw ↦ inl (rw (valid, post_contact) (rw (threw, post_contact) refl))
          | inr (false, failed) ↦ inl (rw (valid, post_contact) (rw (failed, post_contact) refl))
          | inr (true, passed) ↦
              let accepted = verify_turnstile-passed f.token (client_ip cf forwarded) passed in
              let (named, addressed, says) = is_valid-fields body valid in
              inr (
                named,
                addressed,
                says,
                accepted.0,
                accepted-token body (client_ip cf forwarded) accepted.1,
              )
        ]
      ]

  -- When the form is valid and the challenge passed, the mail server alone decides: the letters go out
  -- one after the other up to the first that fails, and the answer is 200 exactly when none did.
  pub post_contact-mailed :
      (mail_up : Letter → Bool) (body : Body) (cf forwarded : Text)
      → is_valid (fields_of string_of body) ≡ true
      → verify_turnstile secret siteverify (fields_of string_of body).token (client_ip cf forwarded)
        ≡ some true
      → let r = post_contact string_of secret siteverify mail_up body cf forwarded in
        let sending = send_all mail_up (letters (fields_of string_of body)) in
        (r.0 ≡ sending.0) × (status r.1 ≡ (if sending.1 then 200 else 500))
  unfolding post_contact status
  post_contact-mailed mail_up body cf forwarded valid passed =
      let sending = send_all mail_up (letters (fields_of string_of body)) in
      rw (valid, post_contact)
        (rw (passed, post_contact) (refl, ground (arith, Bool-cases sending.1)))

  -- When the inquiry goes out and the confirmation to the sender fails, the form is answered with an
  -- error although the inquiry has arrived.
  pub post_contact-half_sent :
      (mail_up : Letter → Bool) (body : Body) (cf forwarded : Text)
      → is_valid (fields_of string_of body) ≡ true
      → verify_turnstile secret siteverify (fields_of string_of body).token (client_ip cf forwarded)
        ≡ some true
      → (let f = fields_of string_of body in
          mail_up (inquiry f.name f.email f.subject f.message) ≡ true)
      → (let f = fields_of string_of body in
          mail_up (confirmation f.name f.email f.message) ≡ false)
      → let r = post_contact string_of secret siteverify mail_up body cf forwarded in
        let f = fields_of string_of body in
        (r.0 ≡ inquiry f.name f.email f.subject f.message ∷ []) × (status r.1 ≡ 500)
  unfolding send_all
  post_contact-half_sent mail_up body cf forwarded valid passed first second =
      let mailed = post_contact-mailed mail_up body cf forwarded valid passed in
      let stopped : send_all mail_up (letters (fields_of string_of body)) ≡ (
        inquiry (fields_of string_of body).name (fields_of string_of body).email
              (fields_of string_of body).subject (fields_of string_of body).message
            ∷ [],
        false,
      ) =
        rw (first, send_all) (rw (second, send_all) refl) in
      (mailed.0 ∙ ap (λ s. s.0) stopped, mailed.1 ∙ ap (λ s. if s.1 then 200 else 500) stopped)
