-- ===== src/Contact/Tests.antt =====
-- The contact form at a concrete request.
use gemba_blockchain.Base.{Text, [], codes, false, length, refl, take, true, ◌<◌, ◌≡◌, ◌⊎◌}
use gemba_blockchain.Js.{Value, text, undefined}
use gemba_blockchain.Contact.{
  Body, Siteverify, verdict, client_ip, post_contact, is_email, is_plain, has_inner_dot,
}
use gemba_blockchain.Strings.{break_at, is_space, trim}
use gemba_blockchain.Contact.Address.{IsFilled, IsAddress}
use gemba_blockchain.Contact.Laws.{AcceptsToken, post_contact-guarded}

abbrev string_of : Value → Text
string_of (text s) = s
string_of v = []

abbrev form : Body
form = record {
  name = text (codes "Ann");
  email = text (codes "ann@example.org");
  subject = undefined;
  message = text (codes "Hello");
  token = text (codes "t");
  cf_turnstile_response = undefined;
}

abbrev passes : Text → Text → Siteverify
passes token ip = verdict true

post_contact-guarded_example :
    let r = post_contact string_of (codes "s") passes (λ l. true) form [] (codes "10.0.0.1") in
    (r.0 ≡ [])
    ⊎ (IsFilled string_of form.name
        × IsAddress (take 160 (trim (string_of form.email)))
        × IsFilled string_of form.message
        × (0 < length (codes "s"))
        × AcceptsToken string_of (codes "s") passes form (client_ip [] (codes "10.0.0.1")))
post_contact-guarded_example =
    post_contact-guarded string_of (codes "s") passes (λ l. true) form [] (codes "10.0.0.1")

is_email_test : is_email (codes "ann@example.org") ≡ true
unfolding is_email is_plain has_inner_dot break_at is_space
is_email_test = refl

is_email_test_two_at : is_email (codes "ann@b@example.org") ≡ false
unfolding is_email is_plain has_inner_dot break_at is_space
is_email_test_two_at = refl
