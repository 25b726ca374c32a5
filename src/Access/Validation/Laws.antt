-- ===== src/Access/Validation/Laws.antt =====
-- What each guard lets through.
use gemba_blockchain.Base.{
  All, Option, Text, [], ap, arith, length, none, refl, some, suc, true, zero, ℕ, ◌++◌, ◌<◌, ◌↔◌,
  ◌∷◌, ◌≡◌, ◌≤◌,
}
use gemba_blockchain.Js.{natural, Value, number, text}
use gemba_blockchain.Strings.{trim}
use gemba_blockchain.Faucet.Validation.{is_hex}
use gemba_blockchain.Access.Validation.{
  valid, hex_run, dash, then_hex, at_end, matches_uuid, require_zone, require_non_empty_string,
}

abbrev pub dash_code : ℕ
dash_code = b'-'

hex_run_sound :
    (n : ℕ) (s rest : Text)
    → hex_run n s ≡ some rest
    → (h : Text) × (s ≡ h ++ rest) × All (λ c. is_hex c ≡ true) h × (length h ≡ n)
unfolding hex_run
hex_run_sound zero s rest e = ([], cc, tt, refl)
hex_run_sound (suc n) [] rest e = cc
hex_run_sound (suc n) (c ∷ s) rest e =
    let (h, q, a, k) = hex_run_sound n s rest (ground arith) in
    (c ∷ h, ap (λ r. c ∷ r) q, (ground arith, a), ap suc k)

hex_run-append :
    (h rest : Text) → All (λ c. is_hex c ≡ true) h → hex_run (length h) (h ++ rest) ≡ some rest
unfolding hex_run
hex_run-append [] rest a = refl
hex_run-append (c ∷ h) rest a = rw a.0 (hex_run-append h rest a.1)

dash_sound : (o : Option Text) (rest : Text) → dash o ≡ some rest → o ≡ some (dash_code ∷ rest)
unfolding dash
dash_sound none rest e = cc
dash_sound (some []) rest e = cc
dash_sound (some (c ∷ s)) rest e = ground arith

-- A group of `n` digits and the dash behind it.
abbrev pub IsGroup : ℕ → Text → Type 0
IsGroup n h = All (λ c. is_hex c ≡ true) h × (length h ≡ n)

then_hex_sound :
    (n : ℕ) (o : Option Text) (rest : Text)
    → then_hex n o ≡ some rest
    → (h : Text) × (o ≡ some (h ++ rest)) × IsGroup n h
then_hex_sound n none rest e = cc
then_hex_sound n (some s) rest e =
    let (h, q, a, k) = hex_run_sound n s rest e in (h, ap (λ t. some t) q, (a, k))

group-append : (n : ℕ) (h rest : Text) → IsGroup n h → hex_run n (h ++ rest) ≡ some rest
group-append n h rest (a, k) = rw (← k) (hex_run-append h rest a)

at_end_sound : (o : Option Text) → at_end o ≡ true → o ≡ some []
at_end_sound none e = cc
at_end_sound (some []) e = refl
at_end_sound (some (c ∷ s)) e = cc

-- The five groups of a UUID.
pub record IsUuid (s : Text) : Type 0 where
  pub g1 : Text
  pub g2 : Text
  pub g3 : Text
  pub g4 : Text
  pub g5 : Text
  pub groups : IsGroup 8 g1 × IsGroup 4 g2 × IsGroup 4 g3 × IsGroup 4 g4 × IsGroup 12 g5
  pub layout :
      s ≡ g1 ++ dash_code ∷ (g2 ++ dash_code ∷ (g3 ++ dash_code ∷ (g4 ++ dash_code ∷ (g5 ++ []))))

matches_uuid_sound : (s : Text) → matches_uuid s ≡ true → IsUuid s
unfolding matches_uuid
matches_uuid_sound s e =
    let (g5, q5, v5) = then_hex_sound 12 _ [] (at_end_sound _ e) in
    let (g4, q4, v4) = then_hex_sound 4 _ _ (dash_sound _ _ q5) in
    let (g3, q3, v3) = then_hex_sound 4 _ _ (dash_sound _ _ q4) in
    let (g2, q2, v2) = then_hex_sound 4 _ _ (dash_sound _ _ q3) in
    let (g1, q1, a, k) = hex_run_sound 8 s _ (dash_sound _ _ q2) in
    record {
      g1 = g1;
      g2 = g2;
      g3 = g3;
      g4 = g4;
      g5 = g5;
      groups = ((a, k), v2, v3, v4, v5);
      layout = q1;
    }

matches_uuid_complete : (s : Text) → IsUuid s → matches_uuid s ≡ true
unfolding matches_uuid dash
matches_uuid_complete s u =
    let (v1, v2, v3, v4, v5) = u.groups in
    rw (
      u.layout,
      group-append 8 u.g1 _ v1,
      group-append 4 u.g2 _ v2,
      group-append 4 u.g3 _ v3,
      group-append 4 u.g4 _ v4,
      group-append 12 u.g5 [] v5,
    )

-- A string is a UUID exactly when it is five groups of 8, 4, 4, 4 and 12 hexadecimal digits of
-- either case, joined by dashes.
pub matches_uuid_iff : (s : Text) → (matches_uuid s ≡ true) ↔ IsUuid s
matches_uuid_iff s = (matches_uuid_sound s, matches_uuid_complete s)

-- A name that the guard lets through is given back unchanged, is not blank, and has at most 256
-- characters; every other value is refused.
pub require_non_empty_string_iff :
    (field : Text) (v : Value) (s : Text)
    → (require_non_empty_string field v ≡ valid s)
      ↔ ((v ≡ text s) × (0 < length (trim s)) × (length s ≤ 256))
unfolding require_non_empty_string
require_non_empty_string_iff field (text t) s = ground arith
require_non_empty_string_iff field _ s = ground arith

-- Zones are the natural numbers, and every other value is refused.
pub require_zone_iff :
    (field : Text) (v : Value) (n : ℕ) → (require_zone field v ≡ valid n) ↔ (v ≡ number (natural n))
unfolding require_zone
require_zone_iff field (number (natural m)) n = ground arith
require_zone_iff field _ n = ground arith
