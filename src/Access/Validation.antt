-- ===== src/Access/Validation.antt =====
-- services/access-control/src/validation.js. A failed guard throws a ValidationError (status 400).
pub mod Laws
use gemba_blockchain.Base.{
  Bool, Option, Text, [], eqb, false, if◌then◌else◌, leb, length, ltb, none, some, suc, true, zero,
  ℕ, ◌&&◌, ◌∷◌,
}
use gemba_blockchain.Js.{Num, natural, Value, undefined, null, number, text}
use gemba_blockchain.Strings.{trim, includes}
use gemba_blockchain.Faucet.Validation.{is_hex, is_evm_address}

pub data Problem : Type 0 where
  bad_address bad_uuid bad_zone is_required too_long bad_email unknown_employee not_boolean :
      Problem

-- `this.field` and the message.
pub record ValidationError : Type 0 where
  pub field : Text
  pub problem : Problem

pub data Checked {ℓ} (A : Type ℓ) : Type ℓ where
  valid : A → Checked A
  invalid : ValidationError → Checked A

abbrev pub refuse {ℓ} : {A : Type ℓ} → Text → Problem → Checked A
refuse field problem = invalid (record { field = field; problem = problem })

unfoldable pub require_evm_address : Text → Value → Checked Text
require_evm_address field (text s) =
    if is_evm_address (text s) then valid s else refuse field bad_address
require_evm_address field _ = refuse field bad_address

-- `[0-9a-f]{n}` with the flag `i`, and what stands behind it.
unfoldable pub hex_run : ℕ → Text → Option Text
hex_run zero s = some s
hex_run (suc n) [] = none
hex_run (suc n) (c ∷ s) = let rest = hex_run n s in if is_hex c then rest else none

unfoldable pub dash : Option Text → Option Text
dash (some (c ∷ s)) = if eqb c b'-' then some s else none
dash _ = none

abbrev pub then_hex : ℕ → Option Text → Option Text
then_hex n none = none
then_hex n (some s) = hex_run n s

abbrev pub at_end : Option Text → Bool
at_end (some []) = true
at_end _ = false

-- `/^[0-9a-f]{8}-[0-9a-f]{4}-[0-9a-f]{4}-[0-9a-f]{4}-[0-9a-f]{12}$/i`
unfoldable pub matches_uuid : Text → Bool
unfolding hex_run dash
matches_uuid s =
    at_end
      (then_hex 12 (dash (then_hex 4 (dash (then_hex 4 (dash (then_hex 4 (dash (hex_run 8 s)))))))))

unfoldable pub require_uuid : Text → Value → Checked Text
require_uuid field (text s) = if matches_uuid s then valid s else refuse field bad_uuid
require_uuid field _ = refuse field bad_uuid

unfoldable pub require_zone : Text → Value → Checked ℕ
require_zone field (number (natural n)) = valid n
require_zone field _ = refuse field bad_zone

-- With the default `max = 256`.
unfoldable pub require_non_empty_string : Text → Value → Checked Text
require_non_empty_string field (text s) =
    if eqb (length (trim s)) 0
    then refuse field is_required
    else if ltb 256 (length s)
    then refuse field too_long
    else valid s
require_non_empty_string field _ = refuse field is_required

-- `none` stands for the result `null`.
unfoldable pub optional_email : Text → Value → Checked (Option Text)
optional_email field undefined = valid none
optional_email field null = valid none
optional_email field (text []) = valid none
optional_email field (text (c ∷ s)) =
    if includes (c ∷ s) (b'@' ∷ []) && leb (length (c ∷ s)) 320
    then valid (some (c ∷ s))
    else refuse field bad_email
optional_email field _ = refuse field bad_email
