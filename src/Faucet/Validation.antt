-- ===== src/Faucet/Validation.antt =====
-- services/testnet-faucet/src/validation.js, and the same pattern in
-- services/access-control/src/validation.js.
pub mod Laws
use gemba_blockchain.Base.{Bool, Text, all, eqb, false, leb, length, ℕ, ◌&&◌, ◌||◌, ◌∷◌}
use gemba_blockchain.Js.{Value, text}

unfoldable pub is_digit : ℕ → Bool
is_digit c = leb b'0' c && leb c b'9'

-- `[0-9a-fA-F]`
unfoldable pub is_hex : ℕ → Bool
unfolding is_digit
is_hex c = is_digit c || (leb b'a' c && leb c b'f') || (leb b'A' c && leb c b'F')

-- `/^0x[0-9a-fA-F]{40}$/.test(s)`
unfoldable pub matches_evm_address : Text → Bool
unfolding is_hex
matches_evm_address (a ∷ b ∷ digits) =
    eqb a b'0' && eqb b b'x' && all is_hex digits && eqb (length digits) 40
matches_evm_address _ = false

unfoldable pub is_evm_address : Value → Bool
unfolding matches_evm_address
is_evm_address (text s) = matches_evm_address s
is_evm_address _ = false
