-- ===== src/Faucet/Validation/Laws.antt =====
-- What the address pattern accepts.
use gemba_blockchain.Base.{
  All, Text, [], all, arith, length, refl, true, ℕ, ◌↔◌, ◌∷◌, ◌≡◌, ◌≤◌, ◌⊎◌,
}
use gemba_blockchain.Js.{Value, text}
use gemba_blockchain.Faucet.Validation.{is_digit, is_hex, matches_evm_address, is_evm_address}

-- One hexadecimal digit, by its three ranges.
abbrev pub IsHex : ℕ → Type 0
IsHex c = ((b'0' ≤ c) × (c ≤ b'9')) ⊎ ((b'a' ≤ c) × (c ≤ b'f')) ⊎ ((b'A' ≤ c) × (c ≤ b'F'))

is_hex_sound : (c : ℕ) → is_hex c ≡ true → IsHex c
unfolding is_hex is_digit
is_hex_sound c h = ground arith

is_hex_complete : (c : ℕ) → IsHex c → is_hex c ≡ true
unfolding is_hex is_digit
is_hex_complete c h = ground arith

digits_sound : (s : Text) → all is_hex s ≡ true → All IsHex s
digits_sound [] h = tt
digits_sound (c ∷ s) h = (is_hex_sound c (ground arith), digits_sound s (ground arith))

digits_complete : (s : Text) → All IsHex s → all is_hex s ≡ true
digits_complete [] h = refl
digits_complete (c ∷ s) h = rw (is_hex_complete c h.0) (digits_complete s h.1)

-- "0x" and forty hexadecimal digits.
abbrev pub IsEvmAddress : Text → Type 0
IsEvmAddress s =
    (digits : Text) × (s ≡ b'0' ∷ b'x' ∷ digits) × All IsHex digits × (length digits ≡ 40)

matches_sound : (s : Text) → matches_evm_address s ≡ true → IsEvmAddress s
unfolding matches_evm_address
matches_sound [] h = cc
matches_sound (a ∷ []) h = cc
matches_sound (a ∷ b ∷ digits) h =
    (digits, ground arith, digits_sound digits (ground arith), ground arith)

-- The pattern accepts "0x" with forty hexadecimal digits of either case, and nothing else.
pub matches_evm_address_iff : (s : Text) → (matches_evm_address s ≡ true) ↔ IsEvmAddress s
unfolding matches_evm_address
matches_evm_address_iff s = (matches_sound s, λ p. rw p.1 (ground (arith, digits_complete p.0 p.2)))

-- Only strings pass; a string passes when the pattern accepts it.
pub is_evm_address-text :
    (v : Value) → is_evm_address v ≡ true → (s : Text) × (v ≡ text s) × IsEvmAddress s
unfolding is_evm_address
is_evm_address-text (text s) h = (s, refl, matches_sound s h)
is_evm_address-text _ h = cc
