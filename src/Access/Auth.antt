-- ===== src/Access/Auth.antt =====
-- services/access-control/src/auth.js: API keys, and the middleware that derives the tenant from them.
pub mod Presented
pub mod Laws
use gemba_blockchain.Base.{
  Bool, List, Map, Option, Text, [], codes, drop, eqb, false, if◌then◌else◌, insert, length, lookup,
  none, some, text_eq, ℕ, ◌&&◌, ◌||◌, ◌∷◌,
}
use gemba_blockchain.Strings.{is_space, trim, trim_start, split, break_at, to_lower, starts_with}

abbrev pub comma : ℕ
comma = b','

abbrev pub colon : ℕ
colon = b':'

-- One round of the loop, from the two halves of `pair`: a missing or leading colon skips the pair.
unfoldable pub add_key : Map Text Text → Option (Text × Text) → Map Text Text
add_key keys none = keys
add_key keys (some ([], after)) = keys
add_key keys (some (c ∷ before, after)) =
    let key = trim (c ∷ before) in
    let tenant = trim after in
    if eqb (length key) 0 || eqb (length tenant) 0 then keys else insert key tenant keys

unfoldable pub add_pairs : Map Text Text → List Text → Map Text Text
add_pairs keys [] = keys
add_pairs keys (pair ∷ pairs) = add_pairs (add_key keys (break_at colon pair)) pairs

-- `none` for a variable that is not set.
unfoldable pub parse_api_keys : Option Text → Map Text Text
unfolding add_pairs add_key split break_at trim
parse_api_keys none = add_pairs [] (split comma [])
parse_api_keys (some raw) = add_pairs [] (split comma raw)

-- The headers that a client sends.
pub record Headers : Type 0 where
  pub authorization : Option Text
  pub x_api_key : Option Text
  pub x_tenant_id : Option Text

abbrev pub or_empty : Option Text → Text
or_empty none = []
or_empty (some s) = s

abbrev pub head_is_space : Text → Bool
head_is_space [] = false
head_is_space (c ∷ s) = is_space c

-- `.replace(/^Bearer\s+/i, '')`
unfoldable pub strip_bearer : Text → Text
strip_bearer s =
    let rest = drop 6 s in
    if starts_with (to_lower s) (codes "bearer") && head_is_space rest then trim_start rest else s

-- `a || b` on strings.
abbrev pub or_else : Text → Text → Text
or_else [] b = b
or_else (c ∷ a) b = c ∷ a

unfoldable pub presented_key : Headers → Text
unfolding strip_bearer
presented_key h = or_else (or_empty h.x_api_key) (trim (strip_bearer (or_empty h.authorization)))

-- An absent or empty tenant is falsy.
abbrev pub truthy : Option Text → Option Text
truthy (some (c ∷ s)) = some (c ∷ s)
truthy _ = none

-- `key ? keyMap.get(key) : undefined`
abbrev pub get_key : Map Text Text → Text → Option Text
get_key keys [] = none
get_key keys (c ∷ s) = lookup (c ∷ s) keys

-- `req.tenantId` for the handlers, or `none` where the middleware answers 401.
unfoldable pub api_key_auth : Map Text Text → Headers → Option Text
unfolding presented_key
api_key_auth keys h = truthy (get_key keys (presented_key h))
