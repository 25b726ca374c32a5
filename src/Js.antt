-- ===== src/Js.antt =====
-- The JavaScript values that reach the services in a parsed JSON body or as a path parameter.
use gemba_blockchain.Base.{Bool, Text, ℕ}

-- A number as the guards see it: a natural number, a negative integer, any other finite number, or
-- one that is not finite.
pub data Num : Type 0 where
  natural : ℕ → Num
  negative : ℕ → Num
  fraction : Num
  not_finite : Num

pub data Value : Type 0 where
  undefined : Value
  null : Value
  boolean : Bool → Value
  number : Num → Value
  text : Text → Value
  object : Value
