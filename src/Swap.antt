-- ===== src/Swap.antt =====
-- frontend/swap/src/components/SwapForm.jsx: what the form derives from its state and from the chain's answers, the
-- button that it shows, and the transactions behind the buttons. What the chain answers is part of the form; the
-- checksum of an address, viem's `getAddress`, is an argument.
pub mod Laws
mod Tests
use mathlib.Core.Option
use gemba_blockchain.Base.{
  Bool, List, Option, Text, [], eqb, false, if◌then◌else◌, ltb, map, none, not, some, text_eq, true,
  ℕ, ◌&&◌, ◌*◌, ◌+◌, ◌-◌, ◌/◌, ◌==◌, ◌||◌, ◌∷◌,
}
use gemba_blockchain.Strings.{to_lower}

pub data Token : Type 0 where
  coin : Token
  erc20 : Text → ℕ → Token

-- `a?.toLowerCase() === b.toLowerCase()`.
unfoldable pub same_token : Text → Text → Bool
same_token a b = to_lower a == to_lower b

-- `wrapAddr`.
unfoldable pub wrap_addr : (Text → Text) → Text → Token → Text
wrap_addr get_address wgmb coin = get_address wgmb
wrap_addr get_address wgmb (erc20 a decimals) = get_address a

unfoldable pub path : (Text → Text) → Text → Token → Token → List Text
path get_address wgmb coin t_out = get_address wgmb ∷ wrap_addr get_address wgmb t_out ∷ []
path get_address wgmb (erc20 a decimals) coin =
    wrap_addr get_address wgmb (erc20 a decimals) ∷ get_address wgmb ∷ []
path get_address wgmb (erc20 a decimals) (erc20 b more) =
    wrap_addr get_address wgmb (erc20 a decimals) ∷ wrap_addr get_address wgmb (erc20 b more) ∷ []

unfoldable pub is_wrap : Text → Token → Token → Bool
is_wrap wgmb coin (erc20 b decimals) = same_token b wgmb
is_wrap wgmb coin coin = false
is_wrap wgmb (erc20 a decimals) t_out = false

unfoldable pub is_unwrap : Text → Token → Token → Bool
is_unwrap wgmb (erc20 a decimals) coin = same_token a wgmb
is_unwrap wgmb (erc20 a decimals) (erc20 b more) = false
is_unwrap wgmb coin t_out = false

unfoldable pub same_pair : Token → Token → Bool
same_pair coin coin = true
same_pair (erc20 a decimals) (erc20 b more) = same_token a b
same_pair coin (erc20 b decimals) = false
same_pair (erc20 a decimals) coin = false

-- `v ?? 0n`.
unfoldable pub or_zero : Option ℕ → ℕ
or_zero none = 0
or_zero (some n) = n

-- The state of the form with the answers it shows: the quote is the last of `amountsOut`, and the amount and the
-- slippage are as they were parsed.
pub record Form : Type 0 where
  pub connected : Bool
  pub right_chain : Bool
  pub wgmb : Text
  pub t_in : Token
  pub t_out : Token
  pub amount_in : ℕ
  pub slip_bps : ℕ
  pub quote : Option ℕ
  pub quote_err : Bool
  pub balance : Option ℕ
  pub allowance : Option ℕ

unfoldable pub is_wrap_unwrap : Form → Bool
is_wrap_unwrap f = is_wrap f.wgmb f.t_in f.t_out || is_unwrap f.wgmb f.t_in f.t_out

unfoldable pub out : Form → ℕ
out f = if is_wrap_unwrap f then f.amount_in else or_zero f.quote

-- `routerOut - (routerOut * slipBps) / 10000n`, nothing where it is negative: the encoding as a uint256 throws.
unfoldable pub min_out : ℕ → ℕ → Option ℕ
min_out router_out slip_bps =
    let less = router_out * slip_bps / 10000 in
    if ltb router_out less then none else some (router_out - less)

-- `needApprove`, for the allowance of the token that is paid.
unfoldable pub needs : Text → Token → Token → ℕ → ℕ → Bool
needs wgmb coin t_out amount allowance = false
needs wgmb (erc20 a decimals) t_out amount allowance =
    not (is_unwrap wgmb (erc20 a decimals) t_out) && ltb 0 amount && ltb allowance amount

unfoldable pub need_approve : Form → Bool
need_approve f = needs f.wgmb f.t_in f.t_out f.amount_in (or_zero f.allowance)

-- The button at the foot of the form.
pub data Button : Type 0 where
  connect_wallet : Button
  select_two : Button
  insufficient : Button
  enter_amount : Button
  no_liquidity : Button
  approve : Button
  swap : Button

unfoldable pub button : Form → Button
button f =
    if not f.connected
    then connect_wallet
    else if not f.right_chain
    then connect_wallet
    else if same_pair f.t_in f.t_out
    then select_two
    else if ltb (or_zero f.balance) f.amount_in
    then insufficient
    else if eqb f.amount_in 0
    then enter_amount
    else if not (is_wrap_unwrap f) && (f.quote_err || eqb (out f) 0)
    then no_liquidity
    else if need_approve f
    then approve
    else swap

-- The transactions of `doSwap`; each of the router's has its path, its receiver and its deadline.
pub data Call : Type 0 where
  deposit : ℕ → Call
  withdraw : ℕ → Call
  swap_eth_for_tokens : ℕ → ℕ → List Text → Text → ℕ → Call
  swap_tokens_for_eth : ℕ → ℕ → List Text → Text → ℕ → Call
  swap_tokens_for_tokens : ℕ → ℕ → List Text → Text → ℕ → Call

-- The call of the router for the two tokens: the amount, the least to come out, and the rest.
unfoldable pub router_call : Token → Token → ℕ → ℕ → List Text → Text → ℕ → Call
router_call coin t_out amount least way to deadline =
    swap_eth_for_tokens amount least way to deadline
router_call (erc20 a decimals) coin amount least way to deadline =
    swap_tokens_for_eth amount least way to deadline
router_call (erc20 a decimals) (erc20 b more) amount least way to deadline =
    swap_tokens_for_tokens amount least way to deadline

-- `doSwap` up to the wallet: nothing where the call cannot be encoded.
unfoldable pub do_swap : (Text → Text) → Text → ℕ → Form → Option Call
do_swap get_address address now f =
    if is_wrap f.wgmb f.t_in f.t_out
    then some (deposit f.amount_in)
    else if is_unwrap f.wgmb f.t_in f.t_out
    then some (withdraw f.amount_in)
    else Option.map
        (λ least.
          router_call f.t_in f.t_out f.amount_in least (path get_address f.wgmb f.t_in f.t_out)
            address (now / 1000 + 1200))
        (min_out (or_zero f.quote) f.slip_bps)

-- `doApprove` once it is mined: the allowance that is read again is the amount.
unfoldable pub do_approve : Form → Form
do_approve f = record f { allowance = some f.amount_in }

-- `isUnverified`.
unfoldable pub is_unverified : Text → Token → Bool
is_unverified wgmb coin = false
is_unverified wgmb (erc20 a decimals) = not (same_token a wgmb)
