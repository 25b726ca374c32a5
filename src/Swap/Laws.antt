-- ===== src/Swap/Laws.antt =====
-- frontend/swap/src/components/SwapForm.jsx: what the transactions behind the buttons take and leave.
use mathlib.Core.Option
use mathlib.Core.Option.{some-injective, map-eq-some_iff}
use gemba_blockchain.Base.{
  Bool-cases, List, Text, [], arith, false, inl, inr, ltb, refl, some, subst, sym, ℕ, ◌*◌, ◌+◌, ◌-◌,
  ◌/◌, ◌∙◌, ◌∷◌, ◌≡◌, ◌≤◌, ◌⊎◌,
}
use gemba_blockchain.Swap.{
  Token, coin, erc20, Form, swap, button, Call, deposit, withdraw, swap_eth_for_tokens,
  swap_tokens_for_eth, swap_tokens_for_tokens, router_call, do_swap, do_approve, min_out, or_zero,
  need_approve, needs, is_wrap, is_unwrap, path, wrap_addr,
}
use native.Mathlib.Nat.{div-mul-le_self, mul-sub, mul-le-mul_left}

-- The path goes from the one token to the other, with WGMB for the coin.
pub path_lem :
    (get_address : Text → Text) (wgmb : Text) (t_in t_out : Token)
    → path get_address wgmb t_in t_out
      ≡ wrap_addr get_address wgmb t_in ∷ wrap_addr get_address wgmb t_out ∷ []
unfolding path wrap_addr
path_lem get_address wgmb coin t_out = refl
path_lem get_address wgmb (erc20 a decimals) coin = refl
path_lem get_address wgmb (erc20 a decimals) (erc20 b more) = refl

-- What a call takes of the token that is paid.
unfoldable pub takes : Call → ℕ
takes (deposit n) = n
takes (withdraw n) = n
takes (swap_eth_for_tokens n least way to deadline) = n
takes (swap_tokens_for_eth n least way to deadline) = n
takes (swap_tokens_for_tokens n least way to deadline) = n

-- What of it the router takes by the allowance.
unfoldable pub pulls : Call → ℕ
pulls (deposit n) = 0
pulls (withdraw n) = 0
pulls (swap_eth_for_tokens n least way to deadline) = 0
pulls (swap_tokens_for_eth n least way to deadline) = n
pulls (swap_tokens_for_tokens n least way to deadline) = n

-- The button swaps only an amount that the balance holds.
button-funded : (f : Form) → button f ≡ swap → f.amount_in ≤ or_zero f.balance
unfolding button
button-funded f e = ground (arith, e)

-- The button swaps only where nothing is left to approve.
button-approved : (f : Form) → button f ≡ swap → need_approve f ≡ false
unfolding button
button-approved f e = ground (arith, e)

-- With a slippage of at most 100% the least to come out is the quote less the slippage, rounded up.
pub min_out-within :
    (router_out slip_bps : ℕ)
    → slip_bps ≤ 10000
    → let least = router_out - router_out * slip_bps / 10000 in
      (min_out router_out slip_bps ≡ some least) × (router_out * (10000 - slip_bps) ≤ least * 10000)
unfolding min_out
min_out-within router_out slip_bps small =
    let less = router_out * slip_bps / 10000 in
    let floor : less * 10000 ≤ router_out * slip_bps =
      div-mul-le_self (router_out * slip_bps) 10000 in
    let parts : router_out * slip_bps ≤ router_out * 10000 = mul-le-mul_left router_out small in
    let fits : ltb router_out less ≡ false = ground (arith, floor, parts) in
    let whole = mul-sub router_out 10000 slip_bps in
    (rw (fits, min_out) refl, omega (arith, floor, parts, whole))

router_call-takes :
    (t_in t_out : Token) (n least : ℕ) (way : List Text) (to : Text) (deadline : ℕ)
    → takes (router_call t_in t_out n least way to deadline) ≡ n
unfolding router_call takes
router_call-takes coin t_out n least way to deadline = refl
router_call-takes (erc20 a decimals) coin n least way to deadline = refl
router_call-takes (erc20 a decimals) (erc20 b more) n least way to deadline = refl

router_call-pulls :
    (wgmb : Text) (t_in t_out : Token) (n least : ℕ) (way : List Text) (to : Text)
    (deadline allowance : ℕ)
    → needs wgmb t_in t_out n allowance ≡ false
    → is_unwrap wgmb t_in t_out ≡ false
    → pulls (router_call t_in t_out n least way to deadline) ≤ allowance
unfolding router_call pulls needs
router_call-pulls wgmb coin t_out n least way to deadline allowance e other = omega arith
router_call-pulls wgmb (erc20 a decimals) coin n least way to deadline allowance e other =
    ground (arith, e, other)
router_call-pulls wgmb (erc20 a decimals) (erc20 b more) n least way to deadline allowance e other =
    ground (arith, e, other)

-- What holds of the wrapping, of the unwrapping and of the router's call holds of the transaction.
do_swap-cases :
    (get_address : Text → Text) (address : Text) (now : ℕ) (f : Form) (c : Call)
    → do_swap get_address address now f ≡ some c
    → (c ≡ deposit f.amount_in)
      ⊎ (c ≡ withdraw f.amount_in)
      ⊎ ((is_unwrap f.wgmb f.t_in f.t_out ≡ false)
          × ((least : ℕ) × c
                ≡ router_call f.t_in f.t_out f.amount_in least
                    (path get_address f.wgmb f.t_in f.t_out)
                    address
                    (now / 1000 + 1200)))
unfolding do_swap
do_swap-cases get_address address now f c e = elim (Bool-cases (is_wrap f.wgmb f.t_in f.t_out)) [
  | inl wraps ↦ inl (sym (some-injective _ _ (sym (rw (wraps, do_swap) refl) ∙ e)))
  | inr no_wrap ↦ elim (Bool-cases (is_unwrap f.wgmb f.t_in f.t_out)) [
    | inl unwraps ↦ inr (
        inl
          (sym (some-injective _ _ (sym (rw (no_wrap, do_swap) (rw (unwraps, do_swap) refl)) ∙ e))))
    | inr no_unwrap ↦
        let way = path get_address f.wgmb f.t_in f.t_out in
        let call_of : ℕ → Call =
          λ least. router_call f.t_in f.t_out f.amount_in least way address (now / 1000 + 1200) in
        let red : do_swap get_address address now f
            ≡ Option.map call_of (min_out (or_zero f.quote) f.slip_bps) =
          rw (no_wrap, do_swap) (rw (no_unwrap, do_swap) refl) in
        let found =
          (map-eq-some_iff call_of (min_out (or_zero f.quote) f.slip_bps)).0 (sym red ∙ e) in
        inr (inr (no_unwrap, (found.0, sym found.2)))
  ]
]

needs-enough : (wgmb : Text) (t_in t_out : Token) (n : ℕ) → needs wgmb t_in t_out n n ≡ false
unfolding needs
needs-enough wgmb coin t_out n = refl
needs-enough wgmb (erc20 a decimals) t_out n = ground arith

-- Once the approval of the amount is mined, the button does not ask for it again.
pub do_approve-once : (f : Form) → need_approve (do_approve f) ≡ false
unfolding need_approve do_approve or_zero
do_approve-once f = needs-enough f.wgmb f.t_in f.t_out f.amount_in

-- The transaction behind the swap button takes no more of the token that is paid than the balance
-- that is shown, and the router takes no more of it than the allowance that is shown.
pub do_swap-covered :
    (get_address : Text → Text) (address : Text) (now : ℕ) (f : Form) (c : Call)
    → button f ≡ swap
    → do_swap get_address address now f ≡ some c
    → (takes c ≤ or_zero f.balance) × (pulls c ≤ or_zero f.allowance)
unfolding takes pulls need_approve
do_swap-covered get_address address now f c shown e =
    let funded = button-funded f shown in
    let approved = button-approved f shown in
    elim (do_swap-cases get_address address now f c e) [
      | inl wraps ↦ subst IsCovered (sym wraps) (funded, omega arith)
      | inr (inl unwraps) ↦ subst IsCovered (sym unwraps) (funded, omega arith)
      | inr (inr (no_unwrap, (least, is_call))) ↦
          let way = path get_address f.wgmb f.t_in f.t_out in
          let amount =
            router_call-takes f.t_in f.t_out f.amount_in least way address (now / 1000 + 1200) in
          let pulled =
            router_call-pulls f.wgmb f.t_in f.t_out f.amount_in least way address
              (now / 1000 + 1200) (or_zero f.allowance) approved no_unwrap in
          subst IsCovered (sym is_call)
            (subst (λ n. n ≤ or_zero f.balance) (sym amount) funded, pulled)
    ]
  where
    IsCovered : Call → Type 0
    IsCovered x = (takes x ≤ or_zero f.balance) × (pulls x ≤ or_zero f.allowance)
