-- ===== src/Swap/Tests.antt =====
-- The swap form at concrete forms.
use gemba_blockchain.Base.{Text, [], codes, false, none, refl, some, true, ◌∷◌, ◌≡◌, ◌≤◌}
use gemba_blockchain.Swap.{
  Form, coin, erc20, button, swap, do_swap, swap_tokens_for_eth, path, wrap_addr, same_token,
  same_pair, is_wrap, is_unwrap, is_wrap_unwrap, need_approve, needs, out, or_zero, min_out,
  router_call, is_unverified,
}
use gemba_blockchain.Swap.Laws.{takes, pulls, do_swap-covered}
use gemba_blockchain.Strings.{to_lower, lower}

abbrev pays : Form
pays = record {
  connected = true;
  right_chain = true;
  wgmb = codes "0xAb";
  t_in = erc20 (codes "0x1c") 18;
  t_out = coin;
  amount_in = 100;
  slip_bps = 50;
  quote = some 1000;
  quote_err = false;
  balance = some 250;
  allowance = some 100;
}

abbrev same : Text → Text
same a = a

pays-shown : button pays ≡ swap
unfolding button same_pair same_token is_wrap_unwrap is_wrap is_unwrap need_approve needs out
    or_zero to_lower lower
pays-shown = refl

pays-call :
    do_swap same (codes "0x7") 5000 pays
    ≡ some (swap_tokens_for_eth 100 995 (codes "0x1c" ∷ codes "0xAb" ∷ []) (codes "0x7") 1205)
unfolding do_swap is_wrap is_unwrap router_call path wrap_addr min_out or_zero same_token to_lower
    lower
pays-call = refl

do_swap-covered_example :
    let c = swap_tokens_for_eth 100 995 (codes "0x1c" ∷ codes "0xAb" ∷ []) (codes "0x7") 1205 in
    (takes c ≤ or_zero pays.balance) × (pulls c ≤ or_zero pays.allowance)
do_swap-covered_example =
    do_swap-covered same (codes "0x7") 5000 pays
      (swap_tokens_for_eth 100 995 (codes "0x1c" ∷ codes "0xAb" ∷ []) (codes "0x7") 1205) pays-shown
      pays-call

-- A token that was pasted in is flagged, WGMB in any case of its letters is not.
is_unverified_test : is_unverified pays.wgmb pays.t_in ≡ true
unfolding is_unverified same_token to_lower lower
is_unverified_test = refl

is_unverified_test_wgmb : is_unverified pays.wgmb (erc20 (codes "0xaB") 18) ≡ false
unfolding is_unverified same_token to_lower lower
is_unverified_test_wgmb = refl

-- Nothing is encoded for a slippage of over 100%.
min_out_test : min_out 1000 10100 ≡ none
unfolding min_out
min_out_test = refl
