-- ===== src/Notifier/Tests.antt =====
-- The watcher at concrete rounds.
use gemba_blockchain.Base.{
  List, Text, [], arith, codes, false, keep, length, lookup, none, refl, some, suc, take, text_eq,
  true, zero, ℕ, ◌*◌, ◌+◌, ◌<◌, ◌∷◌, ◌≡◌, ◌≤◌, ◌⊎◌,
}
use gemba_blockchain.Strings.{to_lower, lower}
use gemba_blockchain.Notifier.Config.{
  IsChosen, Environment as ConfigEnvironment, config, config_with, required, config-mainnet,
  list_of, mainnet_urls,
}
use gemba_blockchain.Notifier.Mailer.{suppressed, threw, Watch, down_key, watch_url}
use gemba_blockchain.Notifier.Mailer.Laws.{failed_mail_loses_alert}
use gemba_blockchain.Notifier.Nakamoto.{
  Validator, bonded_of, total_tokens, coefficient_from, nakamoto,
}
use gemba_blockchain.Notifier.Nakamoto.Laws.{chosen, nakamoto-least}
use gemba_blockchain.Notifier.Nakamoto.Insertion.{put, insertion_sort, insertion_sort-IsSort}
use gemba_blockchain.Notifier.History.Laws.{IsHourly}

abbrev key : Text
key = codes "k"

abbrev url : Text
url = codes "u"

abbrev quiet : Watch
quiet = record { uptime = []; sent = [] }

failed_mail_loses_alert_example :
    let failed = watch_url 100 false 5 quiet url false in
    let next = watch_url 100 true 50 failed.0 url false in
    (failed.1 ≡ some (record { key = down_key url; delivery = threw }))
    × (next.1 ≡ some (record { key = down_key url; delivery = suppressed }))
    × (lookup url next.0.uptime ≡ some false)
unfolding lookup
failed_mail_loses_alert_example =
    failed_mail_loses_alert 100 5 50 quiet url refl refl (omega arith) (omega arith)

abbrev two_hours : List (ℕ × ℕ)
two_hours = (1, 7) ∷ (4_000_000, 8) ∷ []

-- So many snapshots, an hour and a millisecond apart.
abbrev hours : ℕ → ℕ → List (ℕ × ℕ)
hours zero t = []
hours (suc n) t = (t, 0) ∷ hours n (t + 3_600_001)

hours-IsHourly : (n t : ℕ) → IsHourly (hours n t)
hours-IsHourly zero t = tt
hours-IsHourly (suc zero) t = tt
hours-IsHourly (suc (suc n)) t = (omega arith, hours-IsHourly (suc n) (t + 3_600_001))

abbrev validator : Text → ℕ → Validator
validator name stake = record { operator = name; tokens = stake; jailed = false; is_bonded = true }

abbrev three : List Validator
three = validator (codes "a") 20 ∷ validator (codes "b") 50 ∷ validator (codes "c") 30 ∷ []

nakamoto-least_example :
    (total_tokens (bonded_of three) < total_tokens (take 1 (insertion_sort (bonded_of three))) * 3)
    × (1 ≤ length (chosen (false ∷ true ∷ true ∷ []) (insertion_sort (bonded_of three))))
unfolding nakamoto bonded_of total_tokens coefficient_from insertion_sort put chosen keep
nakamoto-least_example =
    nakamoto-least insertion_sort three 1 (false ∷ true ∷ true ∷ []) insertion_sort-IsSort refl
      (omega arith)

abbrev on_mainnet : ConfigEnvironment
on_mainnet = record {
  network = codes "Mainnet";
  cosmos_chain_id = [];
  evm_rpc = [];
  cosmos_rest = codes "http://rest";
  explorer_url = [];
  uptime_urls = [];
  denom = [];
  gemba_dispenser_address = codes "0xAb";
  reserve_addresses = [];
  smtp_host = [];
  mail_from = [];
  mail_to = [];
  gemba_chain_id = none;
  poll_ms = none;
  uptime_poll_ms = none;
  dry_run = false;
}

config-mainnet_example :
    let cfg = config_with on_mainnet (codes "http://rest") (codes "0xAb") in
    (0 < length on_mainnet.cosmos_rest)
    × (0 < length on_mainnet.gemba_dispenser_address)
    × (cfg.cosmos_rest ≡ on_mainnet.cosmos_rest)
    × (cfg.dispenser ≡ to_lower on_mainnet.gemba_dispenser_address)
    × ((on_mainnet.gemba_chain_id ≡ some cfg.chain_id)
        ⊎ ((on_mainnet.gemba_chain_id ≡ none) × (cfg.chain_id ≡ 821206)))
    × IsChosen on_mainnet.cosmos_chain_id (codes "gemba-1") cfg.cosmos_chain_id
    × IsChosen on_mainnet.evm_rpc (codes "https://gmb1.gembascan.io") cfg.evm_rpc
    × IsChosen on_mainnet.explorer_url (codes "https://gembascan.io") cfg.explorer
    × ((urls : Text) × IsChosen on_mainnet.uptime_urls mainnet_urls urls
        × (cfg.uptime_urls ≡ list_of urls))
unfolding config required to_lower lower
config-mainnet_example =
    config-mainnet on_mainnet (config_with on_mainnet (codes "http://rest") (codes "0xAb")) refl
      refl
