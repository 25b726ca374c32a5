-- ===== src/Notifier/Config.antt =====
-- services/blockchain-notifier/src/config.js: the settings of a network and what mainnet requires. A variable
-- that is not set is empty; numbers are those that their texts stand for.
use gemba_blockchain.Base.{
  ==_iff, Bool, List, Option, Option-cases, Text, [], ap, arith, codes, eqb, if◌then◌else◌, inl,
  inr, keep, length, ltb, map, none, refl, some, subst, sym, text_eq, true, ℕ, ◌++◌, ◌<◌, ◌==◌,
  ◌||◌, ◌∙◌, ◌∷◌, ◌≡◌, ◌⊎◌,
}
use gemba_blockchain.Strings.{to_lower, split, trim}

pub record Environment : Type 0 where
  pub network : Text
  pub cosmos_chain_id : Text
  pub evm_rpc : Text
  pub cosmos_rest : Text
  pub explorer_url : Text
  pub uptime_urls : Text
  pub denom : Text
  pub gemba_dispenser_address : Text
  pub reserve_addresses : Text
  pub smtp_host : Text
  pub mail_from : Text
  pub mail_to : Text
  pub gemba_chain_id : Option ℕ
  pub poll_ms : Option ℕ
  pub uptime_poll_ms : Option ℕ
  pub dry_run : Bool

-- `a || b` on texts.
abbrev pub or_text : Text → Text → Text
or_text [] b = b
or_text (c ∷ s) b = c ∷ s

-- `s.split(',').map((s) => s.trim()).filter(Boolean)`.
unfoldable pub list_of : Text → List Text
list_of s = keep (λ t. ltb 0 (length t)) (map trim (split b',' s))

pub record Config : Type 0 where
  pub network : Text
  pub chain_id : ℕ
  pub cosmos_chain_id : Text
  pub evm_rpc : Text
  pub cosmos_rest : Text
  pub explorer : Text
  pub uptime_urls : List Text
  pub denom : Text
  pub dispenser : Text
  pub reserves : List Text
  pub poll_ms : ℕ
  pub uptime_poll_ms : ℕ
  pub mail_from : Text
  pub mail_to : Text
  pub dry_run : Bool

abbrev pub or_number : Option ℕ → ℕ → ℕ
or_number o d = elim o [ none ↦ d | some n ↦ n ]

abbrev testnet_urls : Text
testnet_urls =
    codes
      "https://rpc1.gembascan.io,https://rpc2.gembascan.io,https://rpc3.gembascan.io,https://testnet.gembascan.io"

abbrev pub mainnet_urls : Text
mainnet_urls =
    codes
      "https://gmb1.gembascan.io,https://gmb2.gembascan.io,https://gmb3.gembascan.io,https://gembascan.io"

abbrev testnet_rest : Text
testnet_rest = codes "http://13.140.148.137:1317"

abbrev testnet_dispenser : Text
testnet_dispenser = codes "0x0EB298466F862E548d2416a75d3D108E503bD2Cf"

abbrev reserve_list : Text
reserve_list =
    codes
      "cosmos1s32mhm7c0eest48njscsr5fnn2c42mr9w8cnqe,cosmos17s95c5jpc6x2l3edwh4dm8yhac68yru7cre47d"

abbrev pub is_mainnet : Environment → Bool
is_mainnet env = to_lower (or_text env.network (codes "testnet")) == codes "mainnet"

-- `process.env.X || (isMainnet ? missing('X') : d)`: nothing where `missing` throws.
unfoldable pub required : Bool → Text → Text → Option Text
required mainnet given default =
    if ltb 0 (length given) then some given else if mainnet then none else some default

-- `cfg` from the two values that have no safe default.
unfoldable pub config_with : Environment → Text → Text → Config
config_with env cosmos_rest dispenser =
    let network = to_lower (or_text env.network (codes "testnet")) in
    let mainnet = is_mainnet env in
    let pick : Text → Text → Text → Text =
      λ given main test. or_text given (if mainnet then main else test) in
    record {
      network = network;
      chain_id = or_number env.gemba_chain_id (if mainnet then 821206 else 821207);
      cosmos_chain_id = pick env.cosmos_chain_id (codes "gemba-1") (codes "gemba-testnet-1");
      evm_rpc =
          pick env.evm_rpc (codes "https://gmb1.gembascan.io") (codes "https://rpc1.gembascan.io");
      cosmos_rest = cosmos_rest;
      explorer =
          pick env.explorer_url (codes "https://gembascan.io")
            (codes "https://testnet.gembascan.io");
      uptime_urls = list_of (pick env.uptime_urls mainnet_urls testnet_urls);
      denom = or_text env.denom (codes "agmb");
      dispenser = to_lower dispenser;
      reserves = list_of (or_text env.reserve_addresses reserve_list);
      poll_ms = or_number env.poll_ms 30000;
      uptime_poll_ms = or_number env.uptime_poll_ms 120000;
      mail_from = or_text env.mail_from (network ++ codes "@gembachain.io");
      mail_to = or_text env.mail_to (codes "contacts@gembachain.io");
      dry_run = env.dry_run || eqb (length env.smtp_host) 0;
    }

-- `cfg`, or nothing where it throws.
unfoldable pub config : Environment → Option Config
config env = elim (required (is_mainnet env) env.cosmos_rest testnet_rest) [
  | none ↦ none
  | some rest ↦ elim (required (is_mainnet env) env.gemba_dispenser_address testnet_dispenser) [
    | none ↦ none
    | some dispenser ↦ some (config_with env rest dispenser)
  ]
]

required-given :
    (mainnet : Bool) (given default value : Text)
    → mainnet ≡ true
    → required mainnet given default ≡ some value
    → (0 < length given) × (value ≡ given)
unfolding required
required-given mainnet given default value main found = ground (arith, main, found)

config-parts :
    (env : Environment) (cfg : Config)
    → config env ≡ some cfg
    → (rest : Text) × (dispenser : Text) × (required (is_mainnet env) env.cosmos_rest testnet_rest
        ≡ some rest)
      × (required (is_mainnet env) env.gemba_dispenser_address testnet_dispenser ≡ some dispenser)
      × (config_with env rest dispenser ≡ cfg)
unfolding config
config-parts env cfg built =
    elim (Option-cases (required (is_mainnet env) env.cosmos_rest testnet_rest)) [
      | inl unset ↦ absurd (ground (arith, built, unset))
      | inr (rest, found) ↦
          elim (Option-cases
            (required (is_mainnet env) env.gemba_dispenser_address testnet_dispenser)) [
              | inl unset ↦ absurd (ground (arith, built, found, unset))
              | inr (dispenser, found') ↦
                  (rest, dispenser, found, found', ground (arith, built, found, found'))
            ]
    ]

config_with-mainnet :
    (env : Environment) (rest dispenser : Text)
    → is_mainnet env ≡ true
    → let cfg = config_with env rest dispenser in
      (cfg.cosmos_rest ≡ rest)
      × (cfg.dispenser ≡ to_lower dispenser)
      × (cfg.chain_id ≡ or_number env.gemba_chain_id 821206)
      × (cfg.cosmos_chain_id ≡ or_text env.cosmos_chain_id (codes "gemba-1"))
      × (cfg.evm_rpc ≡ or_text env.evm_rpc (codes "https://gmb1.gembascan.io"))
      × (cfg.explorer ≡ or_text env.explorer_url (codes "https://gembascan.io"))
      × (cfg.uptime_urls ≡ list_of (or_text env.uptime_urls mainnet_urls))
unfolding config_with
config_with-mainnet env rest dispenser main =
    (refl, refl, rw main refl, rw main refl, rw main refl, rw main refl, rw main refl)

-- A text of the environment, or the default where it is not set.
abbrev pub IsChosen : Text → Text → Text → Type 0
IsChosen given default chosen =
    ((0 < length given) × (chosen ≡ given)) ⊎ ((given ≡ []) × (chosen ≡ default))

or_text-IsChosen : (given default : Text) → IsChosen given default (or_text given default)
or_text-IsChosen [] default = inr (refl, refl)
or_text-IsChosen (c ∷ s) default = inl (omega arith, refl)

or_number-chosen :
    (o : Option ℕ) (d : ℕ) → (o ≡ some (or_number o d)) ⊎ ((o ≡ none) × (or_number o d ≡ d))
or_number-chosen none d = inr (refl, refl)
or_number-chosen (some n) d = inl refl

named_mainnet :
    (network : Text)
    → to_lower network ≡ codes "mainnet"
    → (to_lower (or_text network (codes "testnet")) == codes "mainnet") ≡ true
unfolding to_lower
named_mainnet [] h = ground (arith, h)
named_mainnet (c ∷ s) h = (==_iff (to_lower (c ∷ s)) (codes "mainnet")).1 h

-- Where the environment names mainnet, in any case, the REST address and the dispenser are those
-- that the environment sets, and the chain ids, the RPC, the explorer and the probed URLs are the
-- environment's or, where it sets none, mainnet's.
pub config-mainnet :
    (env : Environment) (cfg : Config)
    → to_lower env.network ≡ codes "mainnet"
    → config env ≡ some cfg
    → (0 < length env.cosmos_rest)
      × (0 < length env.gemba_dispenser_address)
      × (cfg.cosmos_rest ≡ env.cosmos_rest)
      × (cfg.dispenser ≡ to_lower env.gemba_dispenser_address)
      × ((env.gemba_chain_id ≡ some cfg.chain_id)
          ⊎ ((env.gemba_chain_id ≡ none) × (cfg.chain_id ≡ 821206)))
      × IsChosen env.cosmos_chain_id (codes "gemba-1") cfg.cosmos_chain_id
      × IsChosen env.evm_rpc (codes "https://gmb1.gembascan.io") cfg.evm_rpc
      × IsChosen env.explorer_url (codes "https://gembascan.io") cfg.explorer
      × ((urls : Text) × IsChosen env.uptime_urls mainnet_urls urls
          × (cfg.uptime_urls ≡ list_of urls))
config-mainnet env cfg named built =
    let main : is_mainnet env ≡ true = named_mainnet env.network named in
    let (rest, dispenser, found, found', made) = config-parts env cfg built in
    let given = required-given (is_mainnet env) env.cosmos_rest testnet_rest rest main found in
    let given' =
      required-given (is_mainnet env) env.gemba_dispenser_address testnet_dispenser dispenser main
        found' in
    let settings = config_with-mainnet env rest dispenser main in
    let id = ap (λ c. c.chain_id) (sym made) ∙ settings.2 in
    (
      given.0,
      given'.0,
      ap (λ c. c.cosmos_rest) (sym made) ∙ settings.0 ∙ given.1,
      ap (λ c. c.dispenser) (sym made) ∙ settings.1 ∙ ap to_lower given'.1,
      subst (λ n. (env.gemba_chain_id ≡ some n) ⊎ ((env.gemba_chain_id ≡ none) × (n ≡ 821206)))
          (sym id) (or_number-chosen env.gemba_chain_id 821206),
      subst (IsChosen env.cosmos_chain_id (codes "gemba-1"))
          (sym (ap (λ c. c.cosmos_chain_id) (sym made) ∙ settings.3))
          (or_text-IsChosen env.cosmos_chain_id (codes "gemba-1")),
      subst (IsChosen env.evm_rpc (codes "https://gmb1.gembascan.io"))
          (sym (ap (λ c. c.evm_rpc) (sym made) ∙ settings.4))
          (or_text-IsChosen env.evm_rpc (codes "https://gmb1.gembascan.io")),
      subst (IsChosen env.explorer_url (codes "https://gembascan.io"))
          (sym (ap (λ c. c.explorer) (sym made) ∙ settings.5))
          (or_text-IsChosen env.explorer_url (codes "https://gembascan.io")),
      (
        or_text env.uptime_urls mainnet_urls,
        or_text-IsChosen env.uptime_urls mainnet_urls,
        ap (λ c. c.uptime_urls) (sym made) ∙ settings.6,
      ),
    )
