-- ===== src/LoadTest/Workload/Tests.antt =====
-- The workload at concrete wallets.
use gemba_blockchain.Base.{List, Text, [], codes, ◌+◌, ◌∷◌, ◌≤◌}
use gemba_blockchain.LoadTest.Workload.Credits.{unwrap_gmb, wrap_gmb}
use gemba_blockchain.LoadTest.Workload.Credits.Laws.{CreditEvent, mined, withdraws}
use gemba_blockchain.LoadTest.Workload.Market.{Market}
use gemba_blockchain.LoadTest.Workload.Market.Laws.{
  MarketEvent, lists, buys, cancels, listings, takings, open_count, takings_within_listings,
}
use gemba_blockchain.LoadTest.Workload.Governance.{mark_vote, apply_propose}
use gemba_blockchain.LoadTest.Workload.Governance.Laws.{Life, proposed}
use gemba_blockchain.LoadTest.Workload.Permits.{Permits, nonce_of}
use gemba_blockchain.LoadTest.Workload.Permits.Laws.{
  PermitEvent, signs, resolves, nonces, Consecutive, nonces-Consecutive,
}
use gemba_blockchain.LoadTest.Workload.Queues.{Mints, nft_transfer, queue_of}
use gemba_blockchain.LoadTest.Workload.Queues.Laws.{
  TokenEvent, minted, uses, mints_all, uses_all, occurrences, uses_within_mints,
}

abbrev ann : Text
ann = codes "a"

abbrev ben : Text
ben = codes "b"

abbrev wraps : List CreditEvent
wraps =
    withdraws unwrap_gmb ann
    ∷ mined wrap_gmb ann
    ∷ withdraws unwrap_gmb ann
    ∷ withdraws unwrap_gmb ben
    ∷ []

abbrev sales : List MarketEvent
sales = lists 7 ann 100 ∷ buys ann ∷ buys ben ∷ buys ben ∷ cancels ann ∷ []

abbrev empty_market : Market
empty_market = record { listed = []; cursor = 0 }

takings_within_listings_example :
    takings 7 empty_market sales ≤ open_count 7 empty_market.listed + listings 7 sales
takings_within_listings_example = takings_within_listings sales empty_market 7

abbrev voted : Life
voted = record (proposed 5 1000) { proposal = mark_vote ann (apply_propose 5 1000); votes_sent = 1 }

abbrev permits : Permits
permits = record { permit_nonce = (ann, 3) ∷ []; permit_in_flight = []; permits_by_spender = [] }

abbrev signings : List PermitEvent
signings =
    signs ann (λ i. i)
    ∷ signs ann (λ i. i)
    ∷ signs ben (λ i. i)
    ∷ resolves ann
    ∷ signs ann (λ i. i)
    ∷ []

nonces-Consecutive_example :
    Consecutive
      (λ m. [])
      (ann ∷ ben ∷ [])
      (nonce_of permits ann)
      (nonces (λ m. []) (ann ∷ ben ∷ []) ann permits signings)
nonces-Consecutive_example = nonces-Consecutive (λ m. []) (ann ∷ ben ∷ []) signings permits ann

abbrev fresh_mints : Mints
fresh_mints = record { seq = 1; owned = [] }

abbrev token_events : List TokenEvent
token_events =
    uses nft_transfer (ann ∷ ben ∷ []) (λ i. i) ann
    ∷ minted ann 1
    ∷ uses nft_transfer (ann ∷ ben ∷ []) (λ i. i) ann
    ∷ uses nft_transfer (ann ∷ ben ∷ []) (λ i. i) ann
    ∷ []

uses_within_mints_example :
    uses_all ann 1 fresh_mints token_events
    ≤ occurrences 1 (queue_of ann fresh_mints.owned) + mints_all ann 1 token_events
uses_within_mints_example = uses_within_mints token_events fresh_mints ann 1
