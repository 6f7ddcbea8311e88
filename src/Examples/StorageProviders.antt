-- ===== src/Examples/StorageProviders.antt =====
-- storagemarket/impl/providerstates and storagemarket/impl/provider.go at concrete deals.
use go_fil_markets.Prelude.{ℕ, ◌≡◌, refl, true, false, some, List, [], ◌∷◌, All}
use go_fil_markets.Prelude.Int.{pos}
use mathlib.Core.List.{Perm}
use go_fil_markets.Storage.Creation.{LatestFirst}
use go_fil_markets.Fsm.{Paced, run, reference_engine}
use go_fil_markets.Retrieval.Params.{Cid}
use go_fil_markets.Storage.Status.{StorageDealStatus, same}
use go_fil_markets.Storage.Phases.{negotiating, active, phase, Reaches, Moves}
use go_fil_markets.Storage.Provider.Deal.{ProviderEvent, MinerDeal, provider_machine}
use go_fil_markets.Storage.Provider.Env.{Act, sends_response, disconnects, trigger, triggers}
use go_fil_markets.Storage.Provider.Table.{edges}
use go_fil_markets.Storage.Provider.Actions.{action, fire}
use go_fil_markets.Storage.Provider.Handlers.{contains, wait_for_publish, intent}
use go_fil_markets.Storage.Provider.Closing.{entry, entry_of}
use go_fil_markets.Storage.Provider.Accepts.{accepted, provider_entry-accepted}
use go_fil_markets.Storage.Provider.Follows.{provider_run-Reaches}
use go_fil_markets.Storage.Provider.Release.{given_back, publication_releases}
use go_fil_markets.Storage.Amounts.{tracked}
use go_fil_markets.Storage.Listing.{by_creation, list_local_deals_page}
use go_fil_markets.Storage.Pages.{page_from_deal}
use go_fil_markets.Examples.StorageData.{
  new_miner_deal, publishing_deal, waiting_miner_deal, storage_provider_env,
}

-- A deal from its beginning until it is active, over a restart of the provider.
abbrev to_active : List ProviderEvent
to_active =
    ProviderEvent.open_deal
    ∷ ProviderEvent.deal_deciding
    ∷ ProviderEvent.data_requested
    ∷ ProviderEvent.data_transfer_initiated 9
    ∷ ProviderEvent.provider_restart
    ∷ ProviderEvent.data_transfer_restarted 9
    ∷ ProviderEvent.data_transfer_completed
    ∷ ProviderEvent.verified_data "" "/tmp/300.meta"
    ∷ ProviderEvent.funded
    ∷ ProviderEvent.deal_publish_initiated 501
    ∷ ProviderEvent.deal_published 77 502
    ∷ ProviderEvent.deal_handed_off
    ∷ ProviderEvent.deal_precommitted 12
    ∷ ProviderEvent.deal_activated
    ∷ ProviderEvent.finalized
    ∷ []

provider_run-Reaches_example :
    Paced
      (fire (reference_engine provider_machine))
      (λ c d. Moves (phase c.state) (phase d.state))
      to_active
      new_miner_deal
    × Reaches negotiating active
unfolding phase run fire edges action same
provider_run-Reaches_example =
    provider_run-Reaches (reference_engine provider_machine) to_active new_miner_deal

abbrev deciding_acts : List Act
deciding_acts =
    sends_response (intent waiting_miner_deal)
    ∷ disconnects 300
    ∷ trigger ProviderEvent.data_requested
    ∷ []

provider_entry-accepted_example :
    All (λ e. accepted StorageDealStatus.accept_wait e ≡ true) (triggers deciding_acts)
unfolding entry entry_of
provider_entry-accepted_example =
    provider_entry-accepted storage_provider_env waiting_miner_deal deciding_acts refl

publication_releases_example :
    (acts : List Act) × (wait_for_publish storage_provider_env publishing_deal (some 501)
      ≡ some acts)
    × (((run (fire (reference_engine provider_machine)) publishing_deal (triggers acts)).state
          ≡ StorageDealStatus.staged)
        × (tracked
              (run
                (fire (reference_engine provider_machine))
                publishing_deal
                (triggers acts)).funds_reserved
            ≡ pos 0)
        × (given_back acts ≡ pos 50))
publication_releases_example =
    publication_releases (reference_engine provider_machine) storage_provider_env publishing_deal
      501 502 77 refl refl refl

-- Three deals, the latest first.
abbrev deal_at : Cid → ℕ → MinerDeal
deal_at c t = record new_miner_deal { proposal_cid = c; creation_time = t }

abbrev stored_deals : List MinerDeal
stored_deals = deal_at 300 3 ∷ deal_at 302 5 ∷ deal_at 301 4 ∷ []

latest_first : by_creation stored_deals ≡ deal_at 302 5 ∷ deal_at 301 4 ∷ deal_at 300 3 ∷ []
unfolding by_creation
latest_first = refl

page_from_deal_example :
    Perm (deal_at 302 5 ∷ deal_at 301 4 ∷ deal_at 300 3 ∷ []) stored_deals
    × LatestFirst (deal_at 302 5 ∷ deal_at 301 4 ∷ deal_at 300 3 ∷ [])
    × (list_local_deals_page (some 302) 1 1 stored_deals ≡ deal_at 301 4 ∷ [])
page_from_deal_example =
    page_from_deal 302 1 1 stored_deals [] (deal_at 301 4 ∷ deal_at 300 3 ∷ []) (deal_at 302 5)
      latest_first refl tt (refl, (refl, tt))

lacks_funds : contains "message: not enough funds in wallet" "not enough funds" ≡ true
unfolding contains
lacks_funds = refl

lacks_nothing : contains "message: no route" "not enough funds" ≡ false
unfolding contains
lacks_nothing = refl
