-- ===== src/Examples/StorageClients.antt =====
-- storagemarket/impl/clientstates at concrete deals.
use go_fil_markets.Prelude.{ℕ, ◌≡◌, refl, true, some, List, [], ◌∷◌, All}
use go_fil_markets.Prelude.Int.{pos}
use go_fil_markets.Fsm.{Paced, run, weighed, Adds, reference_engine}
use go_fil_markets.Storage.Status.{StorageDealStatus, same}
use go_fil_markets.Storage.Phases.{negotiating, sealing, phase, Reaches, Moves}
use go_fil_markets.Storage.Client.Deal.{ClientEvent, ClientDeal, client_machine}
use go_fil_markets.Storage.Client.Env.{Act, reserves_funds, trigger, triggers}
use go_fil_markets.Storage.Client.Table.{edges}
use go_fil_markets.Storage.Client.Actions.{action, fire}
use go_fil_markets.Storage.Client.Closing.{entry, entry_of, fail_deal}
use go_fil_markets.Storage.Client.Accepts.{accepted, client_entry-accepted}
use go_fil_markets.Storage.Client.Follows.{client_run-Reaches}
use go_fil_markets.Storage.Client.Funds.{added, SameDeal, funds, client_funds-run}
use go_fil_markets.Storage.Client.Release.{
  timed, given_back, failing_client_releases, write_failure_keeps_funds,
}
use go_fil_markets.Storage.Amounts.{tracked}
use go_fil_markets.Examples.StorageData.{
  texts, new_client_deal, funded_client_deal, failing_client_deal, storage_client_env,
}

-- A deal from its beginning to the sealing, with an event that comes too late.
abbrev to_sealing : List (ℕ × ClientEvent)
to_sealing =
    (1, ClientEvent.open_deal)
    ∷ (2, ClientEvent.funds_reserved (pos 2400000))
    ∷ (2, ClientEvent.funding_complete)
    ∷ (3, ClientEvent.initiate_data_transfer)
    ∷ (4, ClientEvent.data_transfer_queued 9)
    ∷ (5, ClientEvent.data_transfer_initiated 9)
    ∷ (8, ClientEvent.data_transfer_complete)
    ∷ (9, ClientEvent.deal_accepted (some 501))
    ∷ (9, ClientEvent.data_transfer_cancelled)
    ∷ (9, ClientEvent.funds_released (pos 2400000))
    ∷ (9, ClientEvent.deal_published 77)
    ∷ []

client_run-Reaches_example :
    Paced
      (fire (reference_engine client_machine) texts)
      (λ c d. Moves (phase c.state) (phase d.state))
      to_sealing
      new_client_deal
    × Reaches negotiating sealing
unfolding phase run fire edges action same
client_run-Reaches_example =
    client_run-Reaches (reference_engine client_machine) texts to_sealing new_client_deal

-- Funding a deal when the funds are there already.
abbrev reserving_deal : ClientDeal
reserving_deal = record new_client_deal { state = StorageDealStatus.reserve_client_funds }

abbrev reserving_acts : List Act
reserving_acts =
    reserves_funds 8 (pos 2400000)
    ∷ trigger (ClientEvent.funds_reserved (pos 2400000))
    ∷ trigger ClientEvent.funding_complete
    ∷ []

client_entry-accepted_example :
    All (λ e. accepted StorageDealStatus.reserve_client_funds e ≡ true) (triggers reserving_acts)
unfolding entry entry_of
client_entry-accepted_example =
    client_entry-accepted storage_client_env reserving_deal reserving_acts refl

client_funds-run_example :
    Adds SameDeal funds new_client_deal
      (weighed
        (fire (reference_engine client_machine) texts)
        (λ (e : ℕ × ClientEvent). added e.1)
        new_client_deal
        to_sealing)
      (run (fire (reference_engine client_machine) texts) new_client_deal to_sealing)
client_funds-run_example =
    client_funds-run (reference_engine client_machine) texts to_sealing new_client_deal

-- All that was reserved is given back.
failing_client_releases_example :
    ((run
        (fire (reference_engine client_machine) texts)
        failing_client_deal
        (timed (λ e. 20) (triggers (fail_deal failing_client_deal)))).state
      ≡ StorageDealStatus.error)
    × (tracked
          (run
            (fire (reference_engine client_machine) texts)
            failing_client_deal
            (timed (λ e. 20) (triggers (fail_deal failing_client_deal)))).funds_reserved
        ≡ pos 0)
    × (given_back (fail_deal failing_client_deal) ≡ pos 2400000)
failing_client_releases_example =
    failing_client_releases (reference_engine client_machine) texts (λ e. 20) failing_client_deal
      refl

-- The provider cannot be reached, and the restart of the client does not help.
write_failure_keeps_funds_example :
    (entry storage_client_env funded_client_deal
      ≡ some (trigger (ClientEvent.write_proposal_failed "no route") ∷ []))
    × ((run (fire (reference_engine client_machine) texts) funded_client_deal (
          (4, ClientEvent.write_proposal_failed "no route")
          ∷ (9, ClientEvent.client_restart)
          ∷ [])).state
        ≡ StorageDealStatus.error)
    × ((run (fire (reference_engine client_machine) texts) funded_client_deal (
          (4, ClientEvent.write_proposal_failed "no route")
          ∷ (9, ClientEvent.client_restart)
          ∷ [])).funds_reserved
        ≡ some (pos 2400000))
write_failure_keeps_funds_example =
    write_failure_keeps_funds (reference_engine client_machine) texts storage_client_env
      funded_client_deal "no route" 4 ((9, ClientEvent.client_restart) ∷ []) refl refl
