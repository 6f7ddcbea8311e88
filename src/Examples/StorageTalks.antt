-- ===== src/Examples/StorageTalks.antt =====
-- The storage client and the storage provider together, at concrete deals.
use go_fil_markets.Prelude.{◌==◌, ◌≡◌, ◌↔◌, refl, true, some, [], ◌∷◌, ok, err, if◌then◌else◌}
use go_fil_markets.Prelude.Int.{pos, ◌+ℤ◌}
use go_fil_markets.Fsm.{reference_engine}
use go_fil_markets.Storage.Status.{StorageDealStatus}
use go_fil_markets.Storage.Client.Deal.{ClientDeal, ClientEvent}
use go_fil_markets.Storage.Client.Env.{ClientEnv, SignedResponse, starts_transfer, trigger}
use go_fil_markets.Storage.Client.Handlers.{
  initiate_data_transfer, verified_event, check_for_deal_acceptance,
}
use go_fil_markets.Storage.Provider.Deal.{provider_machine}
use go_fil_markets.Storage.Provider.Closing.{entry}
use go_fil_markets.Storage.Requests.{PushDeals, validate_push}
use go_fil_markets.Storage.Protocol.{
  Belongs, waiting, taken_on, first_act, push_accepted_iff, push_agreed,
}
use go_fil_markets.Storage.StatusQuery.{
  AnswerEnv, AskEnv, sign, handle_deal_status, get_provider_deal_state,
}
use go_fil_markets.Storage.Polling.{Trouble, Connected, Polls, own_error_fails_deal}
use go_fil_markets.Examples.StorageData.{
  new_client_deal, waiting_miner_deal, storage_client_env, storage_provider_env,
}

abbrev push_deals : PushDeals
push_deals c =
    if c == 300
    then ok (waiting (reference_engine provider_machine) waiting_miner_deal)
    else err "not found"

push_accepted_iff_example :
    (validate_push (λ c. "cid") (some push_deals) (ok 300) 70 ≡ ok true)
    ↔ Belongs push_deals (ok 300) 70
push_accepted_iff_example = push_accepted_iff (λ c. "cid") push_deals (ok 300) 70

abbrev starting_deal : ClientDeal
starting_deal = record new_client_deal { state = StorageDealStatus.start_data_transfer }

abbrev consent : SignedResponse
consent = record {
  state = StorageDealStatus.waiting_for_data;
  message = "";
  proposal = 300;
  signature = some 5;
  bytes = 6;
}

push_agreed_example :
    (entry storage_provider_env waiting_miner_deal ≡ some (taken_on waiting_miner_deal))
    × (verified_event consent (ok true) ≡ ClientEvent.initiate_data_transfer)
    × (first_act (initiate_data_transfer storage_client_env starting_deal)
        ≡ some (starts_transfer 5 300 70))
    × (validate_push (λ c. "cid") (some push_deals) (ok 300) 70 ≡ ok true)
push_agreed_example =
    push_agreed (reference_engine provider_machine) (λ c. "cid") push_deals storage_provider_env
      storage_client_env starting_deal waiting_miner_deal consent "" refl refl refl refl refl refl
      refl

-- A client that polls.
abbrev polling_deal : ClientDeal
polling_deal = record new_client_deal { state = StorageDealStatus.check_for_acceptance }

-- The provider's datastore fails.
abbrev answer_env : AnswerEnv
answer_env = record {
  deals = λ c. err "datastore closed";
  dump = λ c. ok 4;
  get_chain_head = ok (100, pos 5);
  verify = λ s a b t. ok true;
  actor = 30;
  get_chain_head_to_sign = ok (101, pos 6);
  dump_state = λ s. ok 7;
  get_miner_worker_address = λ a t. ok 31;
  sign_bytes = λ a m. ok 8;
}

abbrev ask_env : AskEnv
ask_env = record {
  deals = λ c. ok polling_deal;
  open_stream = λ p. ok tt;
  dump = λ c. ok 4;
  sign_bytes = λ a b. ok 3;
  write_request = λ c s. ok tt;
  read_response = λ c s. handle_deal_status answer_env c s;
  verify_response = λ a s n. ok true;
}

abbrev polling_env : ClientEnv
polling_env = record storage_client_env {
  get_provider_deal_state = get_provider_deal_state ask_env;
}

connected : Connected ask_env answer_env polling_deal
unfolding sign
connected = record {
  bytes = 4;
  signature = 3;
  known = refl;
  opens = refl;
  dumps = refl;
  signs = refl;
  writes = refl;
  reads = refl;
  mine = λ s. 8;
  answers = λ s. refl;
  believes = λ s. refl;
}

polls : Polls ask_env answer_env polling_deal connected polling_env
unfolding ◌+ℤ◌
polls = record { asks = refl; in_time = refl }

own_error_fails_deal_example :
    check_for_deal_acceptance polling_env polling_deal
    ≡ some (trigger (ClientEvent.deal_rejected StorageDealStatus.error "no such proposal") ∷ [])
own_error_fails_deal_example =
    own_error_fails_deal ask_env answer_env polling_deal connected polling_env "no such proposal"
      polls (Trouble.not_found refl)
