-- ===== src/Examples/StorageData.antt =====
-- Storage deals and their environments, for the runs of the storage market.
use go_fil_markets.Prelude.{true, false, none, some, [], ok, err}
use go_fil_markets.Prelude.Int.{pos}
use go_fil_markets.Storage.Status.{StorageDealStatus}
use go_fil_markets.Storage.Client.Deal.{DataRef, ClientDeal, Texts}
use go_fil_markets.Storage.Client.Env.{ClientEnv, landed, pre_committed, expires}
use go_fil_markets.Storage.Provider.Deal.{MinerDeal}
use go_fil_markets.Storage.Provider.Env.{ProviderEnv}
use go_fil_markets.Examples.Storage.{storage_proposal, proposal_env}

abbrev pub payload : DataRef
payload = record {
  transfer_type = "graphsync";
  root = 70;
  piece_cid = some 40;
  piece_size = 2130706432;
  raw_block_size = 0;
}

abbrev pub texts : Texts
texts = record { cid_text = λ c. "cid"; channel_text = λ c. "channel"; peer_text = λ p. "peer" }

-- A deal that begins.
abbrev pub new_client_deal : ClientDeal
new_client_deal = record {
  proposal = storage_proposal;
  client_signature = 21;
  proposal_cid = 300;
  add_funds_cid = none;
  state = StorageDealStatus.unknown;
  miner = 5;
  miner_worker = 6;
  deal_id = 0;
  data_ref = payload;
  message = "";
  deal_stages = some [];
  publish_message = none;
  slash_epoch = pos 0;
  poll_retry_count = 0;
  poll_error_count = 0;
  fast_retrieval = true;
  funds_reserved = none;
  creation_time = 1;
  transfer_channel_id = none;
  sector_number = 0;
}

abbrev pub funded_client_deal : ClientDeal
funded_client_deal = record new_client_deal {
  state = StorageDealStatus.funds_reserved;
  funds_reserved = some (pos 2400000);
}

abbrev pub failing_client_deal : ClientDeal
failing_client_deal = record funded_client_deal { state = StorageDealStatus.failing }

-- The provider cannot be reached; all else goes well.
abbrev pub storage_client_env : ClientEnv
storage_client_env = record {
  clean_blockstore = λ c. ok tt;
  new_deal_stream = λ p. err "no route";
  write_deal_proposal = λ p. ok tt;
  read_deal_response = err "no route";
  start_data_transfer = λ p c r. ok 9;
  restart_data_transfer = λ c. ok tt;
  get_provider_deal_state = λ c. err "no route";
  timer_fires = true;
  reserve_funds = λ w a f. ok 0;
  release_funds = λ a f. ok tt;
  wait_for_message = λ c. some landed;
  get_chain_head = ok (100, pos 900);
  verify_signature = λ s a b t. ok true;
  validate_published_deal = λ d. ok 77;
  on_deal_sector_pre_committed = λ a i p c. ok (some (pre_committed 12));
  on_deal_sector_committed = λ a i n p c. ok (some (ok tt));
  on_deal_expired_or_slashed = λ i. ok (some expires);
  client_balance_requirement = λ p. pos 2400000;
}

abbrev pub new_miner_deal : MinerDeal
new_miner_deal = record {
  proposal = storage_proposal;
  client_signature = 21;
  proposal_cid = 300;
  add_funds_cid = none;
  publish_cid = none;
  miner = 5;
  client = 8;
  state = StorageDealStatus.unknown;
  piece_path = "";
  metadata_path = "";
  slash_epoch = pos 0;
  fast_retrieval = true;
  message = "";
  funds_reserved = none;
  ref = payload;
  available_for_retrieval = false;
  deal_id = 0;
  creation_time = 3;
  transfer_channel_id = none;
  sector_number = 0;
  inbound_car = "/tmp/300.car";
}

abbrev pub publishing_deal : MinerDeal
publishing_deal = record new_miner_deal {
  state = StorageDealStatus.publishing;
  publish_cid = some 501;
  funds_reserved = some (pos 50);
}

abbrev pub failing_miner_deal : MinerDeal
failing_miner_deal = record publishing_deal { state = StorageDealStatus.failing }

abbrev pub waiting_miner_deal : MinerDeal
waiting_miner_deal = record new_miner_deal { state = StorageDealStatus.accept_wait }

-- A provider for which all goes well.
abbrev pub storage_provider_env : ProviderEnv
storage_provider_env = record {
  validation = proposal_env;
  run_custom_decision_logic = λ d. ok (true, "");
  send_signed_response = λ r. ok tt;
  timeout_fires = false;
  finalize_blockstore = λ c. ok tt;
  generate_piece_commitment = λ c p n. ok (40, "/tmp/300.meta");
  get_chain_head = ok (100, pos 900);
  get_miner_worker_address = λ a t. ok 6;
  reserve_funds = λ w a f. ok 0;
  wait_for_message = λ c. some landed;
  publish_deals = λ d. ok 501;
  wait_for_publish_deals = λ c p. ok (77, 502);
  open_file = λ p. err "no such file";
  read_car = λ p. ok (record { data_reader = ok 4; data_size = 1000; close = ok tt });
  inflate = λ p n m. ok tt;
  unpadded = λ n. n;
  on_deal_complete = λ d n p. ok (record { sector_number = 12; offset = 0; size = 2147483648 });
  load_block_locations = λ p. ok [];
  add_piece_block_locations = λ c l. ok tt;
  add_deal_for_piece = λ c p i. ok tt;
  on_deal_sector_pre_committed = λ a i p c. ok (some (pre_committed 12));
  on_deal_sector_committed = λ a i n p c. ok (some (ok tt));
  on_deal_expired_or_slashed = λ i. ok (some expires);
  cid_text = λ c. "cid";
  cid_pointer_text = λ c. "cid";
}
