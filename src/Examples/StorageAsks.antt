-- ===== src/Examples/StorageAsks.antt =====
-- The ask of a storage provider, the beginning of a deal and the import of its data, at concrete
-- inputs.
use go_fil_markets.Prelude.{
  ◌%◌, ◌^◌, ◌+◌, ◌≡◌, ◌⊎◌, refl, true, false, sym, Option, none, some, List, [], ◌∷◌, ok, err,
  arith,
}
use go_fil_markets.Prelude.Int.{pos, ◌+ℤ◌}
use go_fil_markets.Retrieval.Params.{Cid}
use go_fil_markets.Storage.Proposal.{StorageAsk}
use go_fil_markets.Storage.Client.Deal.{ClientDeal}
use go_fil_markets.Storage.Provider.Deal.{MinerDeal, ProviderEvent}
use go_fil_markets.Disk.{Disk, Codec}
use go_fil_markets.Storage.Ask.{
  SignedAsk, NodeEnv, StoredAsk, SetAsk, min_piece_size, set_ask, save_ask, load_ask,
  new_stored_ask,
}
use go_fil_markets.Storage.AskKeeping.{run_calls, successes, seq_no_of, asks_survive}
use go_fil_markets.Storage.AskQuery.{ClientAskEnv, StorageProviderInfo, Linked, get_ask, handle_ask}
use go_fil_markets.Storage.AskAnswers.{Terms, set_price_asked}
use go_fil_markets.Storage.Proposing.{
  ProposeEnv, ProposeParams, prepared, comm_p, deal_proposal, begun_deal, propose_storage_deal,
}
use go_fil_markets.Storage.Receiving.{ReceiveEnv, handle_deal_stream}
use go_fil_markets.Storage.Begins.{Opened, SameDeal, message_of, begun_by_client, proposal_begun}
use go_fil_markets.Storage.Import.{ImportEnv, Imported, commitment, import_data_for_deal}
use go_fil_markets.Storage.Imports.{sent, Refused, Handed, import_data_for_deal-Outcome}
use go_fil_markets.Examples.StorageData.{payload, new_miner_deal}

-- A datastore that keeps the ask itself.
abbrev Memory : Type 0
Memory = Option SignedAsk

abbrev memory : Disk Memory SignedAsk
memory = record { get = λ s. ok s; put = λ s a. ok (some a); put_lem = λ s s' a h. sym h }

abbrev codec : Codec SignedAsk SignedAsk
codec = record { dump = λ a. ok a; read = λ a. ok a; read_lem = λ a b h. sym h }

abbrev node : NodeEnv
node = record {
  actor = 9;
  get_chain_head = ok (100, pos 900);
  get_chain_head_to_sign = ok (100, pos 900);
  dump_ask = λ a. ok 3;
  get_miner_worker_address = λ a t. ok 6;
  sign_bytes = λ w b. ok 12;
}

abbrev old_ask : SignedAsk
old_ask = record {
  ask = record {
    price = pos 500000000;
    verified_price = pos 50000000;
    min_piece_size = 256;
    max_piece_size = 1048576;
    miner = 9;
    timestamp = pos 10;
    expiry = pos 1000010;
    seq_no = 4;
  };
  signature = 11;
}

abbrev stored : StoredAsk Memory
stored = record { ask = some old_ask; store = some old_ask }

abbrev cheaper : SetAsk
cheaper = record {
  node = node;
  price = pos 300;
  verified_price = pos 30;
  duration = pos 500;
  options = min_piece_size 512 ∷ [];
}

-- The second of three calls fails.
abbrev calls : List SetAsk
calls =
    cheaper
    ∷ record cheaper { node = record node { get_chain_head = err "no node" } }
    ∷ cheaper
    ∷ []

asks_survive_example :
    (new_stored_ask memory codec node [] (ok (run_calls memory codec stored calls).store)
      ≡ ok (run_calls memory codec stored calls))
    × (seq_no_of (run_calls memory codec stored calls).ask
        ≡ some ((4 + successes memory codec stored calls) % 2 ^ 64))
unfolding load_ask
asks_survive_example =
    asks_survive memory codec stored old_ask calls node [] refl refl (omega arith)

calls_succeed : successes memory codec stored calls ≡ 2
unfolding set_ask save_ask
calls_succeed = refl

abbrev cheaper_ask : SignedAsk
cheaper_ask = record {
  ask = record {
    price = pos 300;
    verified_price = pos 30;
    min_piece_size = 512;
    max_piece_size = 1048576;
    miner = 9;
    timestamp = pos 900;
    expiry = pos 1400;
    seq_no = 5;
  };
  signature = 12;
}

abbrev cheaper_stored : StoredAsk Memory
cheaper_stored = record { ask = some cheaper_ask; store = some cheaper_ask }

price_set : set_ask memory codec cheaper stored ≡ ok cheaper_stored
unfolding set_ask save_ask ◌+ℤ◌
price_set = refl

abbrev provider_info : StorageProviderInfo
provider_info = record { address = 9; worker = 6; sector_size = 34359738368; peer_id = 5 }

abbrev asking_env : ClientAskEnv
asking_env = record {
  new_ask_stream = λ p. ok tt;
  write_ask_request = λ a. ok tt;
  read_ask_response = ok (handle_ask 9 (some cheaper_ask) 9, 3);
  get_chain_head = ok (101, pos 901);
  verify_signature = λ s a b t. ok true;
}

linked : Linked asking_env 9 (some cheaper_ask) provider_info
linked = record { bytes = 3; opens = refl; writes = refl; reads = refl }

set_price_asked_example :
    (a : StorageAsk) × (get_ask asking_env provider_info ≡ some (ok a)) × Terms cheaper a
set_price_asked_example =
    set_price_asked memory codec asking_env provider_info cheaper stored cheaper_stored 101
      (pos 901) linked price_set refl refl (λ s. refl)

abbrev terms : ProposeParams
terms = record {
  addr = 8;
  info = provider_info;
  data_ref = payload;
  start_epoch = pos 1000;
  end_epoch = pos 600000;
  price = pos 4;
  collateral = none;
  fast_retrieval = true;
  verified_deal = false;
}

abbrev proposing_env : ProposeEnv
proposing_env = record {
  get_chain_head = ok (100, pos 900);
  get_miner_info = λ a t. ok tt;
  get_blockstore = λ c. ok tt;
  prepare_car = λ c. ok tt;
  dump_car = λ c. ok tt;
  sum = λ c. ok (40, 2147483648);
  padded = λ n. 2147483648;
  unpadded = λ n. 2130706432;
  collateral_bounds = λ n v. ok (pos 50, pos 500);
  version = λ c. 1;
  base58 = λ c. ok "Qm";
  base64 = λ c. ok "m";
  new_label = λ s. ok 1;
  sign_proposal = λ a p. ok (p, 21);
  as_ipld = λ p s. ok 300;
  now = 1;
  cid_text = λ c. "cid";
  begin = λ c d. ok tt;
  send = λ c e. ok tt;
  add_peer = λ c a i p. ok tt;
}

abbrev proposed : ClientDeal
proposed = begun_deal terms 300 (deal_proposal terms 40 2147483648 (pos 50) 1) 21 1

has_begun : begun_by_client (propose_storage_deal proposing_env terms).acts ≡ some proposed
unfolding propose_storage_deal prepared comm_p
has_begun = refl

abbrev receiving_env : ReceiveEnv
receiving_env = record {
  read_deal_proposal = ok (message_of proposed);
  as_ipld = λ p s. ok 300;
  deals = λ c. err "not found";
  create_temp = ok "/tmp/300.car";
  close_temp = λ p. ok tt;
  remote_peer = 8;
  id = 5;
  now = 3;
  begin = λ c d. ok tt;
  add_stream = λ c. ok tt;
  send = λ c e. ok tt;
  sign = λ r. ok 12;
  write_deal_response = λ r s. ok tt;
}

proposal_begun_example :
    (d : MinerDeal) × Opened (handle_deal_stream receiving_env) d
    × SameDeal proposed d
    × (d.inbound_car ≡ "/tmp/300.car")
proposal_begun_example =
    proposal_begun proposing_env terms proposed receiving_env "not found" "/tmp/300.car" has_begun
      refl refl refl refl refl (λ d. refl) refl

-- The data of a deal whose piece is 40.
abbrev import_env : ImportEnv
import_env = record {
  deals = λ c. ok new_miner_deal;
  create_temp = ok "/tmp/import";
  copy = λ p. ok tt;
  size = λ p. 1000;
  seek = λ p. ok tt;
  get_proof_type = ok 8;
  padded_reader_size = λ n. 1016;
  generate_piece_cid = λ t p n. ok 39;
  padded_size = λ n. 1024;
  pad_comm_p = λ c n m. ok 40;
  cid_text = λ c. "cid";
  send = λ c e. ok tt;
}

import_data_for_deal-Outcome_example :
    Refused (import_data_for_deal import_env 300)
    ⊎ Handed import_env 300 (import_data_for_deal import_env 300)
import_data_for_deal-Outcome_example = import_data_for_deal-Outcome import_env 300

abbrev events : Imported → List (Cid × ProviderEvent)
events (acts, r) = sent acts

imported_data :
    events (import_data_for_deal import_env 300)
    ≡ (300, ProviderEvent.verified_data "/tmp/import" "") ∷ []
unfolding import_data_for_deal commitment
imported_data = refl
