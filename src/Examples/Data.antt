-- ===== src/Examples/Data.antt =====
-- The deals, nodes and stores that the examples share.
use go_fil_markets.Prelude.{ℕ, true, false, none, some, List, [], ◌∷◌, ok, err, if◌then◌else◌, ◌==◌}
use go_fil_markets.Prelude.Int.{ℤ, pos}
use go_fil_markets.Retrieval.Params.{Cid, Params}
use go_fil_markets.Retrieval.Status.{DealStatus}
use go_fil_markets.Retrieval.Voucher.{Node, ChannelState}
use go_fil_markets.Retrieval.Client.Deal.{DealProposal, PaymentInfo, ClientDealState}
use go_fil_markets.Retrieval.Client.Env.{DealPayment, ClientEnv, voucher}
use go_fil_markets.Retrieval.Provider.Deal.{DealInfo, PieceInfo, ProviderDealState}
use go_fil_markets.Retrieval.Provider.Env.{ProviderEnv, closed}
use go_fil_markets.Retrieval.Pieces.Failure.{failure, Found, found, failed}
use go_fil_markets.Retrieval.Pieces.Identity.{Index}
use go_fil_markets.Retrieval.Pieces.Search.{Store, stored, absent}
use go_fil_markets.Retrieval.Pricing.{Ask, Pricing}
use go_fil_markets.Retrieval.Query.{QueryEnv}
use go_fil_markets.Retrieval.Validation.Env.{ValidationEnv}

-- 3 a byte and 7 for unsealing, due at 10, 25, 45, … bytes.
abbrev pub terms : Params
terms = record {
  selector = none;
  piece_cid = none;
  price_per_byte = pos 3;
  payment_interval = 10;
  payment_interval_increase = 5;
  unseal_price = pos 7;
}

abbrev pub endless_terms : Params
endless_terms = record terms { payment_interval = 0; payment_interval_increase = 0 }

abbrev pub proposal : DealProposal
proposal = record { payload_cid = 50; id = 1; params = terms }

abbrev pub endless_proposal : DealProposal
endless_proposal = record { payload_cid = 50; id = 2; params = endless_terms }

abbrev pub client_info : PaymentInfo
client_info = record { pay_ch = 9; lane = 4 }

-- A client that has paid for 10 bytes and the unsealing, and has received 25.
abbrev pub client_deal : ClientDealState
client_deal = record {
  proposal = proposal;
  store_id = none;
  channel_id = some 6;
  last_payment_requested = false;
  all_blocks_received = false;
  total_funds = pos 1000;
  client_wallet = 11;
  miner_wallet = 12;
  payment_info = some client_info;
  status = DealStatus.ongoing;
  sender = 13;
  total_received = 25;
  message = "";
  bytes_paid_for = 10;
  current_interval = 25;
  payment_requested = pos 0;
  funds_spent = pos 37;
  unseal_funds_paid = pos 7;
  wait_msg_cid = none;
  voucher_shortfall = pos 0;
  legacy_protocol = false;
}

abbrev pub waiting_deal : ClientDealState
waiting_deal = record client_deal {
  status = DealStatus.wait_for_acceptance;
  payment_info = none;
  total_received = 0;
  bytes_paid_for = 0;
  current_interval = 10;
  funds_spent = pos 0;
  unseal_funds_paid = pos 0;
}

abbrev pub funding_deal : ClientDealState
funding_deal = record waiting_deal {
  status = DealStatus.payment_channel_adding_initial_funds;
  wait_msg_cid = some 70;
}

abbrev pub checking_deal : ClientDealState
checking_deal = record client_deal { status = DealStatus.check_funds }

-- A node that does what it is asked, but cannot wait for messages or read funds.
abbrev pub client_env : ClientEnv
client_env = record {
  open_data_transfer = λ p d. ok 6;
  send_data_transfer_voucher = λ c p. ok tt;
  close_data_transfer = λ c. ok tt;
  finalize_blockstore = λ i. ok tt;
  get_chain_head = ok 100;
  get_or_create_payment_channel = λ a b v t. ok (9, 0);
  wait_for_payment_channel_ready = λ c. err "no message";
  allocate_lane = λ a. ok 4;
  create_payment_voucher = λ a v l t. voucher 77;
  check_available_funds = λ a. err "no funds";
}

abbrev pub payment : DealPayment
payment = record { id = 1; payment_channel = 9; payment_voucher = 77 }

abbrev pub payment_node : Node
payment_node = record { as_payment = some payment; as_proposal = none; as_response = none }

abbrev pub proposal_node : Node
proposal_node = record { as_payment = none; as_proposal = some proposal; as_response = none }

-- A channel over which 25 bytes were sent, which ends with a payment.
abbrev pub channel : ChannelState
channel = record {
  channel_id = 6;
  other_peer = 14;
  recipient = 14;
  queued = 25;
  received = 0;
  in_finalization = true;
  completed = false;
  message = "";
  voucher = some proposal_node;
  last_voucher = payment_node;
  last_voucher_result = proposal_node;
}

abbrev pub deal_info : DealInfo
deal_info = record { deal_id = 30; sector_id = 31; offset = 0; length = 128 }

abbrev pub piece : PieceInfo
piece = record { piece_cid = 40; deals = deal_info ∷ [] }

abbrev pub dealless_piece : PieceInfo
dealless_piece = record { piece_cid = 41; deals = [] }

-- A provider's deal that waits for its last payment, with 37 received.
abbrev pub provider_deal : ProviderDealState
provider_deal = record {
  proposal = proposal;
  store_id = 0;
  channel_id = some 6;
  piece_info = some piece;
  status = DealStatus.funds_needed_last_payment;
  receiver = 14;
  funds_received = pos 37;
  message = "";
}

-- A node that finds in every voucher what the argument says.
abbrev pub provider_env : ℤ → ProviderEnv
provider_env amount = record {
  prepare_blockstore = λ i c. ok tt;
  delete_store = λ i. ok tt;
  resume_data_transfer = λ c. ok tt;
  close_data_transfer = λ c. closed;
  channel_state = λ c. ok channel;
  update_validation_status = λ c r. ok tt;
  get_chain_head = ok 100;
  save_payment_voucher = λ a v t. ok (some amount);
}

-- CID 50 is in the pieces 40 and 42, CID 51 in 41; CID 60 is an identity CID that holds 50 and 61,
-- an identity CID that holds 50.
abbrev pub identity_bytes : Cid → ℕ
identity_bytes c = if c == 60 then 20 else 10

abbrev pub identity_links : Cid → Found (List Cid)
identity_links c =
    if c == 60
    then found (50 ∷ 61 ∷ [])
    else if c == 61
    then found (50 ∷ [])
    else failed (failure "no identity CID")

abbrev pub block_pieces : Cid → Found (List Cid)
block_pieces c =
    if c == 50
    then found (40 ∷ 42 ∷ [])
    else if c == 51
    then found (41 ∷ [])
    else failed (failure "no pieces")

abbrev pub index : Index
index = record {
  is_identity = λ c. if c == 60 then true else c == 61;
  hash_bytes = identity_bytes;
  cid_text = λ c. "cid";
  linked = identity_links;
  pieces_with = block_pieces;
}

abbrev pub store : Store
store = record {
  index = index;
  record_of =
      λ c. if c == 40 then stored piece else if c == 41 then stored dealless_piece else absent;
  is_unsealed = λ s o l. ok true;
}

abbrev pub ask : Ask
ask = record {
  price_per_byte = pos 3;
  unseal_price = some (pos 7);
  payment_interval = 10;
  payment_interval_increase = 5;
}

abbrev pub pricing : Pricing
pricing = record {
  store = store;
  depth = 8;
  retrieval_pricing_input = λ c ds. ok (record {
    payload_cid = 0;
    piece_cid = c;
    piece_size = 128;
    client = 0;
    verified_deal = false;
    unsealed = false;
    current_ask = ask;
  });
  current_ask = some ask;
  pricing = λ i. ok i.current_ask;
}

abbrev pub query_env : QueryEnv
query_env = record {
  pricing = pricing;
  chain_head = ok 100;
  worker_address = λ t. ok 12;
  unpadded = λ n. n;
}

abbrev pub validation_env : ValidationEnv
validation_env = record {
  pricing = pricing;
  decider = none;
  begin = λ d. ok tt;
  send = λ i e. ok tt;
  get = λ i. ok provider_deal;
  all_selector = 1;
  err_rejected = "rejected";
}
