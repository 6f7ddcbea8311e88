-- ===== src/Examples/Storage.antt =====
-- storagemarket/impl/providerstates/provider_states.go at a concrete proposal.
use go_fil_markets.Prelude.{ℕ, suc, ◌*◌, ◌^◌, ◌<◌, ◌≡◌, refl, true, none, some, ok, arith}
use go_fil_markets.Prelude.Int.{ℤ, pos, ◌+ℤ◌, ◌-ℤ◌, ◌*ℤ◌, ◌/ℤ◌}
use go_fil_markets.Storage.Proposal.{StorageAsk, StorageProposal}
use go_fil_markets.Storage.Validation.{
  ProposalEnv, refuse_if, check_data_cap, check_verified, check_balance, min_price, check_ask,
  check_collateral, check_epochs, check_form, check_proposal, validate_deal_proposal,
}
use go_fil_markets.Storage.Acceptable.{Acceptable, validate_deal_proposal-Acceptable}
use go_fil_markets.Storage.Pricing.{accepted_price}

-- 10 for a GiB and an epoch.
abbrev pub storage_ask : StorageAsk
storage_ask = record {
  price = pos 10;
  verified_price = pos 2;
  min_piece_size = 256;
  max_piece_size = 34359738368;
  miner = 5;
  timestamp = pos 0;
  expiry = pos 100000;
  seq_no = 1;
}

abbrev pub storage_proposal : StorageProposal
storage_proposal = record {
  piece_cid = 40;
  piece_size = 2147483648;
  verified_deal = true;
  client = 8;
  provider = 5;
  label_length = 12;
  start_epoch = pos 1000;
  end_epoch = pos 601000;
  storage_price_per_epoch = pos 4;
  provider_collateral = pos 50;
  client_collateral = pos 0;
}

abbrev pub proposal_env : ProposalEnv
proposal_env = record {
  address = 5;
  ask = storage_ask;
  chain_head = ok (100, pos 900);
  dump = λ p. ok 3;
  client_signature = 5;
  verify_signature = λ s a b t. ok true;
  collateral_bounds = λ n v. ok (pos 50, pos 100);
  balance_available = λ a t. ok (pos 2400000);
  data_cap = λ a t. ok (some (pos 4294967296));
  piece_size_error = λ n. none;
  is_piece_cid = λ c. true;
  duration_bounds = λ n. (pos 518400, pos 1555200);
  duration = λ p. p.end_epoch -ℤ p.start_epoch;
  client_balance_requirement = λ p. p.storage_price_per_epoch *ℤ pos 600000;
  max_extension = pos 1500000;
}

accepted_run : validate_deal_proposal proposal_env storage_proposal ≡ ok tt
unfolding validate_deal_proposal check_proposal check_form check_epochs check_collateral check_ask
    check_balance check_verified check_data_cap min_price refuse_if ◌+ℤ◌ ◌-ℤ◌ ◌*ℤ◌ ◌/ℤ◌
accepted_run = refl

validate_deal_proposal-Acceptable_example :
    (tok : ℕ) × (epoch : ℤ) × (proposal_env.chain_head ≡ ok (tok, epoch))
    × Acceptable proposal_env tok epoch storage_proposal
validate_deal_proposal-Acceptable_example =
    validate_deal_proposal-Acceptable proposal_env storage_proposal accepted_run

accepted_price_example : 2 * 2147483648 < suc 4 * 2 ^ 30
accepted_price_example =
    accepted_price proposal_env storage_proposal 2 4 refl refl (omega arith) accepted_run
