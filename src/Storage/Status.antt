-- ===== src/Storage/Status.antt =====
-- storagemarket/dealstatus.go: the states of a storage deal, with the codes that iota gives them,
-- and the texts that a deal's log takes for them. A code outside these is not modelled.
use go_fil_markets.Prelude.{ℕ, Bool, ◌==◌, String}

pub data StorageDealStatus : Type 0 where
  unknown proposal_not_found proposal_rejected proposal_accepted : StorageDealStatus
  staged sealing finalizing active : StorageDealStatus
  expired slashed rejecting failing : StorageDealStatus
  funds_reserved check_for_acceptance validating accept_wait : StorageDealStatus
  start_data_transfer transferring waiting_for_data verify_data : StorageDealStatus
  reserve_provider_funds reserve_client_funds provider_funding client_funding : StorageDealStatus
  publish publishing error provider_transfer_await_restart : StorageDealStatus
  client_transfer_restart awaiting_pre_commit transfer_queued : StorageDealStatus

pub code : StorageDealStatus → ℕ
code unknown = 0
code proposal_not_found = 1
code proposal_rejected = 2
code proposal_accepted = 3
code staged = 4
code sealing = 5
code finalizing = 6
code active = 7
code expired = 8
code slashed = 9
code rejecting = 10
code failing = 11
code funds_reserved = 12
code check_for_acceptance = 13
code validating = 14
code accept_wait = 15
code start_data_transfer = 16
code transferring = 17
code waiting_for_data = 18
code verify_data = 19
code reserve_provider_funds = 20
code reserve_client_funds = 21
code provider_funding = 22
code client_funding = 23
code publish = 24
code publishing = 25
code error = 26
code provider_transfer_await_restart = 27
code client_transfer_restart = 28
code awaiting_pre_commit = 29
code transfer_queued = 30

unfoldable pub same : StorageDealStatus → StorageDealStatus → Bool
unfolding code
same a b = code a == code b

-- `DealStates`
unfoldable pub status_text : StorageDealStatus → String
status_text unknown = "StorageDealUnknown"
status_text proposal_not_found = "StorageDealProposalNotFound"
status_text proposal_rejected = "StorageDealProposalRejected"
status_text proposal_accepted = "StorageDealProposalAccepted"
status_text staged = "StorageDealStaged"
status_text sealing = "StorageDealSealing"
status_text finalizing = "StorageDealFinalizing"
status_text active = "StorageDealActive"
status_text expired = "StorageDealExpired"
status_text slashed = "StorageDealSlashed"
status_text rejecting = "StorageDealRejecting"
status_text failing = "StorageDealFailing"
status_text funds_reserved = "StorageDealFundsReserved"
status_text check_for_acceptance = "StorageDealCheckForAcceptance"
status_text validating = "StorageDealValidating"
status_text accept_wait = "StorageDealAcceptWait"
status_text start_data_transfer = "StorageDealStartDataTransfer"
status_text transferring = "StorageDealTransferring"
status_text waiting_for_data = "StorageDealWaitingForData"
status_text verify_data = "StorageDealVerifyData"
status_text reserve_provider_funds = "StorageDealReserveProviderFunds"
status_text reserve_client_funds = "StorageDealReserveClientFunds"
status_text provider_funding = "StorageDealProviderFunding"
status_text client_funding = "StorageDealClientFunding"
status_text publish = "StorageDealPublish"
status_text publishing = "StorageDealPublishing"
status_text error = "StorageDealError"
status_text provider_transfer_await_restart = "StorageDealProviderTransferAwaitRestart"
status_text client_transfer_restart = "StorageDealClientTransferRestart"
status_text awaiting_pre_commit = "StorageDealAwaitingPreCommit"
status_text transfer_queued = "StorageDealTransferQueued"

-- `DealStatesDescriptions`; a missing key gives the empty text.
unfoldable pub status_description : StorageDealStatus → String
status_description unknown = "Unknown"
status_description proposal_not_found = "Proposal not found"
status_description proposal_rejected = "Proposal rejected"
status_description proposal_accepted = "Proposal accepted"
status_description staged = "Staged"
status_description sealing = "Sealing"
status_description finalizing = "Finalizing"
status_description active = "Active"
status_description expired = "Expired"
status_description slashed = "Slashed"
status_description rejecting = "Rejecting"
status_description failing = "Failing"
status_description funds_reserved = "FundsReserved"
status_description check_for_acceptance = "Checking for deal acceptance"
status_description validating = "Validating"
status_description accept_wait = "AcceptWait"
status_description start_data_transfer = "Starting data transfer"
status_description transferring = "Transferring"
status_description waiting_for_data = "Waiting for data"
status_description verify_data = "Verifying data"
status_description reserve_provider_funds = "Reserving provider funds"
status_description reserve_client_funds = "Reserving client funds"
status_description provider_funding = "Provider funding"
status_description client_funding = "Client funding"
status_description publish = "Publish"
status_description publishing = "Publishing"
status_description error = "Error"
status_description provider_transfer_await_restart = "ProviderTransferAwaitRestart"
status_description client_transfer_restart = "Client transfer restart"
status_description awaiting_pre_commit = "Awaiting a PreCommit message on chain"
status_description transfer_queued = ""

-- `DealStatesDurations`; a missing key gives the empty text.
unfoldable pub status_duration : StorageDealStatus → String
status_duration proposal_accepted = "a few minutes"
status_duration staged = "a few minutes"
status_duration sealing = "a few hours"
status_duration finalizing = "a few minutes"
status_duration funds_reserved = "a few minutes"
status_duration check_for_acceptance = "a few minutes"
status_duration validating = "a few minutes"
status_duration accept_wait = "a few minutes"
status_duration start_data_transfer = "a few minutes"
status_duration transferring = "a few minutes"
status_duration waiting_for_data = "a few minutes"
status_duration verify_data = "a few minutes"
status_duration reserve_provider_funds = "a few minutes"
status_duration reserve_client_funds = "a few minutes"
status_duration provider_funding = "a few minutes"
status_duration client_funding = "a few minutes"
status_duration publish = "a few minutes"
status_duration publishing = "a few minutes"
status_duration provider_transfer_await_restart = "a few minutes"
status_duration client_transfer_restart =
    "depending on data size, anywhere between a few minutes to a few hours"
status_duration awaiting_pre_commit = "a few minutes"
status_duration _ = ""
