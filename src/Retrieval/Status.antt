-- ===== src/Retrieval/Status.antt =====
-- retrievalmarket/dealstatus.go: the states of a retrieval deal, with the codes that iota gives
-- them, their texts, and the tests on them of retrievalmarket/types.go. A code outside these is
-- not modelled.
use go_fil_markets.Prelude.{ℕ, Bool, ◌==◌, ◌||◌, String}

pub data DealStatus : Type 0 where
  new unsealing unsealed wait_for_acceptance payment_channel_creating : DealStatus
  payment_channel_adding_funds accepted funds_needed_unseal failing rejected funds_needed :
      DealStatus
  send_funds send_funds_last_payment ongoing funds_needed_last_payment completed : DealStatus
  deal_not_found errored blocks_complete finalizing completing check_complete check_funds :
      DealStatus
  insufficient_funds payment_channel_allocating_lane cancelling cancelled retry_legacy : DealStatus
  wait_for_acceptance_legacy client_waiting_for_last_blocks : DealStatus
  payment_channel_adding_initial_funds erroring rejecting deal_not_found_cleanup : DealStatus
  finalizing_blockstore : DealStatus

pub code : DealStatus → ℕ
code new = 0
code unsealing = 1
code unsealed = 2
code wait_for_acceptance = 3
code payment_channel_creating = 4
code payment_channel_adding_funds = 5
code accepted = 6
code funds_needed_unseal = 7
code failing = 8
code rejected = 9
code funds_needed = 10
code send_funds = 11
code send_funds_last_payment = 12
code ongoing = 13
code funds_needed_last_payment = 14
code completed = 15
code deal_not_found = 16
code errored = 17
code blocks_complete = 18
code finalizing = 19
code completing = 20
code check_complete = 21
code check_funds = 22
code insufficient_funds = 23
code payment_channel_allocating_lane = 24
code cancelling = 25
code cancelled = 26
code retry_legacy = 27
code wait_for_acceptance_legacy = 28
code client_waiting_for_last_blocks = 29
code payment_channel_adding_initial_funds = 30
code erroring = 31
code rejecting = 32
code deal_not_found_cleanup = 33
code finalizing_blockstore = 34

unfoldable pub same : DealStatus → DealStatus → Bool
unfolding code
same a b = code a == code b

-- `DealStatuses`
unfoldable pub status_text : DealStatus → String
status_text new = "DealStatusNew"
status_text unsealing = "DealStatusUnsealing"
status_text unsealed = "DealStatusUnsealed"
status_text wait_for_acceptance = "DealStatusWaitForAcceptance"
status_text payment_channel_creating = "DealStatusPaymentChannelCreating"
status_text payment_channel_adding_funds = "DealStatusPaymentChannelAddingFunds"
status_text accepted = "DealStatusAccepted"
status_text funds_needed_unseal = "DealStatusFundsNeededUnseal"
status_text failing = "DealStatusFailing"
status_text rejected = "DealStatusRejected"
status_text funds_needed = "DealStatusFundsNeeded"
status_text send_funds = "DealStatusSendFunds"
status_text send_funds_last_payment = "DealStatusSendFundsLastPayment"
status_text ongoing = "DealStatusOngoing"
status_text funds_needed_last_payment = "DealStatusFundsNeededLastPayment"
status_text completed = "DealStatusCompleted"
status_text deal_not_found = "DealStatusDealNotFound"
status_text errored = "DealStatusErrored"
status_text blocks_complete = "DealStatusBlocksComplete"
status_text finalizing = "DealStatusFinalizing"
status_text completing = "DealStatusCompleting"
status_text check_complete = "DealStatusCheckComplete"
status_text check_funds = "DealStatusCheckFunds"
status_text insufficient_funds = "DealStatusInsufficientFunds"
status_text payment_channel_allocating_lane = "DealStatusPaymentChannelAllocatingLane"
status_text cancelling = "DealStatusCancelling"
status_text cancelled = "DealStatusCancelled"
status_text retry_legacy = "DealStatusRetryLegacy"
status_text wait_for_acceptance_legacy = "DealStatusWaitForAcceptanceLegacy"
status_text client_waiting_for_last_blocks = "DealStatusWaitingForLastBlocks"
status_text payment_channel_adding_initial_funds = "DealStatusPaymentChannelAddingInitialFunds"
status_text erroring = "DealStatusErroring"
status_text rejecting = "DealStatusRejecting"
status_text deal_not_found_cleanup = "DealStatusDealNotFoundCleanup"
status_text finalizing_blockstore = "DealStatusFinalizingBlockstore"

-- `IsTerminalError`, `IsTerminalSuccess`, `IsTerminalStatus`
unfoldable pub is_terminal_error : DealStatus → Bool
unfolding same
is_terminal_error s =
    same s DealStatus.deal_not_found || same s DealStatus.failing || same s DealStatus.rejected

unfoldable pub is_terminal_success : DealStatus → Bool
unfolding same
is_terminal_success s = same s DealStatus.completed

unfoldable pub is_terminal_status : DealStatus → Bool
unfolding is_terminal_error is_terminal_success
is_terminal_status s = is_terminal_error s || is_terminal_success s
