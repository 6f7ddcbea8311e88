-- ===== src/Retrieval/DataTransfer.antt =====
-- retrievalmarket/impl/dtutils/dtutils.go: how the events of a data transfer become events of the
-- deals' state machines.
use text.Mathlib.Text.{◌==◌}
use go_fil_markets.Prelude.{ℕ, Option, none, some, String, if◌then◌else◌}
use go_fil_markets.Text.{wrap}
use go_fil_markets.Retrieval.Status.{DealStatus}
use go_fil_markets.Retrieval.Voucher.{DealResponse, ChannelState}
use go_fil_markets.Retrieval.Client.Deal.{ClientEvent}
use go_fil_markets.Retrieval.Provider.Deal.{ProviderDealIdentifier, ProviderEvent}

-- `datatransfer.EventCode`: the codes that the market reads, and any other.
pub data EventCode : Type 0 where
  accept disconnected error data_limit_exceeded begin_finalizing new_voucher : EventCode
  cancel data_received_progress finish_transfer new_voucher_result other : EventCode

-- `datatransfer.Event`
pub record TransferEvent : Type 0 where
  pub code : EventCode
  pub message : String

-- The events of a provider's deal by the code; `none` is `noProviderEvent`.
abbrev pub provider_event_of : EventCode → String → ChannelState → Option ProviderEvent
provider_event_of accept message channel = some (ProviderEvent.deal_accepted channel.channel_id)
provider_event_of disconnected message channel =
    some (ProviderEvent.data_transfer_error "deal data transfer stalled (peer hungup)")
provider_event_of error message channel =
    some (ProviderEvent.data_transfer_error (wrap "deal data transfer failed" message))
provider_event_of data_limit_exceeded message channel = some ProviderEvent.payment_requested
provider_event_of begin_finalizing message channel = some ProviderEvent.last_payment_requested
provider_event_of new_voucher message channel = some ProviderEvent.process_payment
provider_event_of cancel message channel = some ProviderEvent.client_cancelled
provider_event_of _ message channel = none

-- `providerEvent`
unfoldable pub provider_event : TransferEvent → ChannelState → Option ProviderEvent
provider_event event channel =
    if channel.completed
    then some ProviderEvent.complete
    else provider_event_of event.code event.message channel

-- `ProviderDataTransferSubscriber`: what is sent to which deal, if anything is.
unfoldable pub provider_subscriber :
    TransferEvent → ChannelState → Option (ProviderDealIdentifier × ProviderEvent)
unfolding provider_event
provider_subscriber event channel = elim channel.voucher [
  | none ↦ none
  | some voucher ↦ elim voucher.as_proposal [
    | none ↦ none
    | some proposal ↦ elim (provider_event event channel) [
      | none ↦ none
      | some e ↦ some ((channel.recipient, proposal.id), e)
    ]
  ]
]

abbrev pub event_for_status : DealStatus → DealResponse → ClientEvent
event_for_status DealStatus.rejected r = ClientEvent.deal_rejected r.message
event_for_status DealStatus.deal_not_found r = ClientEvent.deal_not_found r.message
event_for_status DealStatus.accepted r = ClientEvent.deal_accepted
event_for_status DealStatus.funds_needed_unseal r =
    ClientEvent.unseal_payment_requested r.payment_owed
event_for_status DealStatus.funds_needed_last_payment r =
    ClientEvent.last_payment_requested r.payment_owed
event_for_status DealStatus.completed r = ClientEvent.complete
event_for_status DealStatus.funds_needed r = ClientEvent.payment_requested r.payment_owed
event_for_status DealStatus.ongoing r = ClientEvent.payment_requested r.payment_owed
event_for_status s r = ClientEvent.unknown_response_received s

-- `clientEventForResponse`
unfoldable pub client_event_for_response : DealResponse → ClientEvent
client_event_for_response r = event_for_status r.status r

-- The event of a client's deal for a failed transfer. `err_rejected` is the text of
-- datatransfer.ErrRejected, which is not in this repository.
abbrev pub client_error_event : String → String → ChannelState → ClientEvent
client_error_event err_rejected message channel =
    if channel.message == err_rejected
    then ClientEvent.deal_rejected "rejected for unknown reasons"
    else ClientEvent.data_transfer_error (wrap "deal data transfer failed" message)

-- The events of a client's deal by the code; `none` is `noEvent`.
unfoldable pub client_event_of : String → EventCode → String → ChannelState → Option ClientEvent
unfolding client_event_for_response
client_event_of err_rejected data_received_progress message channel =
    some (ClientEvent.blocks_received channel.received)
client_event_of err_rejected finish_transfer message channel = some ClientEvent.all_blocks_received
client_event_of err_rejected cancel message channel = some ClientEvent.provider_cancelled
client_event_of err_rejected new_voucher_result message channel =
    elim channel.last_voucher_result.as_response [
      | none ↦ none
      | some response ↦ some (client_event_for_response response)
    ]
client_event_of err_rejected disconnected message channel =
    some (ClientEvent.data_transfer_error "deal data transfer stalled (peer hungup)")
client_event_of err_rejected error message channel =
    some (client_error_event err_rejected message channel)
client_event_of err_rejected _ message channel = none

-- `clientEvent`
abbrev pub client_event : String → TransferEvent → ChannelState → Option ClientEvent
client_event err_rejected event channel =
    client_event_of err_rejected event.code event.message channel

-- `ClientDataTransferSubscriber`: what is sent to which deal, if anything is.
unfoldable pub client_subscriber : String → TransferEvent → ChannelState → Option (ℕ × ClientEvent)
unfolding client_event_of
client_subscriber err_rejected event channel = elim channel.voucher [
  | none ↦ none
  | some voucher ↦ elim voucher.as_proposal [
    | none ↦ none
    | some proposal ↦ elim (client_event err_rejected event channel) [
      | none ↦ none
      | some e ↦ some (proposal.id, e)
    ]
  ]
]
