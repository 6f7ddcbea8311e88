-- ===== src/Storage/DataTransfer.antt =====
-- storagemarket/impl/dtutils/dtutils.go: how the events of a data transfer are sent to the deals'
-- state machines.
use go_fil_markets.Prelude.{
  Bool, Option, none, some, List, [], ◌∷◌, String, Result, ok, err, if◌then◌else◌,
}
use go_fil_markets.Text.{wrap}
use go_fil_markets.Retrieval.Params.{Cid}
use go_fil_markets.Storage.Requests.{ChannelState}
use go_fil_markets.Storage.Client.Deal.{ClientEvent}
use go_fil_markets.Storage.Provider.Deal.{ProviderEvent}

-- `datatransfer.EventCode`: the codes that the market reads, and any other.
pub data EventCode : Type 0 where
  cancel restarted disconnected opened accept transfer_initiated error other : EventCode

-- What is sent to a client's deal: an event with its values, or `ClientEventDataTransferStalled`
-- without the error that its action takes.
pub data Sent : Type 0 where
  event : ClientEvent → Sent
  stalled_without_error : Sent

-- The provider's event by the code; `none` is no event.
abbrev pub provider_event_of : EventCode → String → ChannelState → Option ProviderEvent
provider_event_of cancel message channel = some ProviderEvent.data_transfer_cancelled
provider_event_of restarted message channel =
    some (ProviderEvent.data_transfer_restarted channel.channel_id)
provider_event_of disconnected message channel = some ProviderEvent.data_transfer_stalled
provider_event_of opened message channel =
    some (ProviderEvent.data_transfer_initiated channel.channel_id)
provider_event_of error message channel =
    some (ProviderEvent.data_transfer_failed (wrap "deal data transfer failed" message))
provider_event_of _ message channel = none

-- The client's event by the code; `none` is no event.
abbrev pub client_event_of : EventCode → String → ChannelState → Option Sent
client_event_of cancel message channel = some (event ClientEvent.data_transfer_cancelled)
client_event_of restarted message channel =
    some (event (ClientEvent.data_transfer_restarted channel.channel_id))
client_event_of disconnected message channel = some stalled_without_error
client_event_of accept message channel =
    some (event (ClientEvent.data_transfer_queued channel.channel_id))
client_event_of transfer_initiated message channel =
    some (event (ClientEvent.data_transfer_initiated channel.channel_id))
client_event_of error message channel =
    some (event (ClientEvent.data_transfer_failed (wrap "deal data transfer failed" message)))
client_event_of _ message channel = none

module _ {E : Type 0} (send : Cid → E → Result (Unit {0})) where
  abbrev one_send : Cid → Option E → List (Cid × E)
  one_send c none = []
  one_send c (some e) = (c, e) ∷ []

  -- A completed transfer is reported first; if that fails, nothing else is sent.
  abbrev pub sends : Cid → Bool → E → Option E → List (Cid × E)
  sends c completed complete e =
      if completed
      then (c, complete) ∷ elim (send c complete) [ err x ↦ [] | ok _ ↦ one_send c e ]
      else one_send c e

-- `ProviderDataTransferSubscriber`: what is sent to which deals.
unfoldable pub provider_subscriber :
    (Cid → ProviderEvent → Result (Unit {0}))
    → EventCode
    → String
    → ChannelState
    → List (Cid × ProviderEvent)
provider_subscriber send c message channel = elim channel.voucher [
  | none ↦ []
  | some (err e) ↦ []
  | some (ok proposal) ↦
      sends send proposal channel.completed ProviderEvent.data_transfer_completed
        (provider_event_of c message channel)
]

-- `ClientDataTransferSubscriber`: what is sent to which deals.
unfoldable pub client_subscriber :
    (Cid → Sent → Result (Unit {0})) → EventCode → String → ChannelState → List (Cid × Sent)
client_subscriber send c message channel = elim channel.voucher [
  | none ↦ []
  | some (err e) ↦ []
  | some (ok proposal) ↦
      sends send proposal channel.completed (event ClientEvent.data_transfer_complete)
        (client_event_of c message channel)
]
