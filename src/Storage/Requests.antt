-- ===== src/Storage/Requests.antt =====
-- storagemarket/impl/requestvalidation: the validation of data transfer requests by the deals that
-- they belong to. A store of deals may be missing; what a voucher decodes as comes from the
-- bindnode registry, which is not in this repository.
use go_fil_markets.Prelude.{
  ◌==◌, Bool, true, false, not, Option, none, some, List, [], ◌∷◌, String, Result, ok, err,
  if◌then◌else◌,
}
use go_fil_markets.Text.{wrap, enclose, decimal}
use go_fil_markets.Fsm.{elem}
use go_fil_markets.Retrieval.Params.{Cid}
use go_fil_markets.Retrieval.Client.Deal.{ChannelId}
use go_fil_markets.Storage.Status.{StorageDealStatus, same, code, status_text}
use go_fil_markets.Storage.Client.Deal.{ClientDeal}
use go_fil_markets.Storage.Provider.Deal.{MinerDeal}

-- A voucher, by the proposal that it decodes as.
abbrev pub Voucher : Type 0
Voucher = Result Cid

-- `PushDeals`, `PullDeals`
abbrev pub PushDeals : Type 0
PushDeals = Cid → Result MinerDeal

abbrev pub PullDeals : Type 0
PullDeals = Cid → Result ClientDeal

-- `DataTransferStates`
abbrev pub data_transfer_states : List StorageDealStatus
data_transfer_states =
    StorageDealStatus.validating ∷ StorageDealStatus.waiting_for_data ∷ StorageDealStatus.unknown
    ∷ StorageDealStatus.transferring ∷ StorageDealStatus.provider_transfer_await_restart ∷ []

-- The checks of a deal: its payload, its state, and what they say when they fail. The first text
-- names the piece, although the payload is compared.
unfoldable pub check_deal :
    (Cid → String) → Cid → Cid → Cid → StorageDealStatus → String → Result (Unit {0})
check_deal cid_text root base piece state state_text =
    if not (root == base)
    then err (
        wrap
          (enclose "Deal Payload CID " (cid_text piece)
            (enclose ", Data Transfer CID " (cid_text base) ""))
          "base CID for deal does not match CID for piece")
    else if elem same state data_transfer_states
    then ok tt
    else err (
        wrap (enclose "Deal State " state_text "")
          "deal is not in a state where deals are accepted")

abbrev missing : (Cid → String) → Cid → Result (Unit {0})
missing cid_text c =
    err (wrap (enclose "Proposal CID " (cid_text c) "") "no deal found for this proposal")

-- `ValidatePush`
unfoldable pub validate_push_deal : (Cid → String) → PushDeals → Voucher → Cid → Result (Unit {0})
unfolding check_deal
validate_push_deal cid_text deals (err e) base =
    err (wrap "could not decode StorageDataTransferVoucher" e)
validate_push_deal cid_text deals (ok proposal) base = elim (deals proposal) [
  | err e ↦ missing cid_text proposal
  | ok d ↦ check_deal cid_text d.ref.root base d.proposal.piece_cid d.state (status_text d.state)
]

-- `ValidatePull`; the state, a number, is printed by `%s`.
unfoldable pub validate_pull_deal : (Cid → String) → PullDeals → Voucher → Cid → Result (Unit {0})
unfolding check_deal
validate_pull_deal cid_text deals (err e) base =
    err (wrap "could not decode StorageDataTransferVoucher" e)
validate_pull_deal cid_text deals (ok proposal) base = elim (deals proposal) [
  | err e ↦ missing cid_text proposal
  | ok d ↦
      check_deal cid_text d.data_ref.root base d.proposal.piece_cid d.state
        (enclose "%!s(uint64=" (decimal (code d.state)) ")")
]

-- An error of a check is a request that is not accepted.
abbrev verdict : Result (Unit {0}) → Result Bool
verdict (err e) = ok false
verdict (ok _) = ok true

-- `UnifiedRequestValidator`
pub record Validator : Type 0 where
  pub push_deals : Option PushDeals
  pub pull_deals : Option PullDeals

unfoldable pub validate_push : (Cid → String) → Option PushDeals → Voucher → Cid → Result Bool
unfolding validate_push_deal
validate_push cid_text none voucher base = err "client should not receive data for a storage deal"
validate_push cid_text (some deals) voucher base =
    verdict (validate_push_deal cid_text deals voucher base)

unfoldable pub validate_pull : (Cid → String) → Option PullDeals → Voucher → Cid → Result Bool
unfolding validate_pull_deal
validate_pull cid_text none voucher base = err "provider should not send data for a storage deal"
validate_pull cid_text (some deals) voucher base =
    verdict (validate_pull_deal cid_text deals voucher base)

-- The parts of a data transfer channel that the market reads.
pub record ChannelState : Type 0 where
  pub channel_id : ChannelId
  pub is_pull : Bool
  pub completed : Bool
  pub base_cid : Cid
  -- `none` is a voucher that is nil.
  pub voucher : Option Voucher

-- A voucher that is nil is decoded too, whatever comes of it.
abbrev decoded : Voucher → Option Voucher → Voucher
decoded nil_voucher none = nil_voucher
decoded nil_voucher (some v) = v

-- `ValidateRestart`
unfoldable pub validate_restart : (Cid → String) → Voucher → Validator → ChannelState → Result Bool
unfolding validate_push validate_pull
validate_restart cid_text nil_voucher v channel =
    let voucher = decoded nil_voucher channel.voucher in
    if channel.is_pull
    then validate_pull cid_text v.pull_deals voucher channel.base_cid
    else validate_push cid_text v.push_deals voucher channel.base_cid
