-- ===== src/Retrieval/Client/Closing.antt =====
-- retrievalmarket/impl/clientstates/client_fsm.go, `ClientEvents`, third part: completing,
-- finalizing the blockstore and cancelling, as edges and as actions.

use go_fil_markets.Prelude.{not, ◌&&◌, Option, some, List, [], ◌∷◌, if◌then◌else◌}
use go_fil_markets.Text.{wrap}
use go_fil_markets.Fsm.{Edge, from_many, from_any, to, just_record}
use go_fil_markets.Retrieval.Status.{DealStatus, same}
use go_fil_markets.Retrieval.Client.Deal.{ClientDealState, ClientEvent}
use go_fil_markets.Retrieval.Client.Setup.{one}

unfoldable pub closing_edges : ClientEvent → List (Edge DealStatus)
closing_edges ClientEvent.complete =
    from_many
      (DealStatus.send_funds ∷ DealStatus.send_funds_last_payment ∷ DealStatus.funds_needed
        ∷ DealStatus.funds_needed_last_payment ∷ [])
      (to DealStatus.check_complete)
    ∷ from_many (one DealStatus.ongoing) (to DealStatus.check_complete)
    ∷ from_many (one DealStatus.blocks_complete) (to DealStatus.check_complete)
    ∷ from_many (one DealStatus.finalizing) (to DealStatus.finalizing_blockstore)
    ∷ []
closing_edges ClientEvent.complete_verified =
    from_many (one DealStatus.check_complete) (to DealStatus.finalizing_blockstore) ∷ []
closing_edges ClientEvent.early_termination =
    from_many (one DealStatus.check_complete) (to DealStatus.erroring) ∷ []
closing_edges ClientEvent.wait_for_last_blocks =
    from_many (one DealStatus.check_complete) (to DealStatus.client_waiting_for_last_blocks)
    ∷ from_many (DealStatus.finalizing_blockstore ∷ DealStatus.completed ∷ []) just_record
    ∷ []
closing_edges ClientEvent.blockstore_finalized =
    from_many (one DealStatus.finalizing_blockstore) (to DealStatus.completed)
    ∷ from_many (one DealStatus.erroring) (to DealStatus.errored)
    ∷ from_many (one DealStatus.rejecting) (to DealStatus.rejected)
    ∷ from_many (one DealStatus.deal_not_found_cleanup) (to DealStatus.deal_not_found)
    ∷ []
closing_edges (ClientEvent.finalize_blockstore_errored e) =
    from_many (one DealStatus.finalizing_blockstore) (to DealStatus.errored) ∷ []
closing_edges ClientEvent.cancel_complete =
    from_many (one DealStatus.failing) (to DealStatus.errored)
    ∷ from_many (one DealStatus.cancelling) (to DealStatus.cancelled)
    ∷ []
closing_edges ClientEvent.provider_cancelled =
    from_many (one DealStatus.failing) just_record
    ∷ from_many (one DealStatus.cancelling) just_record
    ∷ from_any (to DealStatus.cancelling)
    ∷ []
closing_edges ClientEvent.cancel = from_any (to DealStatus.cancelling) ∷ []
closing_edges ClientEvent.recheck_funds =
    from_many (one DealStatus.insufficient_funds) (to DealStatus.check_funds) ∷ []
closing_edges _ = []

unfoldable pub closing_action : ClientEvent → ClientDealState → Option ClientDealState
unfolding wrap
closing_action ClientEvent.early_termination d =
    some (record d { message = "Provider sent complete status without sending all data" })
closing_action (ClientEvent.finalize_blockstore_errored e) d =
    some (record d { message = wrap "finalizing blockstore" e })
closing_action ClientEvent.provider_cancelled d = some (
    if not (same d.status DealStatus.failing) && not (same d.status DealStatus.cancelling)
    then record d { message = "Provider cancelled retrieval" }
    else d)
closing_action ClientEvent.cancel d = some (record d { message = "Client cancelled retrieval" })
closing_action _ d = some d
