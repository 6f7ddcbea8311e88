-- ===== src/Retrieval/Client/Setup.antt =====
-- retrievalmarket/impl/clientstates/client_fsm.go, `ClientEvents`, first part: the proposal, its
-- acceptance and the payment channel, as edges and as actions. An action is `none` where the code
-- panics.
use Prim.Native.String.{◌++◌}
use go_fil_markets.Prelude.{ℕ, true, Option, none, some, List, [], ◌∷◌}
use go_fil_markets.Text.{wrap}
use go_fil_markets.Fsm.{Edge, from_many, from_any, to, no_change, just_record}
use go_fil_markets.Retrieval.Status.{DealStatus, status_text}
use go_fil_markets.Retrieval.Client.Deal.{Address, PaymentInfo, ClientDealState, ClientEvent}

abbrev pub one : DealStatus → List DealStatus
one s = s ∷ []

-- Proposal, acceptance and payment channel.
unfoldable pub setup_edges : ClientEvent → List (Edge DealStatus)
setup_edges ClientEvent.open_deal = from_many (one DealStatus.new) no_change ∷ []
setup_edges (ClientEvent.write_deal_proposal_errored e) = from_any (to DealStatus.erroring) ∷ []
setup_edges (ClientEvent.deal_proposed c) =
    from_many (one DealStatus.new) (to DealStatus.wait_for_acceptance)
    ∷ from_many (one DealStatus.retry_legacy) (to DealStatus.wait_for_acceptance_legacy)
    ∷ from_many (one DealStatus.cancelling) just_record
    ∷ []
setup_edges (ClientEvent.deal_rejected m) =
    from_many (one DealStatus.wait_for_acceptance) (to DealStatus.retry_legacy)
    ∷ from_many (one DealStatus.wait_for_acceptance_legacy) (to DealStatus.rejecting)
    ∷ []
setup_edges (ClientEvent.deal_not_found m) =
    from_many (DealStatus.wait_for_acceptance ∷ DealStatus.wait_for_acceptance_legacy ∷ [])
      (to DealStatus.deal_not_found_cleanup)
    ∷ []
setup_edges ClientEvent.deal_accepted =
    from_many (DealStatus.wait_for_acceptance ∷ DealStatus.wait_for_acceptance_legacy ∷ [])
      (to DealStatus.accepted)
    ∷ []
setup_edges (ClientEvent.unknown_response_received s) = from_any (to DealStatus.failing) ∷ []
setup_edges (ClientEvent.payment_channel_errored e) =
    from_many
      (DealStatus.accepted ∷ DealStatus.payment_channel_creating
        ∷ DealStatus.payment_channel_adding_funds ∷ [])
      (to DealStatus.failing)
    ∷ []
setup_edges ClientEvent.payment_channel_skip =
    from_many (one DealStatus.accepted) (to DealStatus.ongoing) ∷ []
setup_edges (ClientEvent.payment_channel_create_initiated c) =
    from_many (one DealStatus.accepted) (to DealStatus.payment_channel_creating) ∷ []
setup_edges (ClientEvent.payment_channel_adding_funds c a) =
    from_many (one DealStatus.accepted) (to DealStatus.payment_channel_adding_initial_funds)
    ∷ from_many (one DealStatus.check_funds) (to DealStatus.payment_channel_adding_funds)
    ∷ []
setup_edges (ClientEvent.payment_channel_ready a) =
    from_many
      (DealStatus.payment_channel_creating ∷ DealStatus.payment_channel_adding_initial_funds
        ∷ DealStatus.accepted ∷ [])
      (to DealStatus.payment_channel_allocating_lane)
    ∷ from_many (one DealStatus.payment_channel_adding_funds) (to DealStatus.ongoing)
    ∷ from_many (one DealStatus.check_funds) (to DealStatus.ongoing)
    ∷ []
setup_edges (ClientEvent.allocate_lane_errored e) =
    from_many (one DealStatus.payment_channel_allocating_lane) (to DealStatus.failing) ∷ []
setup_edges (ClientEvent.lane_allocated l) =
    from_many (one DealStatus.payment_channel_allocating_lane) (to DealStatus.ongoing) ∷ []
setup_edges _ = []

-- `deal.PaymentInfo` is created once, with the payment channel's address.
abbrev with_channel : Option PaymentInfo → Address → PaymentInfo
with_channel none a = record { pay_ch = a; lane = 0 }
with_channel (some i) a = i

abbrev with_lane : ClientDealState → Option PaymentInfo → ℕ → Option ClientDealState
with_lane d none l = none
with_lane d (some i) l = some (record d { payment_info = some (record i { lane = l }) })

unfoldable pub setup_action : ClientEvent → ClientDealState → Option ClientDealState
unfolding wrap status_text
setup_action (ClientEvent.write_deal_proposal_errored e) d =
    some (record d { message = wrap "proposing deal" e })
setup_action (ClientEvent.deal_proposed c) d = some (record d { channel_id = some c; message = "" })
setup_action (ClientEvent.deal_rejected m) d =
    some (record d { message = "deal rejected: " ++ m; legacy_protocol = true })
setup_action (ClientEvent.deal_not_found m) d =
    some (record d { message = "deal not found: " ++ m })
setup_action (ClientEvent.unknown_response_received s) d =
    some (record d { message = "Unexpected deal response status: " ++ status_text s })
setup_action (ClientEvent.payment_channel_errored e) d =
    some (record d { message = wrap "error from payment channel" e })
setup_action (ClientEvent.payment_channel_create_initiated c) d =
    some (record d { wait_msg_cid = some c })
setup_action (ClientEvent.payment_channel_adding_funds c a) d =
    some (record d { wait_msg_cid = some c; payment_info = some (with_channel d.payment_info a) })
setup_action (ClientEvent.payment_channel_ready a) d = some (record d {
  payment_info = some (with_channel d.payment_info a);
  wait_msg_cid = none;
  message = "";
})
setup_action (ClientEvent.allocate_lane_errored e) d =
    some (record d { message = wrap "allocating payment lane" e })
setup_action (ClientEvent.lane_allocated l) d = with_lane d d.payment_info l
setup_action _ d = some d
