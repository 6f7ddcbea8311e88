-- ===== src/Retrieval/Client/Accepts.antt =====
-- retrievalmarket/impl/clientstates: which events of the client's entry functions the table accepts
-- in the state that runs them.
use go_fil_markets.Prelude.{
  Bool, true, false, not, ◌≡◌, Option, none, some, List, String, All, arith, subst, err, ◌∷◌, [],
  ◌∙◌,
}
use go_fil_markets.Fsm.{Engine, refused, declared}
use go_fil_markets.Retrieval.Status.{DealStatus, same}
use go_fil_markets.Retrieval.Client.Deal.{ClientEvent, ClientDealState, PaymentInfo, client_machine}
use go_fil_markets.Retrieval.Params.{Cid}
use go_fil_markets.Retrieval.Client.Env.{ClientEnv, Act, trigger, triggers}
use go_fil_markets.Retrieval.Client.Table.{edges, fire}
use go_fil_markets.Retrieval.Client.Handlers.{entry, entry_of}

-- Whether the table has a way for the event in the state.
unfoldable pub accepted : ClientEvent → DealStatus → Bool
unfolding edges same
accepted e s = elim (declared same (edges e) s) [ none ↦ false | some d ↦ true ]

-- The two states in which an error of the payment channel has nowhere to go.
abbrev pub stuck : ClientEvent → DealStatus → Bool
stuck (ClientEvent.payment_channel_errored e) DealStatus.check_funds = true
stuck (ClientEvent.payment_channel_errored e) DealStatus.payment_channel_adding_initial_funds = true
stuck _ _ = false

abbrev pub Handled : DealStatus → ClientEvent → Type 0
Handled s e = accepted e s ≡ not (stuck e s)

abbrev WhenRun : DealStatus → Option (List Act) → Type 0
WhenRun s none = Unit
WhenRun s (some acts) = All (Handled s) (triggers acts)

entry_of-Handled :
    (env : ClientEnv) (s : DealStatus) (d : ClientDealState) → WhenRun s (entry_of env s d)
unfolding entry_of accepted
entry_of-Handled env DealStatus.new d = ground arith
entry_of-Handled env _ d = ground arith

-- Every event that an entry function triggers is accepted by the table in the state that ran it,
-- whatever the environment answers, except exactly the error of a payment channel in the states
-- check_funds and payment_channel_adding_initial_funds.
pub entry-Handled :
    (env : ClientEnv) (d : ClientDealState) (acts : List Act)
    → entry env d ≡ some acts
    → All (Handled d.status) (triggers acts)
unfolding entry
entry-Handled env d acts h = subst (WhenRun d.status) h (entry_of-Handled env d.status d)

-- A deal that waits for its initial funds on the payment channel and is told of an error stays where
-- it is: the entry function reports the error by an event that no engine accepts there.
pub channel_error_stuck :
    (engine : Engine client_machine) (env : ClientEnv) (d : ClientDealState) (msg : Cid)
    (e : String)
    → d.status ≡ DealStatus.payment_channel_adding_initial_funds
    → d.wait_msg_cid ≡ some msg
    → env.wait_for_payment_channel_ready msg ≡ err e
    → (entry env d ≡ some (trigger (ClientEvent.payment_channel_errored e) ∷ []))
      × (fire engine (ClientEvent.payment_channel_errored e) d ≡ refused)
unfolding entry entry_of fire edges same
channel_error_stuck engine env d msg e s w a =
    (ground arith, engine.process_lem _ _ d ∙ ground arith)

-- A deal whose available funds cannot be read after a shortfall, with no message to wait for, stays
-- where it is: the entry function reports the error by an event that no engine accepts there.
pub check_funds_stuck :
    (engine : Engine client_machine) (env : ClientEnv) (d : ClientDealState) (info : PaymentInfo)
    (e : String)
    → d.status ≡ DealStatus.check_funds
    → d.wait_msg_cid ≡ none
    → d.payment_info ≡ some info
    → env.check_available_funds info.pay_ch ≡ err e
    → (entry env d ≡ some (trigger (ClientEvent.payment_channel_errored e) ∷ []))
      × (fire engine (ClientEvent.payment_channel_errored e) d ≡ refused)
unfolding entry entry_of fire edges same
check_funds_stuck engine env d info e s w i a =
    (ground arith, engine.process_lem _ _ d ∙ ground arith)
