-- ===== src/Lib.antt =====
-- A model of the markets of go-fil-markets: the retrieval market, by which a client fetches a
-- payload from a storage provider and pays for it as the data arrives; the storage market, by which a
-- client has a provider store a piece; how the piece store adds deals; and the peers that are kept for a
-- payload, the asks and the trackers of blockstores.
--
-- The parts and how they interact. A client proposes a deal with a price for each byte, a price for
-- unsealing and a payment schedule (retrievalmarket/types.go). The provider validates the proposal
-- when the data transfer is opened (retrievalmarket/impl/requestvalidation), finding a piece
-- (retrievalmarket/impl/provider_pieces.go) and a price (retrievalmarket/impl/provider.go and
-- provider_environments.go). Each side keeps a deal in a state machine, the client's in
-- retrievalmarket/impl/clientstates and the provider's in retrievalmarket/impl/providerstates, and
-- the events of the data transfer move it (retrievalmarket/impl/dtutils). The provider limits the
-- data by what has been paid, the client pays when it has received a payment interval, and the
-- provider checks what is owed when a voucher arrives and at the end.
--
-- In the storage market a client reserves funds and proposes a deal (storagemarket/impl/clientstates);
-- the provider validates it, decides, and waits for the data (storagemarket/impl/providerstates), which
-- the client pushes. The provider admits the push of a deal that it knows
-- (storagemarket/impl/requestvalidation), verifies the piece, publishes the deal, and hands it to
-- sealing, while the client polls the provider for its state (storagemarket/impl/provider.go and
-- client.go). Both then wait for the deal's sector to become active and for the deal's end.
--
-- Which file models which part:
--   Prelude       what the modules share: native numbers, lists, integers, 64-bit words, results
--   Text          the texts that fmt and xerrors build
--   Fsm           the tables of go-statemachine, their documented meaning, and runs of events
--   Retrieval/Params      retrievalmarket/types.go, Params: Schedule has IntervalLowerBound,
--                         OutstandingBalance and NextInterval; Thresholds and Balance the proofs
--   Retrieval/Status      retrievalmarket/dealstatus.go
--   Retrieval/Client      retrievalmarket/impl/clientstates: Deal has ClientDealState and the events,
--                         Setup, Transfer and Closing the three parts of ClientEvents, Table the whole
--                         table, Handlers the entry functions, Env what they call; Accepts, Accounts,
--                         Payments, Lifecycle and Settling the proofs; Requests has Retrieve,
--                         TryRestartInsufficientFunds, Query and CancelDeal of
--                         retrievalmarket/impl/client.go, and the counter of shared/timecounter.go
--   Retrieval/Provider    retrievalmarket/impl/providerstates, in the same way; Accepts, Funding and
--                         Accounts the proofs
--   Retrieval/Pieces      retrievalmarket/impl/provider_pieces.go and GetPieceInfo of
--                         piecestore/impl/piecestore.go; Links, Choice and Causes the proofs
--   Retrieval/Pricing     GetPiece, GetAsk and CheckDealParams of provider_environments.go,
--                         GetDynamicAsk and DefaultPricingFunc of provider.go
--   Retrieval/Query       HandleQueryStream of retrievalmarket/impl/provider.go; Quotes the proofs
--   Retrieval/AskStore    retrievalmarket/impl/askstore/askstore_impl.go, with the defaults of
--                         retrievalmarket/defaults.go
--   Retrieval/Validation  retrievalmarket/impl/requestvalidation/requestvalidation.go; Decision,
--                         Acceptance, Statuses and Debts the proofs
--   Retrieval/Voucher     the nodes, channels and validation results that the two sides exchange
--   Retrieval/DataTransfer  retrievalmarket/impl/dtutils/dtutils.go
--   Retrieval/Protocol    the two sides together
--   Storage/Status        storagemarket/dealstatus.go; Stages has DealStages of storagemarket/types.go,
--                         Timeline its proofs
--   Storage/Client        storagemarket/impl/clientstates: Deal has ClientDeal and the events, Table the
--                         edges of ClientEvents, Actions the actions, Handlers and Closing the entry
--                         functions, Env what they call; Accepts, Follows, Funds and Release the proofs
--   Storage/Provider      storagemarket/impl/providerstates, in the same way, with HandoffDeal in
--                         Handoff
--   Storage/Provider/Environment  storagemarket/impl/provider_environments.go, with GenerateCommp of
--                         commp/commp.go; Streams its proofs
--   Storage/Amounts       the reserved funds of both records, which are nil at first
--   Storage/Phases        the life of a deal, as an abstract machine that both tables refine
--   Storage/Validation    ValidateDealProposal of storagemarket/impl/providerstates/
--                         provider_states.go, with the signature checks of
--                         storagemarket/impl/providerutils/providerutils.go; Proposal has the data,
--                         Acceptable and Pricing the proofs
--   Storage/Ask           storagemarket/impl/storedask/storedask.go and SignMinerData of providerutils.go;
--                         AskKeeping its proofs
--   Storage/AskQuery      HandleAskStream of storagemarket/impl/provider.go and GetAsk of
--                         storagemarket/impl/client.go; AskAnswers the proofs
--   Storage/Proposing     ProposeStorageDeal of storagemarket/impl/client.go, with CommP and LabelField of
--                         storagemarket/impl/clientutils/clientutils.go
--   Storage/Receiving     HandleDealStream of storagemarket/impl/provider.go; Begins the two sides
--                         together
--   Storage/Escrow        AddPaymentEscrow, GetPaymentEscrow and restartDeals of
--                         storagemarket/impl/client.go
--   Storage/Connections   storagemarket/impl/connmanager/connmanager.go
--   Storage/Import        ImportDataForDeal of storagemarket/impl/provider.go; Imports its proofs
--   Storage/Requests      storagemarket/impl/requestvalidation
--   Storage/DataTransfer  storagemarket/impl/dtutils/dtutils.go
--   Storage/Protocol      client and provider together, at the transfer of the data
--   Storage/StatusQuery   HandleDealStatusStream of storagemarket/impl/provider.go and
--                         GetProviderDealState of storagemarket/impl/client.go; Polling the proofs
--   Storage/Listing       ListLocalDealsPage, restartDeals and AnnounceAllDealsToIndexer of
--                         storagemarket/impl/provider.go; Creation and Pages the proofs
--   Piecestore/Store      AddDealForPiece, AddPieceBlockLocations and GetCIDInfo of
--                         piecestore/impl/piecestore.go, over the state store of Table; Deals the proofs
--   Discovery/Local       discovery/impl/local.go; Peers its proofs
--   Stores/Tracking       stores/rw_bstores.go and stores/ro_bstores.go
--   Disk                  a datastore with one key, and an encoding, for the stores of asks
--   Examples              runs at concrete inputs
--
-- State and operations. A deal is the record of the source. An event of a table is an edge list and
-- an action, and `fire` gives both to an engine; an entry function returns the calls that it makes
-- and the events that it triggers, in order. `none` from an entry function, a validation or a query
-- is a nil pointer that the code follows, an index out of range, or a loop that does not end.
-- An amount that may be nil in a storage deal's record is an Option. A node's callback is given by what
-- it is called with, if it is called at all, so the entry function's list has the event that the
-- callback triggers. The clock's reading is an argument of the events that write the timeline, and the
-- texts of values of other types are a parameter. Deals that were created at the same time may come in
-- any order out of sort.Slice; the listing keeps the order that the store gave them. The reason with
-- which a proposal is turned down is a text without formatting verbs. The engine does not stop at
-- finality states, so a run may have more events here than there.
--
-- Numbers. Token amounts are integers; byte counts are natural numbers that are added modulo 2^64,
-- and are converted to int64 where the source does so. A theorem that needs counters not to wrap
-- says so by `Fits` or a bound. The loops over payment intervals are given as many rounds as the
-- bytes searched and 3 more, and Retrieval/Params/Thresholds shows that this is enough whenever
-- the schedule moves. An epoch is an integer, without the wrap-around of int64. The nesting of
-- identity CIDs is bounded by an argument, and Retrieval/Pieces/Links shows that the bytes of the
-- CID and one more are enough.
--
-- Parameters. Code of other projects is an argument: the state machine engine with the documented
-- meaning of its tables as its contract, the nodes' answers, the data transfer module, the DAG store's
-- index, the decoding of CIDs, the datastores and the state store with their documented laws, the
-- encodings, and what the actors' library says of a storage proposal.
--
-- Not modelled: of both markets the start of the modules and the index provider; the file store, and the
-- blockstore of stores/kvcarbs.go, which copies one of another project; migrations, network streams and
-- generated encodings; logging, timeouts, telemetry and subscriptions.
pub mod Prelude
pub mod Text
pub mod Fsm
pub mod Disk
pub mod Retrieval
pub mod Piecestore
pub mod Storage
pub mod Examples
pub mod Discovery
pub mod Stores
