-- ===== src/Storage/Provider/Handoff.antt =====
-- storagemarket/impl/providerstates/provider_states.go: `HandoffDeal`, which hands a published deal
-- to the node for sealing and records its piece for retrieval.
use text.Mathlib.Text.{◌==◌ as str_eq}
use go_fil_markets.Prelude.{ℕ, not, List, [], ◌∷◌, ◌++◌, String, Result, ok, err, if◌then◌else◌}
use go_fil_markets.Text.{wrap, enclose}
use go_fil_markets.Retrieval.Params.{Cid}
use go_fil_markets.Retrieval.Provider.Deal.{DealInfo}
use go_fil_markets.Piecestore.Store.{BlockLocation}
use go_fil_markets.Storage.Provider.Deal.{MinerDeal, ProviderEvent}
use go_fil_markets.Storage.Provider.Env.{
  PackingResult, OpenFile, OpenCar, Payload, file_data, car_data, ProviderEnv, Act, packs,
  adds_locations, adds_deal, registers_shard, announces_index, trigger,
}
use go_fil_markets.Storage.Provider.Handlers.{published_deal}

-- The deal that is handed to the node, with the fields that `handoffDeal` copies.
abbrev pub packed_deal : MinerDeal → MinerDeal
packed_deal d = record (published_deal d) {
  publish_cid = d.publish_cid;
  deal_id = d.deal_id;
  fast_retrieval = d.fast_retrieval;
}

-- `handoffDeal`: the calls that it makes, and its answer.
unfoldable pub handoff : ProviderEnv → MinerDeal → Payload → ℕ → List Act × Result PackingResult
handoff env d payload size =
    let unpadded = env.unpadded d.proposal.piece_size in
    elim (env.inflate payload size unpadded) [
      | err e ↦ ([], err e)
      | ok _ ↦ (
        packs (packed_deal d) unpadded payload ∷ [],
        env.on_deal_complete (packed_deal d) unpadded payload,
      )
    ]

-- The locations of the blocks of a deal: those of its metadata, or only the root.
abbrev block_locations : ProviderEnv → MinerDeal → Result (List (Cid × BlockLocation))
block_locations env d =
    if not (str_eq d.metadata_path "")
    then env.load_block_locations d.metadata_path
    else ok ((d.ref.root, record { rel_offset = 0; block_size = 0 }) ∷ [])

abbrev deal_info : MinerDeal → PackingResult → DealInfo
deal_info d r = record {
  deal_id = d.deal_id;
  sector_id = r.sector_number;
  offset = r.offset;
  length = r.size;
}

-- The answer of the last call of `recordPiece`.
abbrev recorded : Result (Unit {0}) → Result (Unit {0})
recorded (err e) = err (wrap "failed to add deal for piece" e)
recorded (ok _) = ok tt

-- `recordPiece`: the calls that it makes, and its answer.
unfoldable pub record_piece : ProviderEnv → MinerDeal → PackingResult → List Act × Result (Unit {0})
record_piece env d r = elim (block_locations env d) [
  | err e ↦ ([], err (wrap "failed to load block locations" e))
  | ok locations ↦ elim (env.add_piece_block_locations d.proposal.piece_cid locations) [
    | err e ↦ (
      adds_locations d.proposal.piece_cid locations ∷ [],
      err (wrap "failed to add piece block locations" e),
    )
    | ok _ ↦ (
      adds_locations d.proposal.piece_cid locations
          ∷ adds_deal d.proposal.piece_cid d.proposal_cid (deal_info d r)
          ∷ [],
      recorded (env.add_deal_for_piece d.proposal.piece_cid d.proposal_cid (deal_info d r)),
    )
  ]
]

-- An error of the piece store is reported and does not stop the deal.
abbrev record_failed : ProviderEnv → MinerDeal → Result (Unit {0}) → List Act
record_failed env d (ok _) = []
record_failed env d (err e) =
    trigger (
      ProviderEvent.piece_store_errored (
        wrap
          (enclose "failed to register deal data for piece " (env.cid_pointer_text d.ref.piece_cid)
            " for retrieval")
          e))
    ∷ []

-- The end of `HandoffDeal`, for a deal that is packed.
unfoldable pub handed_off : ProviderEnv → MinerDeal → String → PackingResult → List Act
unfolding record_piece
handed_off env d car_path r =
    let (acts, answer) = record_piece env d r in
    acts
    ++ (record_failed env d answer
        ++ registers_shard d.proposal.piece_cid car_path
          ∷ announces_index d.proposal_cid
          ∷ trigger ProviderEvent.deal_handed_off
          ∷ [])

abbrev failed_handoff : String → List Act
failed_handoff reason = trigger (ProviderEvent.deal_handoff_failed reason) ∷ []

-- A deal whose data is in a file.
abbrev after_file : ProviderEnv → MinerDeal → OpenFile → List Act × Result PackingResult → List Act
after_file env d file (acts, err e) =
    acts ++ failed_handoff (wrap (enclose "packing piece at path " d.piece_path "") e)
after_file env d file (acts, ok r) = acts ++ handed_off env d file.os_path r

unfoldable pub handoff_file : ProviderEnv → MinerDeal → List Act
unfolding handoff handed_off
handoff_file env d = elim (env.open_file d.piece_path) [
  | err e ↦
      trigger (
        ProviderEvent.file_store_errored
          (wrap (enclose "reading piece at path " d.piece_path "") e))
      ∷ []
  | ok file ↦ after_file env d file (handoff env d (file_data d.piece_path) file.size)
]

-- A deal whose data is in a CAR file: the file is closed before the packing's answer is looked at.
abbrev after_car : ProviderEnv → MinerDeal → OpenCar → List Act × Result PackingResult → List Act
after_car env d car (acts, answer) = elim car.close [
  | err e ↦ acts ++ failed_handoff (wrap "failed to close CARv2 reader" e)
  | ok _ ↦ elim answer [
    | err e ↦
        acts
        ++ failed_handoff
            (wrap (enclose "packing piece " (env.cid_pointer_text d.ref.piece_cid) "") e)
    | ok r ↦ acts ++ handed_off env d d.inbound_car r
  ]
]

unfoldable pub handoff_car : ProviderEnv → MinerDeal → List Act
unfolding handoff handed_off
handoff_car env d = elim (env.read_car d.inbound_car) [
  | err e ↦
      failed_handoff (
        wrap (enclose "failed to open CARv2 file, proposalCid=" (env.cid_text d.proposal_cid) "") e)
  | ok car ↦ elim car.data_reader [
    | err e ↦ failed_handoff (
        wrap
          (enclose "failed to get reader over file data, proposalCid=" (env.cid_text d.proposal_cid)
            "")
          e)
    | ok reader ↦ after_car env d car (handoff env d (car_data reader) car.data_size)
  ]
]

-- `HandoffDeal`
unfoldable pub handoff_deal : ProviderEnv → MinerDeal → List Act
unfolding handoff_file handoff_car
handoff_deal env d = if not (str_eq d.piece_path "") then handoff_file env d else handoff_car env d
