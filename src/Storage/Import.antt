-- ===== src/Storage/Import.antt =====
-- storagemarket/impl/provider.go: `ImportDataForDeal` with `generatePieceCommitment`, by which the data of a
-- manual transfer come to a deal. The file store, the reader, the proofs
-- library and the padding of a commitment are parameters.
use go_fil_markets.Prelude.{
  ℕ, ◌==◌, ltb, Bool, true, false, List, [], ◌∷◌, String, Result, ok, err, if◌then◌else◌,
}
use go_fil_markets.Text.{wrap, enclose}
use go_fil_markets.Retrieval.Params.{Cid}
use go_fil_markets.Storage.Provider.Deal.{FilePath, MinerDeal, ProviderEvent}

pub record ImportEnv : Type 0 where
  pub deals : Cid → Result MinerDeal
  pub create_temp : Result FilePath
  -- The copy of the data to the file, the size of the file then, and the seek to its start.
  pub copy : FilePath → Result (Unit {0})
  pub size : FilePath → ℕ
  pub seek : FilePath → Result (Unit {0})
  pub get_proof_type : Result ℕ
  -- The commitment of a file that padreader pads to a size.
  pub padded_reader_size : ℕ → ℕ
  pub generate_piece_cid : ℕ → FilePath → ℕ → Result Cid
  -- `PaddedSize(size).Padded()`, and the commitment of a piece that is padded with zeros.
  pub padded_size : ℕ → ℕ
  pub pad_comm_p : Cid → ℕ → ℕ → Result Cid
  pub cid_text : Cid → String
  pub send : Cid → ProviderEvent → Result (Unit {0})

pub data ImportAct : Type 0 where
  creates closes deletes : FilePath → ImportAct
  sends : Cid → ProviderEvent → ImportAct

abbrev pub Imported : Type 0
Imported = List ImportAct × Result (Unit {0})

-- The file is closed and deleted, and closed again on return.
abbrev cleaned : FilePath → String → Imported
cleaned path e = (creates path ∷ closes path ∷ deletes path ∷ closes path ∷ [], err e)

-- `generatePieceCommitment`
abbrev pub generate_piece_commitment : ImportEnv → ℕ → FilePath → ℕ → Result Cid
generate_piece_commitment env rt path size =
    env.generate_piece_cid rt path (env.padded_reader_size size)

-- The commitment of the file, padded up to the size of the deal's piece.
unfoldable pub commitment : ImportEnv → MinerDeal → FilePath → ℕ → Result Cid
commitment env d path rt = elim (generate_piece_commitment env rt path (env.size path)) [
  | err e ↦ err (wrap "failed to generate commP" e)
  | ok c ↦
      if ltb (env.padded_size (env.size path)) d.proposal.piece_size
      then env.pad_comm_p c (env.padded_size (env.size path)) d.proposal.piece_size
      else ok c
]

-- Whether the commitment is the deal's.
abbrev pub matched : ImportEnv → Cid → MinerDeal → FilePath → Cid → Bool → Imported
matched env c d path piece false = cleaned path (
    enclose "given data does not match expected commP (got: " (env.cid_text piece)
      (enclose ", expected " (env.cid_text d.proposal.piece_cid) ")"))
matched env c d path piece true = (
  creates path ∷ sends c (ProviderEvent.verified_data path "") ∷ closes path ∷ [],
  env.send c (ProviderEvent.verified_data path ""),
)

abbrev pub committed : ImportEnv → Cid → MinerDeal → FilePath → Result Cid → Imported
committed env c d path (err e) = cleaned path e
committed env c d path (ok piece) = matched env c d path piece (piece == d.proposal.piece_cid)

abbrev pub typed : ImportEnv → Cid → MinerDeal → FilePath → Result ℕ → Imported
typed env c d path (err e) = cleaned path (wrap "failed to determine proof type" e)
typed env c d path (ok rt) = committed env c d path (commitment env d path rt)

abbrev pub sought : ImportEnv → Cid → MinerDeal → FilePath → Result (Unit {0}) → Imported
sought env c d path (err e) = cleaned path (wrap "failed to seek through temp imported file" e)
sought env c d path (ok _) = typed env c d path env.get_proof_type

abbrev pub copied : ImportEnv → Cid → MinerDeal → FilePath → Result (Unit {0}) → Imported
copied env c d path (err e) = cleaned path (wrap "importing deal data failed" e)
copied env c d path (ok _) = sought env c d path (env.seek path)

abbrev pub created : ImportEnv → Cid → MinerDeal → Result FilePath → Imported
created env c d (err e) = ([], err (wrap "failed to create temp file for data import" e))
created env c d (ok path) = copied env c d path (env.copy path)

abbrev pub imported : ImportEnv → Cid → Result MinerDeal → Imported
imported env c (err e) = ([], err (wrap (enclose "failed getting deal " (env.cid_text c) "") e))
imported env c (ok d) = created env c d env.create_temp

-- `ImportDataForDeal`
unfoldable pub import_data_for_deal : ImportEnv → Cid → Imported
import_data_for_deal env c = imported env c (env.deals c)
