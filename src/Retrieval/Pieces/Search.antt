-- ===== src/Retrieval/Pieces/Search.antt =====
-- retrievalmarket/impl/provider_pieces.go: the pieces of a payload and the best of them;
-- retrievalmarket/impl/provider_environments.go: `GetPiece` and `GetAsk`;
-- piecestore/impl/piecestore.go: `GetPieceInfo`.
use go_fil_markets.Prelude.{
  ℕ, ◌==◌, not, Bool, true, false, ◌||◌, Option, none, some, List, [], ◌∷◌, ◌++◌, map, String,
  Result, ok, err, if◌then◌else◌,
}
use go_fil_markets.Text.{wrap, enclose}
use go_fil_markets.Retrieval.Params.{Cid}
use go_fil_markets.Retrieval.Pieces.Failure.{
  Failure, failure, wraps_not_found, wrapped, Found, found, failed,
}
use go_fil_markets.Retrieval.Pieces.Identity.{Index, links_from_identity_cid, pieces_with_all}
use go_fil_markets.Retrieval.Provider.Deal.{DealInfo, PieceInfo}

-- What the piece store's records hold for a key: statestore is not in this repository.
pub data Stored : Type 0 where
  stored : PieceInfo → Stored
  absent : Stored
  broken : String → Stored

pub record Store : Type 0 where
  pub index : Index
  pub record_of : Cid → Stored
  -- `IsUnsealed` of a sector, an offset and a length
  pub is_unsealed : ℕ → ℕ → ℕ → Result Bool

-- `pieceStore.GetPieceInfo`
unfoldable pub get_piece_info : Store → Cid → Found PieceInfo
get_piece_info store c = elim (store.record_of c) [
  | stored info ↦ found info
  | absent ↦
      failed
        (wraps_not_found (wrap (enclose "piece with CID " (store.index.cid_text c) "") "not found"))
  | broken e ↦ failed (failure e)
]

abbrev pub pieces_of_links : Store → Option (Found (List Cid)) → Option (Found (List Cid))
pieces_of_links store none = none
pieces_of_links store (some (failed e)) = some (failed e)
pieces_of_links store (some (found links)) = some (pieces_with_all store.index links)

-- `getCommonPiecesFromIdentityCidLinks`: the CIDs, or none while the links nest too deep.
unfoldable pub get_common_pieces : Store → ℕ → Cid → Option (Found (List Cid))
get_common_pieces store depth c =
    pieces_of_links store (links_from_identity_cid store.index depth c)

-- The loop over the pieces: those that the store knows, and the last error.
unfoldable pub read_pieces : Store → List Cid → List PieceInfo × Option Failure
unfolding get_piece_info
read_pieces store [] = ([], none)
read_pieces store (c ∷ cs) =
    let (pieces, last) = read_pieces store cs in
    elim (get_piece_info store c) [
      | found info ↦ (info ∷ pieces, last)
      | failed e ↦ (pieces, elim last [ none ↦ some e | some e' ↦ some e' ])
    ]

-- The pieces of an identity CID that the index does not know; `e` is the index's error.
abbrev pub pieces_or_error :
    Store → Cid → Failure → Option (Found (List Cid)) → Option (List PieceInfo × Option Failure)
pieces_or_error store c e none = none
pieces_or_error store c e (some (failed e')) = some ([], some e')
pieces_or_error store c e (some (found [])) =
    some ([], some (wrapped (enclose "getting pieces for cid " (store.index.cid_text c) "") e))
pieces_or_error store c e (some (found (x ∷ xs))) = some (read_pieces store (x ∷ xs))

-- `getAllPieceInfoForPayload`
unfoldable pub get_all_piece_info : Store → ℕ → Cid → Option (List PieceInfo × Option Failure)
unfolding get_common_pieces read_pieces
get_all_piece_info store depth c = elim (store.index.pieces_with c) [
  | found cids ↦ some (read_pieces store cids)
  | failed e ↦ pieces_or_error store c e (get_common_pieces store depth c)
]

-- `pieceInUnsealedSector`, on the deals: one that cannot be read is passed over. Padding is a
-- matter of the unit of the offset and the length.
unfoldable pub in_unsealed_sector : Store → List DealInfo → Bool
in_unsealed_sector store [] = false
in_unsealed_sector store (deal ∷ deals) =
    let rest = in_unsealed_sector store deals in
    elim (store.is_unsealed deal.sector_id deal.offset deal.length) [
      | err e ↦ rest
      | ok unsealed ↦ unsealed || rest
    ]

abbrev pub deal_ids : List DealInfo → List ℕ
deal_ids = map (λ (d : DealInfo). d.deal_id)

-- `dealsFromPieces`
abbrev pub deals_from_pieces : List PieceInfo → List ℕ
deals_from_pieces [] = []
deals_from_pieces (piece ∷ pieces) = deal_ids piece.deals ++ deals_from_pieces pieces

-- `getStorageDealsForPiece`
abbrev pub get_storage_deals : Bool → List PieceInfo → PieceInfo → List ℕ
get_storage_deals true pieces piece = deal_ids piece.deals
get_storage_deals false pieces piece = deals_from_pieces pieces

-- `PieceInfoUndefined`, `Defined`: the undefined CID is 0.
abbrev pub piece_info_undefined : PieceInfo
piece_info_undefined = record { piece_cid = 0; deals = [] }

abbrev pub defined : PieceInfo → Bool
defined piece = not (piece.piece_cid == 0) || elim piece.deals [ [] ↦ false | d ∷ ds ↦ true ]

abbrev pub first_sealed : Option PieceInfo → PieceInfo → Option PieceInfo
first_sealed none piece = some piece
first_sealed (some sealed) piece = some sealed

-- The loop of `getBestPieceInfoMatch`, with the first sealed piece seen so far.
unfoldable pub best_match : Store → Cid → Option PieceInfo → List PieceInfo → PieceInfo × Bool
best_match store wanted none [] = (piece_info_undefined, false)
best_match store wanted (some sealed) [] = (sealed, false)
best_match store wanted sealed (piece ∷ pieces) =
    let unsealed = in_unsealed_sector store piece.deals in
    let rest = best_match store wanted sealed pieces in
    let rest_sealed = best_match store wanted (first_sealed sealed piece) pieces in
    if not (wanted == 0)
    then if piece.piece_cid == wanted then (piece, unsealed) else rest
    else if unsealed
    then (piece, true)
    else rest_sealed

-- `getBestPieceInfoMatch`
unfoldable pub get_best_piece_info_match : Store → List PieceInfo → Cid → PieceInfo × Bool
unfolding best_match
get_best_piece_info_match store pieces wanted = best_match store wanted none pieces
