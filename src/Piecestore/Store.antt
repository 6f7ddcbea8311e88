-- ===== src/Piecestore/Store.antt =====
-- piecestore/impl/piecestore.go: `AddDealForPiece` and `AddPieceBlockLocations` over tables of
-- records; piecestore/types.go: the records of blocks.
use go_fil_markets.Prelude.{
  ℕ, Bool, false, ◌==◌, ◌&&◌, ◌||◌, List, [], ◌∷◌, ◌++◌, Result, ok, err, Option, none, some,
  String, map, if◌then◌else◌, ◌>>=◌,
}
use go_fil_markets.Text.{wrap, enclose}
use go_fil_markets.Retrieval.Params.{Cid}
use go_fil_markets.Retrieval.Provider.Deal.{DealInfo, PieceInfo}
use go_fil_markets.Piecestore.Table.{Table}

pub record BlockLocation : Type 0 where
  pub rel_offset : ℕ
  pub block_size : ℕ

pub record PieceBlockLocation : Type 0 where
  pub block_location : BlockLocation
  pub piece_cid : Cid

pub record CidInfo : Type 0 where
  pub cid : Cid
  pub piece_block_locations : List PieceBlockLocation

abbrev pub same_deal : DealInfo → DealInfo → Bool
same_deal a b =
    a.deal_id == b.deal_id
    && a.sector_id == b.sector_id
    && a.offset == b.offset
    && a.length == b.length

abbrev pub same_location : PieceBlockLocation → PieceBlockLocation → Bool
same_location a b =
    a.piece_cid == b.piece_cid
    && a.block_location.rel_offset == b.block_location.rel_offset
    && a.block_location.block_size == b.block_location.block_size

module _ {ℓ} {A : Type ℓ} (same : A → A → Bool) where
  abbrev pub known : A → List A → Bool
  known a [] = false
  known a (x ∷ xs) = same x a || known a xs

  -- An entry is added at the end unless it is there.
  abbrev pub add_entry : A → List A → List A
  add_entry a xs = if known a xs then xs else xs ++ a ∷ []

module _ {S : Type 0} (pieces : Table PieceInfo S) where
  -- `ensurePieceInfo`
  unfoldable pub ensure_piece_info : S → Cid → Result S
  ensure_piece_info s c =
      pieces.has s c
      >>= (λ found. if found then ok s else pieces.begin s c (record { piece_cid = c; deals = [] }))

  -- `AddDealForPiece`, with `mutatePieceInfo`
  unfoldable pub add_deal_for_piece : S → Cid → DealInfo → Result S
  unfolding ensure_piece_info
  add_deal_for_piece s c deal = ensure_piece_info s c >>= (λ s'.
      pieces.mutate s' c (λ info. record info { deals = add_entry same_deal deal info.deals }))

module _ {S : Type 0} (cids : Table CidInfo S) where
  -- `ensureCIDInfo`
  unfoldable pub ensure_cid_info : S → Cid → Result S
  ensure_cid_info s c = cids.has s c >>= (λ found.
      if found then ok s else cids.begin s c (record { cid = c; piece_block_locations = [] }))

  -- One block of `AddPieceBlockLocations`, with `mutateCIDInfo`
  unfoldable pub add_block_location : S → Cid → Cid → BlockLocation → Result S
  unfolding ensure_cid_info
  add_block_location s piece c location = ensure_cid_info s c >>= (λ s'. cids.mutate s' c (λ info.
      record info {
        piece_block_locations =
            add_entry same_location (record { block_location = location; piece_cid = piece })
              info.piece_block_locations;
      }))

  -- `AddPieceBlockLocations`: the blocks in the order in which the map is read.
  unfoldable pub add_piece_block_locations : S → Cid → List (Cid × BlockLocation) → Result S
  unfolding add_block_location
  add_piece_block_locations s piece [] = ok s
  add_piece_block_locations s piece ((c, location) ∷ blocks) =
      add_block_location s piece c location >>= (λ s'. add_piece_block_locations s' piece blocks)

  abbrev found_or_error : (Cid → String) → Cid → Option CidInfo → Result CidInfo
  found_or_error cid_text c none = err (wrap (enclose "payload CID " (cid_text c) "") "not found")
  found_or_error cid_text c (some info) = ok info

  -- `GetCIDInfo`
  unfoldable pub get_cid_info : (Cid → String) → S → Cid → Result CidInfo
  get_cid_info cid_text s c = found_or_error cid_text c (cids.get s c)

-- `ListPieceInfoKeys`, on the records of the state store
abbrev pub list_piece_info_keys : Result (List PieceInfo) → Result (List Cid)
list_piece_info_keys infos = infos >>= (λ is. ok (map (λ (i : PieceInfo). i.piece_cid) is))

-- `ListCidInfoKeys`
abbrev pub list_cid_info_keys : Result (List CidInfo) → Result (List Cid)
list_cid_info_keys infos = infos >>= (λ is. ok (map (λ (i : CidInfo). i.cid) is))
