-- ===== src/Examples/Pieces.antt =====
-- piecestore/impl/piecestore.go at a concrete store.
use go_fil_markets.Prelude.{◌==◌, ◌≡◌, refl, false, none, some, [], ◌∷◌, ok, if◌then◌else◌}
use mathlib.Core.List.{Mem, not-mem-nil}
use go_fil_markets.Retrieval.Params.{Cid}
use go_fil_markets.Retrieval.Provider.Deal.{DealInfo, PieceInfo}
use go_fil_markets.Piecestore.Table.{Cells, changed, reference_table}
use go_fil_markets.Piecestore.Store.{same_deal, add_entry, ensure_piece_info, add_deal_for_piece}
use go_fil_markets.Piecestore.Deals.{Distinct, Grown, deal_added}
use go_fil_markets.Examples.Data.{deal_info, piece}

abbrev second_deal : DealInfo
second_deal = record { deal_id = 33; sector_id = 34; offset = 128; length = 256 }

abbrev one_piece : Cells PieceInfo
one_piece c = if c == 40 then some piece else none

abbrev two_deals : Cells PieceInfo
two_deals =
    changed one_piece 40
      (λ info. record info { deals = add_entry same_deal second_deal info.deals })

second_added : add_deal_for_piece reference_table one_piece 40 second_deal ≡ ok two_deals
unfolding add_deal_for_piece ensure_piece_info
second_added = refl

deal_added_example :
    Grown second_deal (deal_info ∷ []) (deal_info ∷ second_deal ∷ [])
    × Mem second_deal (deal_info ∷ second_deal ∷ [])
    × Distinct (deal_info ∷ second_deal ∷ [])
    × ((c' : Cid) → (c' == 40) ≡ false → two_deals c' ≡ one_piece c')
deal_added_example =
    deal_added reference_table one_piece two_deals 40 second_deal second_added (not-mem-nil, tt)
