-- ===== src/Examples/Searches.antt =====
-- retrievalmarket/impl/provider_pieces.go and the queries of provider.go at a concrete store.
use go_fil_markets.Prelude.{
  ◌≡◌, ◌<◌, ◌↔◌, refl, Bool, true, none, some, List, [], ◌∷◌, All, arith, ok, subst,
}
use go_fil_markets.Prelude.Int.{pos}
use go_fil_markets.Retrieval.Params.{Cid}
use go_fil_markets.Retrieval.Pieces.Failure.{Found, found, failed}
use go_fil_markets.Retrieval.Pieces.Identity.{
  is_in, links_from_identity_cid, links_of, gather, limit_links, pieces_with_all, common_pieces,
}
use go_fil_markets.Retrieval.Pieces.Search.{
  get_best_piece_info_match, best_match, in_unsealed_sector, get_all_piece_info, read_pieces,
  get_piece_info,
}
use go_fil_markets.Retrieval.Pieces.Links.{Shrinks, Holds, pieces_with_all_exact}
use go_fil_markets.Retrieval.Provider.Deal.{PieceInfo}
use go_fil_markets.Retrieval.Provider.Handlers.{or_zero}
use go_fil_markets.Retrieval.Pricing.{Ask, get_piece, get_ask, get_dynamic_ask, check_deal_params}
use go_fil_markets.Retrieval.Query.{QueryResponse, available, handle_query}
use go_fil_markets.Retrieval.Quotes.{Terms, quote_honoured}
use go_fil_markets.Examples.Data.{
  piece, dealless_piece, index, identity_links, store, pricing, query_env,
}

abbrev Shorter : Cid → Found (List Cid) → Type 0
Shorter c (failed e) = Unit
Shorter c (found links) =
    All (λ l. index.is_identity l ≡ true → index.hash_bytes l < index.hash_bytes c) links

links-Shorter : (c : Cid) → Shorter c (identity_links c)
links-Shorter c = ground arith

index-Shrinks : Shrinks index
index-Shrinks c links h = subst (Shorter c) h (links-Shorter c)

links_of_60 : links_from_identity_cid index 3 60 ≡ some (found (50 ∷ []))
unfolding links_from_identity_cid links_of gather limit_links
links_of_60 = refl

pieces_of_50 : pieces_with_all index (50 ∷ []) ≡ found (40 ∷ 42 ∷ [])
unfolding pieces_with_all common_pieces
pieces_of_50 = refl

pieces_with_all_exact_example : (is_in 42 (40 ∷ 42 ∷ []) ≡ true) ↔ All (Holds index 42) (50 ∷ [])
pieces_with_all_exact_example = pieces_with_all_exact index 42 50 [] (40 ∷ 42 ∷ []) pieces_of_50

best_of_two : get_best_piece_info_match store (dealless_piece ∷ piece ∷ []) 0 ≡ (piece, true)
unfolding get_best_piece_info_match best_match in_unsealed_sector
best_of_two = refl

abbrev quote : QueryResponse
quote = record {
  status = available;
  piece_cid_found = true;
  size = 128;
  payment_address = some 12;
  min_price_per_byte = pos 3;
  max_payment_interval = 10;
  max_payment_interval_increase = 5;
  message = "";
  unseal_price = some (pos 7);
}

quoted_50 : handle_query query_env 13 50 none ≡ some (ok quote)
unfolding handle_query get_all_piece_info read_pieces get_piece_info get_best_piece_info_match
    best_match in_unsealed_sector get_dynamic_ask
quoted_50 = refl

quote_honoured_example :
    (found_piece : PieceInfo) × (unsealed : Bool) × (asked : Ask) × (get_piece pricing 50 none
      ≡ some (found (found_piece, unsealed)))
    × (get_ask pricing 50 none found_piece unsealed 13 ≡ some (ok asked))
    × Terms asked quote
    × (check_deal_params asked (pos 3) 10 5 (or_zero (some (pos 7))) ≡ ok tt)
quote_honoured_example = quote_honoured query_env 13 50 none quote quoted_50 refl
