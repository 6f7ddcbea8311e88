-- ===== src/Retrieval/Query.antt =====
-- retrievalmarket/impl/provider.go: `HandleQueryStream`, as the answer that is written to the
-- stream; retrievalmarket/types.go: `QueryResponse`.
use go_fil_markets.Prelude.{
  ℕ, Bool, true, false, Option, none, some, List, [], ◌∷◌, String, Result, ok, err, if◌then◌else◌,
}
use go_fil_markets.Prelude.Int.{ℤ, pos, ◌+ℤ◌, ◌*ℤ◌}
use go_fil_markets.Prelude.Words.{int64}
use go_fil_markets.Text.{wrap, enclose}
use go_fil_markets.Retrieval.Params.{Cid}
use go_fil_markets.Retrieval.Pieces.Failure.{Failure, text, caused_by_not_found}
use go_fil_markets.Retrieval.Pieces.Search.{
  get_all_piece_info, get_storage_deals, get_best_piece_info_match, defined,
}
use go_fil_markets.Retrieval.Client.Deal.{Address, PeerId}
use go_fil_markets.Retrieval.Provider.Deal.{DealInfo, PieceInfo}
use go_fil_markets.Retrieval.Pricing.{Ask, Pricing, get_dynamic_ask, wanted_cid, specific}

-- `QueryResponseStatus`; `QueryItemStatus` is available or not here.
pub data QueryStatus : Type 0 where
  available unavailable query_error : QueryStatus

pub record QueryResponse : Type 0 where
  pub status : QueryStatus
  pub piece_cid_found : Bool
  pub size : ℕ
  pub payment_address : Option Address
  pub min_price_per_byte : ℤ
  pub max_payment_interval : ℕ
  pub max_payment_interval_increase : ℕ
  pub message : String
  pub unseal_price : Option ℤ

-- `PieceRetrievalPrice`
unfoldable pub piece_retrieval_price : QueryResponse → Option ℤ
piece_retrieval_price r = elim r.unseal_price [
  | none ↦ none
  | some unseal ↦ some (r.min_price_per_byte *ℤ int64 r.size +ℤ unseal)
]

-- The parts of the provider that a query uses besides its pricing. The length of a deal's piece is
-- that without padding.
pub record QueryEnv : Type 0 where
  pub pricing : Pricing
  pub chain_head : Result ℕ
  pub worker_address : ℕ → Result Address
  pub unpadded : ℕ → ℕ

abbrev pub first_answer : QueryResponse
first_answer = record {
  status = unavailable;
  piece_cid_found = false;
  size = 0;
  payment_address = none;
  min_price_per_byte = pos 0;
  max_payment_interval = 0;
  max_payment_interval_increase = 0;
  message = "";
  unseal_price = some (pos 0);
}

abbrev pub no_piece_message : String
no_piece_message = "piece info for cid not found (deal has not been added to a piece yet)"

-- The answer when no piece is found.
abbrev pub no_piece : QueryResponse → Option Failure → QueryResponse
no_piece answer none = record answer { message = no_piece_message }
no_piece answer (some e) =
    if caused_by_not_found e then record answer { message = no_piece_message } else record answer {
      status = query_error;
      message = wrap "failed to fetch piece to retrieve from" (text e);
    }

-- The answer when no storage deal is found.
abbrev pub no_deals : QueryResponse → String → Option Failure → QueryResponse
no_deals answer payload none = record answer {
  status = query_error;
  message = enclose "failed to fetch storage deals containing payload [" payload "]";
}
no_deals answer payload (some e) = record answer {
  status = query_error;
  message =
      wrap (enclose "failed to fetch storage deals containing payload [" payload "]") (text e);
}

-- The answer with a price, or with what went wrong.
abbrev pub quoted : QueryResponse → Result Ask → QueryResponse
quoted answer (err e) = record answer {
  status = query_error;
  message = wrap "failed to price deal" e;
}
quoted answer (ok ask) = record answer {
  min_price_per_byte = ask.price_per_byte;
  max_payment_interval = ask.payment_interval;
  max_payment_interval_increase = ask.payment_interval_increase;
  unseal_price = ask.unseal_price;
}

abbrev pub quote :
    QueryEnv
    → PeerId
    → Cid
    → PieceInfo × Bool
    → QueryResponse
    → Option Failure
    → List ℕ
    → QueryResponse
quote env client payload best answer last [] =
    no_deals answer (env.pricing.store.index.cid_text payload) last
quote env client payload (piece, unsealed) answer last (deal ∷ deals) =
    quoted answer
      (get_dynamic_ask env.pricing payload piece.piece_cid unsealed client (deal ∷ deals))

-- The answer for a piece. The size is that of its first deal, which is read without a check that
-- there is one: `none` is the index out of range.
abbrev pub sized :
    QueryEnv
    → PeerId
    → Cid
    → PieceInfo × Bool
    → QueryResponse
    → Option Failure
    → List DealInfo
    → List ℕ
    → Option (Result QueryResponse)
sized env client payload best answer last [] ids = none
sized env client payload best answer last (deal ∷ deals) ids = some (
    ok (
      quote env client payload best
        (record answer {
          status = available;
          size = env.unpadded deal.length;
          piece_cid_found = true;
        })
        last ids))

abbrev pub answered :
    QueryEnv
    → PeerId
    → Cid
    → Option Cid
    → QueryResponse
    → List PieceInfo
    → Option Failure
    → PieceInfo × Bool
    → Option (Result QueryResponse)
answered env client payload wanted answer pieces last (piece, unsealed) =
    if defined piece
    then sized env client payload (piece, unsealed) answer last piece.deals
        (get_storage_deals (specific wanted) pieces piece)
    else some (ok (no_piece answer last))

abbrev pub with_pieces :
    QueryEnv
    → PeerId
    → Cid
    → Option Cid
    → QueryResponse
    → Option (List PieceInfo × Option Failure)
    → Option (Result QueryResponse)
with_pieces env client payload wanted answer none = none
with_pieces env client payload wanted answer (some (pieces, last)) =
    answered env client payload wanted answer pieces last
      (get_best_piece_info_match env.pricing.store pieces (wanted_cid wanted))

abbrev pub with_address :
    QueryEnv → PeerId → Cid → Option Cid → Result Address → Option (Result QueryResponse)
with_address env client payload wanted (err e) = some (
    ok (record first_answer {
      status = query_error;
      message = wrap "failed to look up payment address" e;
    }))
with_address env client payload wanted (ok address) =
    with_pieces env client payload wanted (record first_answer { payment_address = some address })
      (get_all_piece_info env.pricing.store env.pricing.depth payload)

abbrev pub with_head :
    QueryEnv → PeerId → Cid → Option Cid → Result ℕ → Option (Result QueryResponse)
with_head env client payload wanted (err e) = some (err (wrap "Retrieval query: GetChainHead" e))
with_head env client payload wanted (ok head) =
    with_address env client payload wanted (env.worker_address head)

-- `HandleQueryStream` on a query that was read. A chain head that cannot be read is published as an
-- error, `err`, and nothing is answered.
unfoldable pub handle_query : QueryEnv → PeerId → Cid → Option Cid → Option (Result QueryResponse)
handle_query env client payload wanted = with_head env client payload wanted env.chain_head
