-- ===== src/Retrieval/Pricing.antt =====
-- retrievalmarket/impl/provider.go: `GetDynamicAsk` and the default pricing policy;
-- retrievalmarket/impl/provider_environments.go: `GetPiece`, `GetAsk` and `CheckDealParams`.
use go_fil_markets.Prelude.{
  ℕ, Bool, true, false, ◌&&◌, Option, none, some, List, [], ◌∷◌, Result, ok, err, if◌then◌else◌,
  ltb,
}
use go_fil_markets.Prelude.Int.{ℤ, pos, ltb_ℤ}
use go_fil_markets.Text.{wrap, enclose}
use go_fil_markets.Retrieval.Params.{Cid}
use go_fil_markets.Retrieval.Pieces.Failure.{Failure, failure, text, Found, found, failed}
use go_fil_markets.Retrieval.Pieces.Search.{
  Store, get_all_piece_info, get_storage_deals, get_best_piece_info_match, defined,
}
use go_fil_markets.Retrieval.Client.Deal.{PeerId}
use go_fil_markets.Retrieval.Provider.Deal.{PieceInfo}

-- `Ask`: an unseal price may be nil.
pub record Ask : Type 0 where
  pub price_per_byte : ℤ
  pub unseal_price : Option ℤ
  pub payment_interval : ℕ
  pub payment_interval_increase : ℕ

pub record PricingInput : Type 0 where
  pub payload_cid : Cid
  pub piece_cid : Cid
  pub piece_size : ℕ
  pub client : PeerId
  pub verified_deal : Bool
  pub unsealed : Bool
  pub current_ask : Ask

-- What the provider prices with: the node's answer for a piece and its deals, the ask store, and
-- the configured pricing function; `depth` bounds the nesting of identity CIDs.
pub record Pricing : Type 0 where
  pub store : Store
  pub depth : ℕ
  pub retrieval_pricing_input : Cid → List ℕ → Result PricingInput
  pub current_ask : Option Ask
  pub pricing : PricingInput → Result Ask

-- `DefaultPricingFunc`
unfoldable pub default_pricing : Bool → PricingInput → Result Ask
default_pricing verified_free input =
    let ask = input.current_ask in
    let unsealing = if input.unsealed then some (pos 0) else ask.unseal_price in
    ok (record ask {
      unseal_price = unsealing;
      price_per_byte = if input.verified_deal && verified_free then pos 0 else ask.price_per_byte;
    })

-- The input that the node gives, completed by what is asked.
abbrev pub completed_input : PricingInput → Cid → Cid → Bool → PeerId → Ask → PricingInput
completed_input input payload piece unsealed client ask = record input {
  payload_cid = payload;
  piece_cid = piece;
  unsealed = unsealed;
  client = client;
  current_ask = ask;
}

abbrev pub priced : Pricing → PricingInput → Result Ask
priced p input = elim (p.pricing input) [
  | err e ↦ err (wrap "retrievalPricingFunc" e)
  | ok ask ↦ ok ask
]

-- `GetDynamicAsk`
unfoldable pub get_dynamic_ask : Pricing → Cid → Cid → Bool → PeerId → List ℕ → Result Ask
get_dynamic_ask p payload piece unsealed client deals =
    elim (p.retrieval_pricing_input piece deals) [
      | err e ↦ err (wrap "GetRetrievalPricingInput" e)
      | ok input ↦ elim p.current_ask [
        | none ↦ err "no ask configured in ask-store"
        | some ask ↦ priced p (completed_input input payload piece unsealed client ask)
      ]
    ]

-- A piece that the client asked for, if it did.
abbrev pub wanted_cid : Option Cid → Cid
wanted_cid none = 0
wanted_cid (some c) = c

-- `GetPiece` once the pieces are read. Its last error prints the CID of a piece that the client may
-- not have named: `none` is the nil pointer that it then follows.
abbrev pub piece_answer :
    Store → Option Cid → Option Failure → PieceInfo × Bool → Option (Found (PieceInfo × Bool))
piece_answer store wanted (some e) (piece, unsealed) =
    some (if defined piece then found (piece, unsealed) else failed e)
piece_answer store (some c) none (piece, unsealed) = some (
    if defined piece
    then found (piece, unsealed)
    else failed (failure (enclose "unknown pieceCID " (store.index.cid_text c) "")))
piece_answer store none none (piece, unsealed) =
    if defined piece then some (found (piece, unsealed)) else none

abbrev pub piece_among :
    Pricing
    → Option Cid
    → Option (List PieceInfo × Option Failure)
    → Option (Found (PieceInfo × Bool))
piece_among p wanted none = none
piece_among p wanted (some (pieces, last)) =
    piece_answer p.store wanted last (get_best_piece_info_match p.store pieces (wanted_cid wanted))

-- `GetPiece`
unfoldable pub get_piece : Pricing → Cid → Option Cid → Option (Found (PieceInfo × Bool))
get_piece p payload wanted = piece_among p wanted (get_all_piece_info p.store p.depth payload)

abbrev pub specific : Option Cid → Bool
specific none = false
specific (some c) = true

-- `GetAsk` once the storage deals are known.
abbrev pub ask_for :
    Pricing → Cid → PieceInfo → Bool → PeerId → Option Failure → List ℕ → Result Ask
ask_for p payload piece unsealed client (some e) [] = err (
    wrap (enclose "failed to fetch deals for payload [" (p.store.index.cid_text payload) "]")
      (text e))
ask_for p payload piece unsealed client none [] =
    err (enclose "no storage deals found for payload [" (p.store.index.cid_text payload) "]")
ask_for p payload piece unsealed client last (deal ∷ deals) =
    get_dynamic_ask p payload piece.piece_cid unsealed client (deal ∷ deals)

abbrev pub ask_among :
    Pricing
    → Cid
    → Option Cid
    → PieceInfo
    → Bool
    → PeerId
    → Option (List PieceInfo × Option Failure)
    → Option (Result Ask)
ask_among p payload wanted piece unsealed client none = none
ask_among p payload wanted piece unsealed client (some (pieces, last)) = some (
    ask_for p payload piece unsealed client last (get_storage_deals (specific wanted) pieces piece))

-- `GetAsk`
unfoldable pub get_ask :
    Pricing → Cid → Option Cid → PieceInfo → Bool → PeerId → Option (Result Ask)
get_ask p payload wanted piece unsealed client =
    ask_among p payload wanted piece unsealed client (get_all_piece_info p.store p.depth payload)

-- Whether an unseal price is below the ask's, which may be nil.
abbrev pub below : ℤ → Option ℤ → Bool
below price none = false
below price (some least) = ltb_ℤ price least

-- `CheckDealParams`
unfoldable pub check_deal_params : Ask → ℤ → ℕ → ℕ → ℤ → Result (Unit {0})
check_deal_params ask price interval increase unseal =
    if ltb_ℤ price ask.price_per_byte
    then err "Price per byte too low"
    else if ltb ask.payment_interval interval
    then err "Payment interval too large"
    else if ltb ask.payment_interval_increase increase
    then err "Payment interval increase too large"
    else if below unseal ask.unseal_price
    then err "Unseal price too small"
    else ok tt
