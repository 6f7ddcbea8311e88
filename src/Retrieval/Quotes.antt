-- ===== src/Retrieval/Quotes.antt =====
-- retrievalmarket/impl/provider.go against retrievalmarket/impl/provider_environments.go: what a
-- query quotes is what the validation of a deal asks for.
use go_fil_markets.Prelude.{
  ℕ, ◌≡◌, refl, Bool, true, false, Option, none, some, List, [], ◌∷◌, Result, ok, err, arith, subst,
  ◌∙◌, ap, Bool-cases, inl, inr,
}
use go_fil_markets.Prelude.Int.{ℤ, pos, negsuc, ltb_ℤ}
use go_fil_markets.Retrieval.Params.{Cid}
use go_fil_markets.Retrieval.Pieces.Failure.{Failure, found}
use go_fil_markets.Retrieval.Pieces.Search.{
  Store, get_all_piece_info, get_storage_deals, get_best_piece_info_match, defined,
}
use go_fil_markets.Retrieval.Client.Deal.{PeerId, Address}
use go_fil_markets.Retrieval.Provider.Deal.{DealInfo, PieceInfo}
use go_fil_markets.Retrieval.Pricing.{
  Ask, wanted_cid, specific, ask_for, get_piece, get_ask, piece_among, ask_among, piece_answer,
  check_deal_params, below,
}
use go_fil_markets.Retrieval.Provider.Handlers.{or_zero}
use go_fil_markets.Retrieval.Query.{
  available, unavailable, QueryResponse, QueryEnv, quoted, quote, sized, answered, no_piece,
  with_pieces, with_address, with_head, handle_query, first_answer,
}

-- The terms of an answer are those of an ask.
abbrev pub Terms : Ask → QueryResponse → Type 0
Terms ask answer =
    (answer.min_price_per_byte ≡ ask.price_per_byte)
    × (answer.max_payment_interval ≡ ask.payment_interval)
    × (answer.max_payment_interval_increase ≡ ask.payment_interval_increase)
    × (answer.unseal_price ≡ ask.unseal_price)

quoted-Terms :
    (answer : QueryResponse) (r : Result Ask)
    → (quoted answer r).status ≡ available
    → (ask : Ask) × (r ≡ ok ask) × Terms ask (quoted answer r)
quoted-Terms answer (err e) h = ground (arith, h)
quoted-Terms answer (ok ask) h = (ask, refl, (refl, refl, refl, refl))

quote-Terms :
    (env : QueryEnv) (client : PeerId) (payload : Cid) (piece : PieceInfo) (unsealed : Bool)
    (answer : QueryResponse) (last : Option Failure) (ids : List ℕ)
    → (quote env client payload (piece, unsealed) answer last ids).status ≡ available
    → (ask : Ask) × (ask_for env.pricing payload piece unsealed client last ids ≡ ok ask)
      × Terms ask (quote env client payload (piece, unsealed) answer last ids)
quote-Terms env client payload piece unsealed answer none [] h = ground (arith, h)
quote-Terms env client payload piece unsealed answer (some e) [] h = ground (arith, h)
quote-Terms env client payload piece unsealed answer last (i ∷ is) h = quoted-Terms answer _ h

abbrev Quoted : QueryEnv → PeerId → Cid → Option Cid → QueryResponse → Type 0
Quoted env client payload wanted answer =
    (piece : PieceInfo) × (unsealed : Bool) × (ask : Ask) × (get_piece env.pricing payload wanted
      ≡ some (found (piece, unsealed)))
    × (get_ask env.pricing payload wanted piece unsealed client ≡ some (ok ask))
    × Terms ask answer

ltb_ℤ_irrefl : (a : ℤ) → ltb_ℤ a a ≡ false
ltb_ℤ_irrefl (pos n) = ground arith
ltb_ℤ_irrefl (negsuc n) = ground arith

below-own : (u : Option ℤ) → below (or_zero u) u ≡ false
below-own none = refl
below-own (some a) = ltb_ℤ_irrefl a

within-ask :
    (ask : Ask)
    → check_deal_params ask ask.price_per_byte ask.payment_interval ask.payment_interval_increase
        (or_zero ask.unseal_price)
      ≡ ok tt
unfolding check_deal_params
within-ask ask = ground (arith, ltb_ℤ_irrefl ask.price_per_byte, below-own ask.unseal_price)

within-Terms :
    (ask : Ask) (answer : QueryResponse)
    → Terms ask answer
    → check_deal_params ask answer.min_price_per_byte answer.max_payment_interval
        answer.max_payment_interval_increase
        (or_zero answer.unseal_price)
      ≡ ok tt
within-Terms ask answer (p, i, j, u) = rw (p, i, j, u) (within-ask ask)

-- An answer that says that data is available is a quote.
abbrev Fair : QueryEnv → PeerId → Cid → Option Cid → Option (Result QueryResponse) → Type 0
Fair env client payload wanted none = Unit
Fair env client payload wanted (some (err e)) = Unit
Fair env client payload wanted (some (ok answer)) =
    answer.status ≡ available → Quoted env client payload wanted answer

no_piece-Fair :
    (env : QueryEnv) (client : PeerId) (payload : Cid) (wanted : Option Cid)
    (answer : QueryResponse) (last : Option Failure)
    → answer.status ≡ unavailable
    → Fair env client payload wanted (some (ok (no_piece answer last)))
no_piece-Fair env client payload wanted answer none u h = ground (arith, u, h)
no_piece-Fair env client payload wanted answer (some e) u h = ground (arith, u, h)

piece_answer-defined :
    (store : Store) (wanted : Option Cid) (last : Option Failure) (piece : PieceInfo)
    (unsealed : Bool)
    → defined piece ≡ true
    → piece_answer store wanted last (piece, unsealed) ≡ some (found (piece, unsealed))
piece_answer-defined store wanted (some e) piece unsealed q = rw q refl
piece_answer-defined store (some c) none piece unsealed q = rw q refl
piece_answer-defined store none none piece unsealed q = rw q refl

module _ (env : QueryEnv) (client : PeerId) (payload : Cid) (wanted : Option Cid) where
  answered-Fair :
      (answer : QueryResponse) (pieces : List PieceInfo) (last : Option Failure) (piece : PieceInfo)
      (unsealed : Bool)
      → answer.status ≡ unavailable
      → get_all_piece_info env.pricing.store env.pricing.depth payload ≡ some (pieces, last)
      → get_best_piece_info_match env.pricing.store pieces (wanted_cid wanted) ≡ (piece, unsealed)
      → Fair env client payload wanted
          (answered env client payload wanted answer pieces last (piece, unsealed))
  unfolding get_piece get_ask
  answered-Fair answer pieces last piece unsealed u all best = elim (Bool-cases (defined piece)) [
    | inr q ↦ rw q (no_piece-Fair env client payload wanted answer last u)
    | inl q ↦ rw q (sized-Fair q piece.deals)
  ]
    where
      sized-Fair :
          defined piece ≡ true
          → (deals : List DealInfo)
          → Fair env client payload wanted (
              sized env client payload
                (piece, unsealed)
                answer
                last
                deals
                (get_storage_deals (specific wanted) pieces piece))
      sized-Fair q [] = tt
      sized-Fair q (deal ∷ deals) = λ h.
          let (ask, asked, terms) = quote-Terms env client payload piece unsealed _ last _ h in
          (
            piece,
            unsealed,
            ask,
            ap (piece_among env.pricing wanted) all
                ∙ ap (piece_answer env.pricing.store wanted last) best
                ∙ piece_answer-defined env.pricing.store wanted last piece unsealed q,
            ap (ask_among env.pricing payload wanted piece unsealed client) all ∙ ap some asked,
            terms,
          )

  pieces-Fair :
      (answer : QueryResponse) (o : Option (List PieceInfo × Option Failure))
      → answer.status ≡ unavailable
      → get_all_piece_info env.pricing.store env.pricing.depth payload ≡ o
      → Fair env client payload wanted (with_pieces env client payload wanted answer o)
  pieces-Fair answer none u all = tt
  pieces-Fair answer (some (pieces, last)) u all = answered-Fair answer pieces last _ _ u all refl

  address-Fair :
      (r : Result Address)
      → Fair env client payload wanted (with_address env client payload wanted r)
  address-Fair (err e) = λ h. ground (arith, h)
  address-Fair (ok a) = pieces-Fair (record first_answer { payment_address = some a }) _ refl refl

  head-Fair :
      (r : Result ℕ) → Fair env client payload wanted (with_head env client payload wanted r)
  head-Fair (err e) = tt
  head-Fair (ok head) = address-Fair (env.worker_address head)

  -- What a query quotes is what a deal must offer: when the provider answers that the data is
  -- available, its validation finds a piece and an ask for it whose price per byte, intervals and price
  -- of unsealing are those of the answer, and a proposal on the quoted terms is within the ask.
  pub quote_honoured :
      (answer : QueryResponse)
      → handle_query env client payload wanted ≡ some (ok answer)
      → answer.status ≡ available
      → (piece : PieceInfo) × (unsealed : Bool) × (ask : Ask) × (get_piece env.pricing payload
            wanted
          ≡ some (found (piece, unsealed)))
        × (get_ask env.pricing payload wanted piece unsealed client ≡ some (ok ask))
        × Terms ask answer
        × (check_deal_params ask answer.min_price_per_byte answer.max_payment_interval
              answer.max_payment_interval_increase
              (or_zero answer.unseal_price)
            ≡ ok tt)
  unfolding handle_query
  quote_honoured answer h a =
      let (piece, unsealed, ask, located, asked, terms) =
        subst (Fair env client payload wanted) h (head-Fair env.chain_head) a in
      (piece, unsealed, ask, located, asked, terms, within-Terms ask answer terms)

  -- A query for a payload whose best piece is known to the piece store without a deal is never
  -- answered: the length of its first deal is read without a check that there is one.
  pub dealless_piece_panics :
      (head : ℕ) (address : Address) (pieces : List PieceInfo) (last : Option Failure)
      (piece : PieceInfo) (unsealed : Bool)
      → env.chain_head ≡ ok head
      → env.worker_address head ≡ ok address
      → get_all_piece_info env.pricing.store env.pricing.depth payload ≡ some (pieces, last)
      → get_best_piece_info_match env.pricing.store pieces (wanted_cid wanted) ≡ (piece, unsealed)
      → defined piece ≡ true
      → piece.deals ≡ []
      → handle_query env client payload wanted ≡ none
  unfolding handle_query
  dealless_piece_panics head address pieces last piece unsealed h a all best q empty =
      let answer : QueryResponse = record first_answer { payment_address = some address } in
      ap (with_head env client payload wanted) h
      ∙ ap (with_address env client payload wanted) a
      ∙ ap (with_pieces env client payload wanted answer) all
      ∙ ap (answered env client payload wanted answer pieces last) best
      ∙ rw (q, empty) refl
