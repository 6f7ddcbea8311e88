-- ===== src/Retrieval/Pieces/Causes.antt =====
-- retrievalmarket/impl/provider_pieces.go and piecestore/impl/piecestore.go: the errors of the
-- search for pieces wrap `ErrNotFound`, and are never that value itself.
use go_fil_markets.Prelude.{
  ℕ, zero, suc, ◌≡◌, refl, Bool, true, false, Option, none, some, List, [], ◌∷◌, if◌then◌else◌, ltb,
  arith,
}
use go_fil_markets.Retrieval.Params.{Cid}
use go_fil_markets.Retrieval.Pieces.Failure.{
  Failure, not_found, wraps_not_found, failure, is_not_found, wrapped, Found, found, failed,
}
use go_fil_markets.Retrieval.Pieces.Identity.{
  Index, add_new, and_then, opened, gather, limit_links, links_of, links_from_identity_cid,
  intersection, with_pieces, common_pieces, pieces_with_all, max_identity_cid_bytes,
}
use go_fil_markets.Retrieval.Pieces.Search.{
  Store, pieces_of_links, pieces_or_error, get_piece_info, get_common_pieces, read_pieces,
  get_all_piece_info,
}
use go_fil_markets.Retrieval.Provider.Deal.{PieceInfo}
use go_fil_markets.Retrieval.Pricing.{Pricing, get_piece, piece_answer}

-- The decoding of identity CIDs is not the market's, and does not return its error value.
abbrev pub Foreign : Index → Type 0
Foreign index = (c : Cid) (e : Failure) → index.linked c ≡ failed e → is_not_found e ≡ false

abbrev Wraps {ℓ} : {A : Type ℓ} → Found A → Type 0
Wraps (failed e) = is_not_found e ≡ false
Wraps (found a) = Unit

abbrev pub WrapsAny {ℓ} : {A : Type ℓ} → Option (Found A) → Type 0
WrapsAny none = Unit
WrapsAny (some f) = Wraps f

abbrev WrapsLast : Option Failure → Type 0
WrapsLast none = Unit
WrapsLast (some e) = is_not_found e ≡ false

wrapped-Wraps : (context : _) (e : Failure) → is_not_found (wrapped context e) ≡ false
wrapped-Wraps context not_found = refl
wrapped-Wraps context (wraps_not_found s) = refl
wrapped-Wraps context (failure s) = refl

and_then-Wraps :
    (o : Option (Found (List Cid))) (rest : List Cid → Option (Found (List Cid)))
    → WrapsAny o
    → ((cids : List Cid) → WrapsAny (rest cids))
    → WrapsAny (and_then o rest)
and_then-Wraps none rest h k = tt
and_then-Wraps (some (failed e)) rest h k = h
and_then-Wraps (some (found cids)) rest h k = k cids

if-Wraps :
    (b : Bool) (x y : Option (Found (List Cid)))
    → WrapsAny x
    → WrapsAny y
    → WrapsAny (if b then x else y)
if-Wraps true x y h k = h
if-Wraps false x y h k = k

gather-Wraps :
    (is_identity : Cid → Bool) (nested : Cid → Option (Found (List Cid))) (links result : List Cid)
    → ((l : Cid) → WrapsAny (nested l))
    → WrapsAny (gather is_identity nested result links)
unfolding gather
gather-Wraps is_identity nested [] result h = tt
gather-Wraps is_identity nested (l ∷ ls) result h =
    and_then-Wraps (opened is_identity nested l) _
      (if-Wraps (is_identity l) _ (some (found (l ∷ []))) (h l) tt)
      (λ cids. gather-Wraps is_identity nested ls (add_new result cids) h)

limit_links-Wraps : (cids : List Cid) → WrapsAny (limit_links cids)
unfolding limit_links
limit_links-Wraps cids = ground arith

links_of-Wraps :
    (index : Index) (nested : Cid → Option (Found (List Cid))) (f : Found (List Cid))
    → Wraps f
    → ((l : Cid) → WrapsAny (nested l))
    → WrapsAny (links_of index nested f)
unfolding links_of
links_of-Wraps index nested (failed e) w h = w
links_of-Wraps index nested (found links) w h =
    and_then-Wraps (gather index.is_identity nested [] links) limit_links
      (gather-Wraps index.is_identity nested links [] h) limit_links-Wraps

foreign-Wraps :
    (f : Found (List Cid)) → ((e : Failure) → f ≡ failed e → is_not_found e ≡ false) → Wraps f
foreign-Wraps (failed e) h = h e refl
foreign-Wraps (found a) h = tt

links_from-Wraps :
    (index : Index) (fuel : ℕ) (c : Cid)
    → Foreign index
    → WrapsAny (links_from_identity_cid index fuel c)
unfolding links_from_identity_cid
links_from-Wraps index zero c h = tt
links_from-Wraps index (suc fuel) c h =
    if-Wraps (index.is_identity c) _ _
      (if-Wraps (ltb max_identity_cid_bytes (index.hash_bytes c)) _ _ refl (
        links_of-Wraps index _ (index.linked c) (foreign-Wraps (index.linked c) (h c))
          (λ l. links_from-Wraps index fuel l h)))
      tt

with_pieces-Wraps :
    (index : Index) (l : Cid) (f : Found (List Cid)) (rest : List Cid → Found (List Cid))
    → ((cs : List Cid) → Wraps (rest cs))
    → Wraps (with_pieces index l f rest)
with_pieces-Wraps index l (failed e) rest h = wrapped-Wraps _ e
with_pieces-Wraps index l (found []) rest h = refl
with_pieces-Wraps index l (found (c ∷ cs)) rest h = h (c ∷ cs)

common_pieces-Wraps :
    (index : Index) (links pieces : List Cid) → Wraps (common_pieces index pieces links)
unfolding common_pieces
common_pieces-Wraps index [] pieces = tt
common_pieces-Wraps index (l ∷ ls) [] = tt
common_pieces-Wraps index (l ∷ ls) (x ∷ xs) =
    with_pieces-Wraps index l (index.pieces_with l) _
      (λ cs. common_pieces-Wraps index ls (intersection (x ∷ xs) cs))

pieces_with_all-Wraps : (index : Index) (links : List Cid) → Wraps (pieces_with_all index links)
unfolding pieces_with_all
pieces_with_all-Wraps index [] = tt
pieces_with_all-Wraps index (l ∷ ls) =
    with_pieces-Wraps index l (index.pieces_with l) _ (λ cs. common_pieces-Wraps index ls cs)

get_piece_info-Wraps : (store : Store) (c : Cid) → Wraps (get_piece_info store c)
unfolding get_piece_info
get_piece_info-Wraps store c = ground arith

read_pieces-Wraps : (store : Store) (cs : List Cid) → WrapsLast (read_pieces store cs).1
unfolding read_pieces
read_pieces-Wraps store [] = tt
read_pieces-Wraps store (c ∷ cs) =
    ground (arith, get_piece_info-Wraps store c, read_pieces-Wraps store cs)

pieces_of_links-Wraps :
    (store : Store) (o : Option (Found (List Cid)))
    → WrapsAny o
    → WrapsAny (pieces_of_links store o)
pieces_of_links-Wraps store none w = tt
pieces_of_links-Wraps store (some (failed e)) w = w
pieces_of_links-Wraps store (some (found links)) w = pieces_with_all-Wraps store.index links

get_common_pieces-Wraps :
    (store : Store) (depth : ℕ) (c : Cid)
    → Foreign store.index
    → WrapsAny (get_common_pieces store depth c)
unfolding get_common_pieces
get_common_pieces-Wraps store depth c h =
    pieces_of_links-Wraps store _ (links_from-Wraps store.index depth c h)

WrapsPieces : Option (List PieceInfo × Option Failure) → Type 0
WrapsPieces none = Unit
WrapsPieces (some (pieces, last)) = WrapsLast last

pieces_or_error-Wraps :
    (store : Store) (c : Cid) (e : Failure) (o : Option (Found (List Cid)))
    → WrapsAny o
    → WrapsPieces (pieces_or_error store c e o)
unfolding WrapsPieces
pieces_or_error-Wraps store c e none w = tt
pieces_or_error-Wraps store c e (some (failed e')) w = w
pieces_or_error-Wraps store c e (some (found [])) w = wrapped-Wraps _ e
pieces_or_error-Wraps store c e (some (found (x ∷ xs))) w = read_pieces-Wraps store (x ∷ xs)

get_all_piece_info-Wraps :
    (store : Store) (depth : ℕ) (c : Cid)
    → Foreign store.index
    → WrapsPieces (get_all_piece_info store depth c)
unfolding get_all_piece_info WrapsPieces
get_all_piece_info-Wraps store depth c h =
    let common = get_common_pieces-Wraps store depth c h in
    elim (store.index.pieces_with c)
      as (λ f. WrapsPieces (elim f as (λ f. Option (List PieceInfo × Option Failure)) [
        | found cids ↦ some (read_pieces store cids)
        | failed e ↦ pieces_or_error store c e (get_common_pieces store depth c)
      ])) [
        | found cids ↦ read_pieces-Wraps store cids
        | failed e ↦ pieces_or_error-Wraps store c e _ common
      ]

piece_answer-Wraps :
    (store : Store) (wanted : Option Cid) (last : Option Failure) (best : PieceInfo × Bool)
    → WrapsLast last
    → WrapsAny (piece_answer store wanted last best)
piece_answer-Wraps store wanted (some e) (piece, unsealed) h = ground (arith, h)
piece_answer-Wraps store (some c) none (piece, unsealed) h = ground arith
piece_answer-Wraps store none none (piece, unsealed) h = ground arith

-- The error of `GetPiece` is never the value `ErrNotFound` itself.
pub get_piece-Wraps :
    (p : Pricing) (payload : Cid) (wanted : Option Cid)
    → Foreign p.store.index
    → WrapsAny (get_piece p payload wanted)
unfolding get_piece WrapsPieces
get_piece-Wraps p payload wanted h =
    ground
      (arith, get_all_piece_info-Wraps p.store p.depth payload h, piece_answer-Wraps p.store wanted)
