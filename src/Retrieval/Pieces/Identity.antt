-- ===== src/Retrieval/Pieces/Identity.antt =====
-- retrievalmarket/impl/provider_pieces.go: the links of an identity CID, and the pieces that hold
-- all of them. What is read of a CID, its decoding and the index of the DAG store are a parameter.
use go_fil_markets.Prelude.{
  ℕ, zero, suc, Bool, false, ◌||◌, Option, none, some, List, [], ◌∷◌, ◌++◌, String, if◌then◌else◌,
  ltb, ◌==◌, length,
}
use go_fil_markets.Text.{decimal, enclose}
use go_fil_markets.Retrieval.Params.{Cid}
use go_fil_markets.Retrieval.Pieces.Failure.{failure, wrapped, Found, found, failed}

pub record Index : Type 0 where
  -- Whether the multihash is the identity, and the bytes of it.
  pub is_identity : Cid → Bool
  pub hash_bytes : Cid → ℕ
  pub cid_text : Cid → String
  -- The digest decoded as a node, and the links in it.
  pub linked : Cid → Found (List Cid)
  -- `GetPiecesContainingBlock`
  pub pieces_with : Cid → Found (List Cid)

-- `MaxIdentityCIDBytes`, `MaxIdentityCIDLinks`
abbrev pub max_identity_cid_bytes : ℕ
max_identity_cid_bytes = 2048

abbrev pub max_identity_cid_links : ℕ
max_identity_cid_links = 32

abbrev pub is_in : Cid → List Cid → Bool
is_in c [] = false
is_in c (x ∷ xs) = c == x || is_in c xs

-- A CID is added at the end unless it is there.
abbrev pub add_new : List Cid → List Cid → List Cid
add_new result [] = result
add_new result (c ∷ cs) = add_new (if is_in c result then result else result ++ c ∷ []) cs

-- An error ends the gathering, as does a nesting that has not ended in the rounds given, `none`.
abbrev pub and_then :
    Option (Found (List Cid)) → (List Cid → Option (Found (List Cid))) → Option (Found (List Cid))
and_then none rest = none
and_then (some (failed e)) rest = some (failed e)
and_then (some (found cids)) rest = rest cids

-- What one link stands for: a nested identity CID stands for its own links.
abbrev pub opened :
    (Cid → Bool) → (Cid → Option (Found (List Cid))) → Cid → Option (Found (List Cid))
opened is_identity nested link = if is_identity link then nested link else some (found (link ∷ []))

-- The loop over the links of one identity CID.
unfoldable pub gather :
    (Cid → Bool)
    → (Cid → Option (Found (List Cid)))
    → List Cid
    → List Cid
    → Option (Found (List Cid))
gather is_identity nested result [] = some (found result)
gather is_identity nested result (link ∷ links) =
    and_then (opened is_identity nested link)
      (λ cids. gather is_identity nested (add_new result cids) links)

-- The check at the end.
unfoldable pub limit_links : List Cid → Option (Found (List Cid))
limit_links cids = some (
    if ltb max_identity_cid_links (length cids)
    then failed (
        failure (
          enclose "refusing to process identity CID with too many links (" (decimal (length cids))
            ")"))
    else found cids)

-- What the decoded links give.
unfoldable pub links_of :
    Index → (Cid → Option (Found (List Cid))) → Found (List Cid) → Option (Found (List Cid))
unfolding gather limit_links
links_of index nested (failed e) = some (failed e)
links_of index nested (found links) =
    and_then (gather index.is_identity nested [] links) limit_links

-- `linksFromIdentityCid`, with the number of nested CIDs that may be opened.
unfoldable pub links_from_identity_cid : Index → ℕ → Cid → Option (Found (List Cid))
unfolding links_of
links_from_identity_cid index zero c = none
links_from_identity_cid index (suc fuel) c =
    if index.is_identity c
    then if ltb max_identity_cid_bytes (index.hash_bytes c)
      then some (
          failed (
            failure (
              enclose "refusing to decode too-long identity CID (" (decimal (index.hash_bytes c))
                " bytes)")))
      else links_of index (links_from_identity_cid index fuel) (index.linked c)
    else some (found [])

-- The pieces of the second list that are among `pieces`.
abbrev pub intersection : List Cid → List Cid → List Cid
intersection pieces [] = []
intersection pieces (c ∷ cs) =
    if is_in c pieces then c ∷ intersection pieces cs else intersection pieces cs

-- The pieces that hold one link: an error of the index and an empty answer end the search.
abbrev pub with_pieces :
    Index → Cid → Found (List Cid) → (List Cid → Found (List Cid)) → Found (List Cid)
with_pieces index link (failed e) rest =
    failed
      (wrapped (enclose "getting pieces for identity CID sub-link " (index.cid_text link) "") e)
with_pieces index link (found []) rest =
    failed (failure (enclose "no pieces for identity CID sub-link " (index.cid_text link) ""))
with_pieces index link (found (c ∷ cs)) rest = rest (c ∷ cs)

-- The links of `getCommonPiecesFromIdentityCidLinks` after the first.
unfoldable pub common_pieces : Index → List Cid → List Cid → Found (List Cid)
common_pieces index pieces [] = found pieces
common_pieces index [] (link ∷ links) = found []
common_pieces index (piece ∷ pieces) (link ∷ links) =
    with_pieces index link (index.pieces_with link)
      (λ cs. common_pieces index (intersection (piece ∷ pieces) cs) links)

-- The first link's pieces are the ones to begin with.
unfoldable pub pieces_with_all : Index → List Cid → Found (List Cid)
unfolding common_pieces
pieces_with_all index [] = found []
pieces_with_all index (link ∷ links) =
    with_pieces index link (index.pieces_with link) (λ cs. common_pieces index cs links)
