-- ===== src/Retrieval/Pieces/Links.antt =====
-- retrievalmarket/impl/provider_pieces.go: what the links of an identity CID are, that opening
-- nested ones ends, and which pieces hold all links.
use go_fil_markets.Prelude.{
  ℕ, zero, suc, ◌≡◌, ◌<◌, ◌↔◌, Bool, true, false, ◌&&◌, Option, none, some, List, [], ◌∷◌,
  if◌then◌else◌, ltb, ==_iff, All, All-map, arith, refl, Bool-cases, inl, inr,
}
use go_fil_markets.Retrieval.Params.{Cid}
use go_fil_markets.Retrieval.Pieces.Failure.{Found, found, failed}
use go_fil_markets.Retrieval.Pieces.Identity.{
  Index, is_in, add_new, and_then, opened, gather, limit_links, links_of, links_from_identity_cid,
  intersection, common_pieces, with_pieces, pieces_with_all, max_identity_cid_bytes,
}

-- An identity CID that a CID holds is shorter than it, since its bytes are among that CID's.
abbrev pub Shrinks : Index → Type 0
Shrinks index =
    (c : Cid) (links : List Cid)
    → index.linked c ≡ found links
    → All (λ l. index.is_identity l ≡ true → index.hash_bytes l < index.hash_bytes c) links

abbrev pub Returns : Option (Found (List Cid)) → Type 0
Returns o = (r : Found (List Cid)) × (o ≡ some r)

and_then-Returns :
    (o : Option (Found (List Cid))) (rest : List Cid → Option (Found (List Cid)))
    → Returns o
    → ((cids : List Cid) → Returns (rest cids))
    → Returns (and_then o rest)
and_then-Returns none rest (r, e) h = ground arith
and_then-Returns (some (failed e)) rest r h = (failed e, refl)
and_then-Returns (some (found cids)) rest r h = h cids

opened-Returns :
    (is_identity : Cid → Bool) (nested : Cid → Option (Found (List Cid))) (l : Cid)
    → (is_identity l ≡ true → Returns (nested l))
    → Returns (opened is_identity nested l)
opened-Returns is_identity nested l h = elim (Bool-cases (is_identity l)) [
  | inl q ↦ rw q (h q)
  | inr q ↦ rw q (found (l ∷ []), refl)
]

gather-Returns :
    (is_identity : Cid → Bool) (nested : Cid → Option (Found (List Cid))) (links result : List Cid)
    → All (λ l. is_identity l ≡ true → Returns (nested l)) links
    → Returns (gather is_identity nested result links)
unfolding gather
gather-Returns is_identity nested [] result h = (found result, refl)
gather-Returns is_identity nested (l ∷ ls) result h =
    and_then-Returns (opened is_identity nested l) _ (opened-Returns is_identity nested l h.0)
      (λ cids. gather-Returns is_identity nested ls (add_new result cids) h.1)

links_of-Returns :
    (index : Index) (nested : Cid → Option (Found (List Cid))) (f : Found (List Cid))
    → ((links : List Cid)
        → f ≡ found links
        → All (λ l. index.is_identity l ≡ true → Returns (nested l)) links)
    → Returns (links_of index nested f)
unfolding links_of limit_links
links_of-Returns index nested (failed e) h = (failed e, refl)
links_of-Returns index nested (found links) h =
    and_then-Returns (gather index.is_identity nested [] links) limit_links
      (gather-Returns index.is_identity nested links [] (h links refl)) (λ cids. (_, refl))

if-Returns :
    (b : Bool) (x y : Option (Found (List Cid)))
    → (b ≡ true → Returns x)
    → (b ≡ false → Returns y)
    → Returns (if b then x else y)
if-Returns true x y h k = h refl
if-Returns false x y h k = k refl

-- Opening nested identity CIDs ends: an identity CID is longer than those that it holds, so as many
-- rounds as it has bytes, and one more, return its links or an error.
pub links_from_identity_cid-Returns :
    (index : Index) (fuel : ℕ) (c : Cid)
    → Shrinks index
    → index.hash_bytes c < fuel
    → Returns (links_from_identity_cid index fuel c)
unfolding links_from_identity_cid
links_from_identity_cid-Returns index zero c shrinks h = ground arith
links_from_identity_cid-Returns index (suc fuel) c shrinks h =
    if-Returns (index.is_identity c) _ _
      (λ q.
        if-Returns (ltb max_identity_cid_bytes (index.hash_bytes c)) _ _ (λ big. (_, refl))
          (λ small. links_of-Returns index _ (index.linked c) (λ links eq.
            All-map
              (λ l short i.
                links_from_identity_cid-Returns index fuel l shrinks (omega (arith, short i)))
              links (shrinks c links eq))))
      (λ q. (_, refl))

in-intersection :
    (p : Cid) (pieces cs : List Cid)
    → is_in p (intersection pieces cs) ≡ (is_in p cs && is_in p pieces)
in-intersection p pieces [] = refl
in-intersection p pieces (c ∷ cs) = ground (arith, in-intersection p pieces cs, ==_iff p c)

abbrev InFound : Cid → Found (List Cid) → Type 0
InFound p (found cs) = is_in p cs ≡ true
InFound p (failed e) = ⊥

-- The index says that the piece holds the block.
abbrev pub Holds : Index → Cid → Cid → Type 0
Holds index p link = InFound p (index.pieces_with link)

with_pieces-found :
    (index : Index) (l : Cid) (f : Found (List Cid)) (rest : List Cid → Found (List Cid))
    (r : List Cid)
    → with_pieces index l f rest ≡ found r
    → (cs : List Cid) × (f ≡ found cs) × (rest cs ≡ found r)
with_pieces-found index l (failed e) rest r h = ground (arith, h)
with_pieces-found index l (found []) rest r h = ground (arith, h)
with_pieces-found index l (found (c ∷ cs)) rest r h = (c ∷ cs, refl, h)

narrowed {ℓ} :
    {A : Type ℓ} (r s a b : Bool)
    → s ≡ (a && b)
    → (r ≡ true) ↔ ((s ≡ true) × A)
    → (r ≡ true) ↔ ((b ≡ true) × ((a ≡ true) × A))
narrowed r s a b e h = (
  λ t. let (i, x) = h.0 t in (ground (arith, e, i), (ground (arith, e, i), x)),
  λ (i, (j, x)). h.1 (ground (arith, e, i, j), x),
)

common_pieces_exact :
    (index : Index) (p : Cid) (links pieces result : List Cid)
    → common_pieces index pieces links ≡ found result
    → (is_in p result ≡ true) ↔ ((is_in p pieces ≡ true) × All (Holds index p) links)
unfolding common_pieces
common_pieces_exact index p [] pieces result h = ground arith
common_pieces_exact index p (l ∷ ls) [] result h = ground arith
common_pieces_exact index p (l ∷ ls) (x ∷ xs) result h =
    let (cs, eq, rest) = with_pieces-found index l (index.pieces_with l) _ result h in
    let ih = common_pieces_exact index p ls (intersection (x ∷ xs) cs) result rest in
    let both = in-intersection p (x ∷ xs) cs in
    rw eq (narrowed (is_in p result) _ (is_in p cs) (is_in p (x ∷ xs)) both ih)

-- The pieces of an identity CID are exactly those that hold all of its links, as far as the index
-- says, when the search succeeds and there is a link.
pub pieces_with_all_exact :
    (index : Index) (p l : Cid) (ls result : List Cid)
    → pieces_with_all index (l ∷ ls) ≡ found result
    → (is_in p result ≡ true) ↔ All (Holds index p) (l ∷ ls)
unfolding pieces_with_all
pieces_with_all_exact index p l ls result h =
    let (cs, eq, rest) = with_pieces-found index l (index.pieces_with l) _ result h in
    let exact = common_pieces_exact index p ls cs result rest in rw eq exact
