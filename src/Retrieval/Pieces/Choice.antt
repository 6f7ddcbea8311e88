-- ===== src/Retrieval/Pieces/Choice.antt =====
-- retrievalmarket/impl/provider_pieces.go: which piece `getBestPieceInfoMatch` chooses, by a
-- description that does not mention its loop.
use go_fil_markets.Prelude.{
  ◌==◌, ◌≡◌, Bool, true, false, Option, none, some, List, [], ◌∷◌, if◌then◌else◌, arith, Bool-cases,
  inl, inr, refl,
}
use go_fil_markets.Retrieval.Params.{Cid}
use go_fil_markets.Retrieval.Pieces.Search.{
  Store, in_unsealed_sector, piece_info_undefined, best_match, get_best_piece_info_match,
}
use go_fil_markets.Retrieval.Provider.Deal.{PieceInfo}

-- The first piece that passes a test.
abbrev pub first_with : (PieceInfo → Bool) → List PieceInfo → Option PieceInfo
first_with test [] = none
first_with test (piece ∷ pieces) = if test piece then some piece else first_with test pieces

abbrev pub head : List PieceInfo → Option PieceInfo
head [] = none
head (piece ∷ pieces) = some piece

abbrev given : Store → Option PieceInfo → PieceInfo × Bool
given store none = (piece_info_undefined, false)
given store (some piece) = (piece, in_unsealed_sector store piece.deals)

abbrev sealed_or : Option PieceInfo → PieceInfo × Bool
sealed_or none = (piece_info_undefined, false)
sealed_or (some piece) = (piece, false)

abbrev preferred : Option PieceInfo → Option PieceInfo → PieceInfo × Bool
preferred none sealed = sealed_or sealed
preferred (some piece) sealed = (piece, true)

abbrev unsealed : Store → PieceInfo → Bool
unsealed store piece = in_unsealed_sector store piece.deals

-- The client's piece if there is one and it is known; with no wish of the client, the first
-- unsealed piece, or else the first piece.
abbrev pub choice : Store → List PieceInfo → Cid → PieceInfo × Bool
choice store pieces wanted =
    if wanted == 0
    then preferred (first_with (unsealed store) pieces) (head pieces)
    else given store (first_with (λ piece. piece.piece_cid == wanted) pieces)

wished :
    (store : Store) (wanted : Cid) (pieces : List PieceInfo)
    → (wanted == 0) ≡ false
    → best_match store wanted none pieces
      ≡ given store (first_with (λ piece. piece.piece_cid == wanted) pieces)
unfolding best_match
wished store wanted [] h = refl
wished store wanted (piece ∷ pieces) h = rw h (ground (arith, wished store wanted pieces h))

open_sealed :
    (store : Store) (wanted : Cid) (s : PieceInfo) (pieces : List PieceInfo)
    → (wanted == 0) ≡ true
    → best_match store wanted (some s) pieces
      ≡ preferred (first_with (unsealed store) pieces) (some s)
unfolding best_match
open_sealed store wanted s [] h = refl
open_sealed store wanted s (piece ∷ pieces) h =
    rw h (ground (arith, open_sealed store wanted s pieces h))

open_none :
    (store : Store) (wanted : Cid) (pieces : List PieceInfo)
    → (wanted == 0) ≡ true
    → best_match store wanted none pieces
      ≡ preferred (first_with (unsealed store) pieces) (head pieces)
unfolding best_match
open_none store wanted [] h = refl
open_none store wanted (piece ∷ pieces) h =
    rw h (ground (arith, open_sealed store wanted piece pieces h))

-- The chosen piece is the client's, when the client asks for one that is known; when it asks for
-- none, it is the first piece of which a sector is unsealed, and only if there is none the first of
-- all. The answer says whether the chosen piece is unsealed.
pub get_best_piece_info_match-choice :
    (store : Store) (pieces : List PieceInfo) (wanted : Cid)
    → get_best_piece_info_match store pieces wanted ≡ choice store pieces wanted
unfolding get_best_piece_info_match
get_best_piece_info_match-choice store pieces wanted = elim (Bool-cases (wanted == 0)) [
  | inl q ↦ rw q (open_none store wanted pieces q)
  | inr q ↦ rw q (wished store wanted pieces q)
]
