-- ===== src/Storage/Imports.antt =====
-- storagemarket/impl/provider.go, `ImportDataForDeal`: which data come to a deal, and what is left of
-- others.
use go_fil_markets.Prelude.{
  ℕ, ◌==◌, ==_iff, Bool, true, false, ◌≡◌, ◌⊎◌, inl, inr, refl, ap, ◌∙◌, List, [], ◌∷◌, String,
  Result, ok, err,
}
use go_fil_markets.Retrieval.Params.{Cid}
use go_fil_markets.Storage.Provider.Deal.{FilePath, MinerDeal, ProviderEvent}
use go_fil_markets.Storage.Import.{
  ImportEnv, ImportAct, Imported, commitment, matched, committed, typed, sought, copied, created,
  imported, import_data_for_deal,
}

-- The events that are sent to deals, the files that are made and those that are deleted.
abbrev pub sent : List ImportAct → List (Cid × ProviderEvent)
sent [] = []
sent (ImportAct.sends c e ∷ acts) = (c, e) ∷ sent acts
sent (_ ∷ acts) = sent acts

abbrev pub made : List ImportAct → List FilePath
made [] = []
made (ImportAct.creates path ∷ acts) = path ∷ made acts
made (_ ∷ acts) = made acts

abbrev pub deleted : List ImportAct → List FilePath
deleted [] = []
deleted (ImportAct.deletes path ∷ acts) = path ∷ deleted acts
deleted (_ ∷ acts) = deleted acts

-- The file has the data that the deal expects: their commitment, padded up, is that of the deal's
-- piece.
pub record Expected (env : ImportEnv) (c : Cid) (path : FilePath) : Type 0 where
  pub deal : MinerDeal
  pub proof_type : ℕ
  pub known : env.deals c ≡ ok deal
  pub copied : env.copy path ≡ ok tt
  pub commits : commitment env deal path proof_type ≡ ok deal.proposal.piece_cid

-- Nothing is sent, the files that were made are deleted, and the call returns an error.
abbrev pub Refused : Imported → Type 0
Refused (acts, r) = (sent acts ≡ []) × (deleted acts ≡ made acts) × (e : String) × (r ≡ err e)

-- The deal is told of the file, which is kept.
abbrev pub Handed : ImportEnv → Cid → Imported → Type 0
Handed env c (acts, r) =
    (path : FilePath) × (sent acts ≡ (c, ProviderEvent.verified_data path "") ∷ [])
    × (made acts ≡ path ∷ [])
    × (deleted acts ≡ [])
    × Expected env c path

abbrev pub Outcome : ImportEnv → Cid → Imported → Type 0
Outcome env c x = Refused x ⊎ Handed env c x

module _ (env : ImportEnv) (c : Cid) where
  matched-Outcome :
      (d : MinerDeal) (path : FilePath) (rt : ℕ) (piece : Cid) (b : Bool)
      → env.deals c ≡ ok d
      → env.copy path ≡ ok tt
      → commitment env d path rt ≡ ok piece
      → (piece == d.proposal.piece_cid) ≡ b
      → Outcome env c (matched env c d path piece b)
  matched-Outcome d path rt piece false k h q m = inl (refl, refl, _, refl)
  matched-Outcome d path rt piece true k h q m = inr (
    path,
    refl,
    refl,
    refl,
    record {
      deal = d;
      proof_type = rt;
      known = k;
      copied = h;
      commits = q ∙ ap ok ((==_iff piece d.proposal.piece_cid).0 m);
    },
  )

  committed-Outcome :
      (d : MinerDeal) (path : FilePath) (rt : ℕ) (r : Result Cid)
      → env.deals c ≡ ok d
      → env.copy path ≡ ok tt
      → commitment env d path rt ≡ r
      → Outcome env c (committed env c d path r)
  committed-Outcome d path rt (err e) k h q = inl (refl, refl, e, refl)
  committed-Outcome d path rt (ok piece) k h q = matched-Outcome d path rt piece _ k h q refl

  typed-Outcome :
      (d : MinerDeal) (path : FilePath) (r : Result ℕ)
      → env.deals c ≡ ok d
      → env.copy path ≡ ok tt
      → Outcome env c (typed env c d path r)
  typed-Outcome d path (err e) k h = inl (refl, refl, _, refl)
  typed-Outcome d path (ok rt) k h = committed-Outcome d path rt _ k h refl

  sought-Outcome :
      (d : MinerDeal) (path : FilePath) (r : Result (Unit {0}))
      → env.deals c ≡ ok d
      → env.copy path ≡ ok tt
      → Outcome env c (sought env c d path r)
  sought-Outcome d path (err e) k h = inl (refl, refl, _, refl)
  sought-Outcome d path (ok _) k h = typed-Outcome d path env.get_proof_type k h

  copied-Outcome :
      (d : MinerDeal) (path : FilePath) (r : Result (Unit {0}))
      → env.deals c ≡ ok d
      → env.copy path ≡ r
      → Outcome env c (copied env c d path r)
  copied-Outcome d path (err e) k h = inl (refl, refl, _, refl)
  copied-Outcome d path (ok _) k h = sought-Outcome d path (env.seek path) k h

  created-Outcome :
      (d : MinerDeal) (r : Result FilePath) → env.deals c ≡ ok d → Outcome env c (created env c d r)
  created-Outcome d (err e) k = inl (refl, refl, _, refl)
  created-Outcome d (ok path) k = copied-Outcome d path (env.copy path) k refl

  imported-Outcome : (r : Result MinerDeal) → env.deals c ≡ r → Outcome env c (imported env c r)
  imported-Outcome (err e) k = inl (refl, refl, _, refl)
  imported-Outcome (ok d) k = created-Outcome d env.create_temp k

-- Data that are imported for a deal come to it only when their commitment, padded up to the size of
-- the deal's piece, is that of its piece: either the deal is told of a file with such data, which is
-- kept, or the call returns an error, tells no deal, and deletes the file if it made one.
pub import_data_for_deal-Outcome :
    (env : ImportEnv) (c : Cid) → Outcome env c (import_data_for_deal env c)
unfolding import_data_for_deal
import_data_for_deal-Outcome env c = imported-Outcome env c (env.deals c) refl
