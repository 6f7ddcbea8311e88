-- ===== src/Storage/Pages.antt =====
-- storagemarket/impl/provider.go: the page of deals that `ListLocalDealsPage` returns, as a part of
-- the deals by creation.
use go_fil_markets.Prelude.{
  ℕ, zero, suc, ◌+◌, ◌≤◌, ◌<◌, ◌==◌, le→leb, lt→leb, ==_iff, if◌then◌else◌, Bool, true, false, ◌≡◌,
  refl, ◌∙◌, sym, Option, none, some, List, [], ◌∷◌, ◌++◌, length, length-append, All, arith, subst,
}
use mathlib.Core.List.{Perm, append-nil, append_assoc}
use go_fil_markets.Retrieval.Params.{Cid}
use go_fil_markets.Storage.Provider.Deal.{MinerDeal}
use go_fil_markets.Storage.Creation.{LatestFirst, by_creation-perm, by_creation-LatestFirst}
use go_fil_markets.Storage.Listing.{
  start_at, reached, paged, page_loop, by_creation, list_local_deals_page,
}

module _ {ℓ} {A : Type ℓ} where
  -- The first elements of a list, and the rest.
  abbrev pub take : ℕ → List A → List A
  take zero xs = []
  take (suc n) [] = []
  take (suc n) (x ∷ xs) = x ∷ take n xs

  abbrev pub drop : ℕ → List A → List A
  drop zero xs = xs
  drop (suc n) [] = []
  drop (suc n) (x ∷ xs) = drop n xs

-- No deal of the list has the proposal.
abbrev pub Others : Cid → List MinerDeal → Type 0
Others k ds = All (λ d. (d.proposal_cid == k) ≡ false) ds

lt→== : (a b : ℕ) → a < b → (a == b) ≡ false
lt→== a b h = ground arith

module _ (c : Option Cid) (offset : ℕ) where
  -- The start that is known stays, whatever deals come.
  abbrev Steady : ℕ → ℕ → List MinerDeal → Type 0
  Steady s i [] = Unit
  Steady s i (d ∷ ds) = (start_at c offset i d (some s) ≡ some s) × Steady s (suc i) ds

  module _ (limit : ℕ) where
    -- One round of the loop.
    page_loop-cons :
        (i : ℕ) (start start' : Option ℕ) (b : Bool) (page : List MinerDeal) (d : MinerDeal)
        (ds : List MinerDeal)
        → start_at c offset i d start ≡ start'
        → reached start' i ≡ b
        → page_loop c offset limit i start page (d ∷ ds) ≡ (
            if length (paged b d page) == limit
            then paged b d page
            else page_loop c offset limit (suc i) start' (paged b d page) ds)
    unfolding page_loop
    page_loop-cons i start start' b page d ds p q = rw p (rw q refl)

    -- Past the start every deal is taken until the page is full.
    filled :
        (room i s : ℕ) (page ds : List MinerDeal)
        → Steady s i ds
        → length page + suc room ≡ limit
        → s ≤ i
        → page_loop c offset limit i (some s) page ds ≡ page ++ take (suc room) ds
    unfolding page_loop
    filled room i s page [] o l h = sym (append-nil page)
    filled zero i s page (d ∷ ds) o l h =
        page_loop-cons i (some s) (some s) true page d ds o.0 (le→leb s i h)
        ∙ rw ((==_iff (length (page ++ d ∷ [])) limit).1 (length-append page (d ∷ []) ∙ l)) refl
    filled (suc room) i s page (d ∷ ds) o l h =
        let longer : length (page ++ d ∷ []) ≡ length page + 1 = length-append page (d ∷ []) in
        page_loop-cons i (some s) (some s) true page d ds o.0 (le→leb s i h)
        ∙ rw (lt→== (length (page ++ d ∷ [])) limit (omega (arith, l, longer))) (
            filled room (suc i) s (page ++ d ∷ []) ds o.1 (omega (arith, l, longer))
              (omega (arith, h))
            ∙ append_assoc page (d ∷ []) (take (suc room) ds))

    -- Before the start the deals are passed over.
    skipped :
        (gap i s room : ℕ) (ds : List MinerDeal)
        → Steady s i ds
        → suc room ≡ limit
        → i + gap ≡ s
        → page_loop c offset limit i (some s) [] ds ≡ take (suc room) (drop gap ds)
    unfolding page_loop
    skipped zero i s room ds o l h = filled room i s [] ds o (omega (arith, l)) (omega (arith, h))
    skipped (suc gap) i s room [] o l h = refl
    skipped (suc gap) i s room (d ∷ ds) o l h =
        page_loop-cons i (some s) (some s) false [] d ds o.0 (lt→leb s i (omega (arith, h)))
        ∙ rw (lt→== 0 limit (omega (arith, l)))
            (skipped gap (suc i) s room ds o.1 l (omega (arith, h)))

-- Where no start is asked for, it stays.
Steady-none : (offset s i : ℕ) (ds : List MinerDeal) → Steady none offset s i ds
Steady-none offset s i [] = tt
Steady-none offset s i (d ∷ ds) = (refl, Steady-none offset s (suc i) ds)

module _ (k : Cid) (offset : ℕ) where
  Steady-Others : (s i : ℕ) (ds : List MinerDeal) → Others k ds → Steady (some k) offset s i ds
  Steady-Others s i [] o = tt
  Steady-Others s i (d ∷ ds) o = (rw o.0 refl, Steady-Others s (suc i) ds o.1)

  -- The deal that the page starts at is searched for.
  searched :
      (limit room i : ℕ) (pre post : List MinerDeal) (d : MinerDeal)
      → suc room ≡ limit
      → Others k pre
      → (d.proposal_cid == k) ≡ true
      → Others k post
      → page_loop (some k) offset limit i none [] (pre ++ d ∷ post)
        ≡ take (suc room) (drop offset (d ∷ post))
  searched limit room i [] post d l o m o' =
      let s = i + offset in
      let here : start_at (some k) offset i d none ≡ some s = rw m refl in
      let there : start_at (some k) offset i d (some s) ≡ some s = rw m refl in
      page_loop-cons (some k) offset limit i none (some s) (reached (some s) i) [] d post here refl
      ∙ sym (
          page_loop-cons (some k) offset limit i (some s) (some s) (reached (some s) i) [] d post
            there refl)
      ∙ skipped (some k) offset limit offset i s room (d ∷ post)
          (there, Steady-Others s (suc i) post o') l refl
  searched limit room i (x ∷ pre) post d l o m o' =
      page_loop-cons (some k) offset limit i none none false [] x (pre ++ d ∷ post) (rw o.0 refl)
        refl
      ∙ rw (lt→== 0 limit (omega (arith, l))) (searched limit room (suc i) pre post d l o.1 m o')

suc-ne-zero : (n : ℕ) → (suc n == 0) ≡ false
suc-ne-zero n = ground arith

page_found :
    (k : Cid) (offset limit : ℕ) (deals pre post : List MinerDeal) (d : MinerDeal)
    → by_creation deals ≡ pre ++ d ∷ post
    → d.proposal_cid ≡ k
    → Others k pre
    → Others k post
    → list_local_deals_page (some k) offset limit deals ≡ take limit (drop offset (d ∷ post))
unfolding list_local_deals_page
page_found k offset zero deals pre post d e m o o' = refl
page_found k offset (suc room) deals pre post d e m o o' = rw (suc-ne-zero room) (
    rw e (searched k offset (suc room) room 0 pre post d refl o ((==_iff d.proposal_cid k).1 m) o'))

-- A page of deals that starts at a deal has at most `limit` deals, from the one that is `offset`
-- deals after it. It is a part of all the deals of the store, each as often as it is there, in an
-- order in which no deal was created before one that comes after it. No other deal has the proposal
-- of the first.
pub page_from_deal :
    (k : Cid) (offset limit : ℕ) (deals pre post : List MinerDeal) (d : MinerDeal)
    → by_creation deals ≡ pre ++ d ∷ post
    → d.proposal_cid ≡ k
    → Others k pre
    → Others k post
    → Perm (pre ++ d ∷ post) deals
      × LatestFirst (pre ++ d ∷ post)
      × (list_local_deals_page (some k) offset limit deals ≡ take limit (drop offset (d ∷ post)))
page_from_deal k offset limit deals pre post d e m o o' = (
  subst (λ ds. Perm ds deals) e (by_creation-perm deals),
  subst LatestFirst e (by_creation-LatestFirst deals),
  page_found k offset limit deals pre post d e m o o',
)

-- A page of deals with no deal to start at begins with the latest, whatever the offset.
pub page_without_start :
    (offset limit : ℕ) (deals : List MinerDeal)
    → list_local_deals_page none offset limit deals ≡ take limit (by_creation deals)
unfolding list_local_deals_page
page_without_start offset zero deals = refl
page_without_start offset (suc room) deals = rw (suc-ne-zero room) (
    skipped none offset (suc room) 0 0 0 room (by_creation deals)
      (Steady-none offset 0 0 (by_creation deals)) refl refl)
