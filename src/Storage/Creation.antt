-- ===== src/Storage/Creation.antt =====
-- storagemarket/impl/provider.go: the order in which `ListLocalDealsPage` takes the deals, the latest
-- first.
use go_fil_markets.Prelude.{◌≤◌, ltb, sym, subst, List, [], ◌∷◌, Bool-cases, inl, inr, arith}
use mathlib.Core.Logic.Or
use mathlib.Core.List.{Mem, Perm, Pairwise, Pairwise-singleton, eq-or-mem_of_mem-cons}
use mathlib.Core.List.Perm
use native.Mathlib.Bridge.{le_prop}
use go_fil_markets.Storage.Provider.Deal.{MinerDeal}
use go_fil_markets.Storage.Listing.{insert_deal, by_creation}

-- The first deal was not created before the second.
abbrev pub NotBefore : MinerDeal → MinerDeal → Type 0
NotBefore a b = b.creation_time ≤ a.creation_time

-- Every deal was created no earlier than those after it.
abbrev pub LatestFirst : List MinerDeal → Type 0
LatestFirst = Pairwise NotBefore

abbrev After : MinerDeal → List MinerDeal → Type 0
After a ds = (x : MinerDeal) → Mem x ds → NotBefore a x

After-cons : (a b : MinerDeal) (ds : List MinerDeal) → NotBefore a b → After a ds → After a (b ∷ ds)
After-cons a b ds p h x m =
    Or.elim le_prop (eq-or-mem_of_mem-cons m) (λ e. subst (NotBefore a) (sym e) p) (h x)

After-head : (a b : MinerDeal) (ds : List MinerDeal) → NotBefore a b → After b ds → After a (b ∷ ds)
After-head a b ds p h = After-cons a b ds p (λ x m. let q = h x m in omega (arith, p, q))

insert_deal-perm : (d : MinerDeal) (ds : List MinerDeal) → Perm (insert_deal d ds) (d ∷ ds)
unfolding insert_deal
insert_deal-perm d [] = Perm.rfl
insert_deal-perm d (x ∷ xs) = elim (Bool-cases (ltb d.creation_time x.creation_time)) [
  | inl q ↦ rw q (Perm.trans (Perm.cons x (insert_deal-perm d xs)) (Perm.swap d x xs))
  | inr q ↦ rw q Perm.rfl
]

After-insert :
    (d x : MinerDeal) (xs : List MinerDeal)
    → NotBefore x d
    → After x xs
    → After x (insert_deal d xs)
After-insert d x xs p h y m = After-cons x d xs p h y ((Perm.mem_iff (insert_deal-perm d xs)).0 m)

insert_deal-LatestFirst :
    (d : MinerDeal) {ds : List MinerDeal} → LatestFirst ds → LatestFirst (insert_deal d ds)
unfolding insert_deal
insert_deal-LatestFirst d Pairwise.nil = Pairwise-singleton _ d
insert_deal-LatestFirst d (Pairwise.cons {a = x} {l = xs} after s) =
    elim (Bool-cases (ltb d.creation_time x.creation_time)) [
      | inl q ↦ rw q (
          Pairwise.cons (After-insert d x xs (ground (arith, q)) after)
            (insert_deal-LatestFirst d s))
      | inr q ↦
          rw q (Pairwise.cons (After-head d x xs (ground (arith, q)) after) (Pairwise.cons after s))
    ]

-- The deals that a page is taken from are those of the store, each as often as it is there.
pub by_creation-perm : (ds : List MinerDeal) → Perm (by_creation ds) ds
unfolding by_creation
by_creation-perm [] = Perm.rfl
by_creation-perm (d ∷ ds) =
    Perm.trans (insert_deal-perm d (by_creation ds)) (Perm.cons d (by_creation-perm ds))

pub by_creation-LatestFirst : (ds : List MinerDeal) → LatestFirst (by_creation ds)
unfolding by_creation
by_creation-LatestFirst [] = Pairwise.nil
by_creation-LatestFirst (d ∷ ds) = insert_deal-LatestFirst d (by_creation-LatestFirst ds)
