-- ===== src/Piecestore/Deals.antt =====
-- piecestore/impl/piecestore.go: what `AddDealForPiece` leaves in the store.
use go_fil_markets.Prelude.{
  ◌==◌, ◌≡◌, refl, Bool, true, false, Option, none, some, Option-cases, inl, inr, List, [], ◌∷◌,
  ◌++◌, ◌⊎◌, subst, Result, ok, err, ◌>>=◌, if◌then◌else◌, arith, ◌∙◌, ap, sym, Bool-cases,
}
use mathlib.Core.Logic.Or
use mathlib.Core.HLevel.{⊥_prop}
use mathlib.Core.List.{
  Mem, mem-append, mem-append_right, mem-cons_self, mem-cons_of_mem, not-mem-nil,
  eq-or-mem_of_mem-cons,
}
use go_fil_markets.Retrieval.Params.{Cid}
use go_fil_markets.Retrieval.Provider.Deal.{DealInfo, PieceInfo}
use go_fil_markets.Piecestore.Table.{Table, present}
use go_fil_markets.Piecestore.Store.{
  same_deal, known, add_entry, ensure_piece_info, add_deal_for_piece,
}

>>=-ok :
    {A B : Type 0} (r : Result A) (f : A → Result B) (b : B)
    → (r >>= f) ≡ ok b
    → (a : A) × (r ≡ ok a) × (f a ≡ ok b)
>>=-ok (err e) f b h = ground (arith, h)
>>=-ok (ok a) f b h = (a, refl, h)

-- The deals of a record, none if there is no record.
abbrev pub deals_at : Option PieceInfo → List DealInfo
deals_at none = []
deals_at (some info) = info.deals

-- No deal is in the list twice.
abbrev pub Distinct : List DealInfo → Type 0
Distinct [] = Unit
Distinct (d ∷ ds) = (¬ Mem d ds) × Distinct ds

-- Two deals are the same for the store if they are equal.
same_deal-eq : (a b : DealInfo) → same_deal a b ≡ true → a ≡ b
same_deal-eq a b h = ground arith

same_deal_refl : (a : DealInfo) → same_deal a a ≡ true
same_deal_refl a = ground arith

known-Mem : (a : DealInfo) (ds : List DealInfo) → known same_deal a ds ≡ true → Mem a ds
known-Mem a [] h = absurd (ground (arith, h))
known-Mem a (d ∷ ds) h = elim (Bool-cases (same_deal d a)) [
  | inl q ↦ subst (λ x. Mem x (d ∷ ds)) (same_deal-eq d a q) mem-cons_self
  | inr q ↦ mem-cons_of_mem d (known-Mem a ds (ground (arith, h, q)))
]

not-mem_of_unknown : (a : DealInfo) (ds : List DealInfo) → known same_deal a ds ≡ false → ¬ Mem a ds
not-mem_of_unknown a [] h = not-mem-nil
not-mem_of_unknown a (d ∷ ds) h = λ m.
    Or.elim ⊥_prop (eq-or-mem_of_mem-cons m) (λ e. ground (arith, h, same_deal_refl a, e))
      (not-mem_of_unknown a ds (ground (arith, h)))

not-mem_append :
    (x a : DealInfo) (ds : List DealInfo) → ¬ Mem x ds → ¬ (x ≡ a) → ¬ Mem x (ds ++ a ∷ [])
not-mem_append x a ds n n' m =
    Or.elim ⊥_prop (mem-append.0 m) n (λ s. Or.elim ⊥_prop (eq-or-mem_of_mem-cons s) n' not-mem-nil)

append-Distinct :
    (a : DealInfo) (ds : List DealInfo) → ¬ Mem a ds → Distinct ds → Distinct (ds ++ a ∷ [])
append-Distinct a [] h d = (not-mem-nil, tt)
append-Distinct a (x ∷ xs) h (n, d) = (
  not-mem_append x a xs n (λ e. h (subst (λ y. Mem y (x ∷ xs)) e mem-cons_self)),
  append-Distinct a xs (λ m. h (mem-cons_of_mem x m)) d,
)

-- The list that a deal is added to, and the list after it.
abbrev pub Grown : DealInfo → List DealInfo → List DealInfo → Type 0
Grown a old new = (Mem a old × (new ≡ old)) ⊎ ((¬ Mem a old) × (new ≡ old ++ a ∷ []))

add_entry-Grown : (a : DealInfo) (ds : List DealInfo) → Grown a ds (add_entry same_deal a ds)
add_entry-Grown a ds = elim (Bool-cases (known same_deal a ds)) [
  | inl q ↦ rw q (inl (known-Mem a ds q, refl))
  | inr q ↦ rw q (inr (not-mem_of_unknown a ds q, refl))
]

Grown-Mem : (a : DealInfo) (old new : List DealInfo) → Grown a old new → Mem a new
Grown-Mem a old new (inl (m, e)) = subst (Mem a) (sym e) m
Grown-Mem a old new (inr (n, e)) = subst (Mem a) (sym e) (mem-append_right old mem-cons_self)

Grown-Distinct :
    (a : DealInfo) (old new : List DealInfo) → Grown a old new → Distinct old → Distinct new
Grown-Distinct a old new (inl (m, e)) d = subst Distinct (sym e) d
Grown-Distinct a old new (inr (n, e)) d = subst Distinct (sym e) (append-Distinct a old n d)

if-true : {A : Type 0} (b : Bool) (x y : A) → b ≡ true → (if b then x else y) ≡ x
if-true b x y h = rw h refl

if-false : {A : Type 0} (b : Bool) (x y : A) → b ≡ false → (if b then x else y) ≡ y
if-false b x y h = rw h refl

abbrev value_or : {A : Type 0} → A → Result A → A
value_or a (ok b) = b
value_or a (err e) = a

ok_injective : {A : Type 0} (a b : A) → ok a ≡ ok b → a ≡ b
ok_injective a b h = ap (value_or a) h

module _ {S : Type 0} (pieces : Table PieceInfo S) where
  ensured :
      (s s' : S) (c : Cid)
      → ensure_piece_info pieces s c ≡ ok s'
      → (info : PieceInfo) × (pieces.get s' c ≡ some info)
        × (info.deals ≡ deals_at (pieces.get s c))
        × ((c' : Cid) → (c' == c) ≡ false → pieces.get s' c' ≡ pieces.get s c')
  unfolding ensure_piece_info
  ensured s s' c h =
      let (found, q, rest) = >>=-ok (pieces.has s c) _ s' h in
      elim (Option-cases (pieces.get s c)) [
        | inl absent ↦
            let none_found = pieces.has_lem s c found q ∙ ap present absent in
            let (there, others) =
              pieces.begin_lem s s' c _ (sym (if-false found _ _ none_found) ∙ rest) in
            (record { piece_cid = c; deals = [] }, there, sym (ap deals_at absent), others)
        | inr (info, there) ↦
            let some_found = pieces.has_lem s c found q ∙ ap present there in
            let same_store = ok_injective s s' (sym (if-true found _ _ some_found) ∙ rest) in
            (
              info,
              ap (λ (t : S). pieces.get t c) (sym same_store) ∙ there,
              sym (ap deals_at there),
              λ c' n. ap (λ (t : S). pieces.get t c') (sym same_store),
            )
      ]

  -- A deal that is added to a piece is found there: if the call does not fail, the deals of the
  -- piece's record are those that it had, if the deal was among them, and otherwise those that it
  -- had, in their order, and the new one at the end; no deal is there twice if none was before. The
  -- records of other pieces stay as they are.
  pub deal_added :
      (s s' : S) (c : Cid) (deal : DealInfo)
      → add_deal_for_piece pieces s c deal ≡ ok s'
      → Distinct (deals_at (pieces.get s c))
      → Grown deal (deals_at (pieces.get s c)) (deals_at (pieces.get s' c))
        × Mem deal (deals_at (pieces.get s' c))
        × Distinct (deals_at (pieces.get s' c))
        × ((c' : Cid) → (c' == c) ≡ false → pieces.get s' c' ≡ pieces.get s c')
  unfolding add_deal_for_piece
  deal_added s s' c deal h d =
      let (t, prepared, rest) = >>=-ok (ensure_piece_info pieces s c) _ s' h in
      let (info, there, old, others) = ensured s t c prepared in
      let (changed, others') = pieces.mutate_lem t s' c _ info rest there in
      let old_deals = deals_at (pieces.get s c) in
      let new_deals = deals_at (pieces.get s' c) in
      let deals = ap deals_at changed ∙ ap (add_entry same_deal deal) old in
      let added = subst (Grown deal old_deals) (sym deals) (add_entry-Grown deal old_deals) in
      (
        added,
        Grown-Mem deal old_deals new_deals added,
        Grown-Distinct deal old_deals new_deals added d,
        λ c' n. others' c' n ∙ others c' n,
      )
