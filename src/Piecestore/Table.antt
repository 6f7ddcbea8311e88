-- ===== src/Piecestore/Table.antt =====
-- What the piece store takes from github.com/filecoin-project/go-statestore, whose code is not in
-- this repository: a table with its operations and what they document. An operation may fail.
use go_fil_markets.Prelude.{
  Bool, true, false, ◌==◌, ◌≡◌, refl, Option, none, some, Result, ok, err, if◌then◌else◌, arith,
  subst, Leaves,
}
use go_fil_markets.Retrieval.Params.{Cid}

abbrev pub present {ℓ} : {A : Type ℓ} → Option A → Bool
present none = false
present (some a) = true

pub record Table (V S : Type 0) : Type 0 where
  pub get : S → Cid → Option V
  pub has : S → Cid → Result Bool
  pub begin : S → Cid → V → Result S
  pub mutate : S → Cid → (V → V) → Result S
  pub has_lem : (s : S) (c : Cid) (b : Bool) → has s c ≡ ok b → b ≡ present (get s c)
  pub begin_lem :
      (s s' : S) (c : Cid) (v : V)
      → begin s c v ≡ ok s'
      → (get s' c ≡ some v) × ((c' : Cid) → (c' == c) ≡ false → get s' c' ≡ get s c')
  pub mutate_lem :
      (s s' : S) (c : Cid) (f : V → V) (v : V)
      → mutate s c f ≡ ok s'
      → get s c ≡ some v
      → (get s' c ≡ some (f v)) × ((c' : Cid) → (c' == c) ≡ false → get s' c' ≡ get s c')

-- A table exists: a function that never fails.
abbrev pub Cells : Type 0 → Type 0
Cells V = Cid → Option V

abbrev pub put : {V : Type 0} → Cells V → Cid → V → Cells V
put s c v c' = if c' == c then some v else s c'

abbrev pub mapped : {V : Type 0} → (V → V) → Option V → Option V
mapped f none = none
mapped f (some v) = some (f v)

abbrev pub changed : {V : Type 0} → Cells V → Cid → (V → V) → Cells V
changed s c f c' = if c' == c then mapped f (s c') else s c'

abbrev pub Says : Bool → Result Bool → Type 0
Says b (ok b') = b' ≡ b
Says b (err e) = Unit

abbrev pub Put : {V : Type 0} → Cells V → Cid → V → Cells V → Type 0
Put s c v s' = (s' c ≡ some v) × ((c' : Cid) → (c' == c) ≡ false → s' c' ≡ s c')

==_refl : (c : Cid) → (c == c) ≡ true
==_refl c = ground arith

pub put-Put : {V : Type 0} (s : Cells V) (c : Cid) (v : V) → Put s c v (put s c v)
put-Put s c v = (rw (==_refl c) refl, λ c' h. rw h refl)

pub changed-Put :
    {V : Type 0} (s : Cells V) (c : Cid) (f : V → V) (v : V)
    → s c ≡ some v
    → Put s c (f v) (changed s c f)
changed-Put s c f v g = (rw (==_refl c) (rw g refl), λ c' h. rw h refl)

abbrev pub reference_table : {V : Type 0} → Table V (Cells V)
reference_table = record {
  get = λ s c. s c;
  has = λ s c. ok (present (s c));
  begin = λ s c v. ok (put s c v);
  mutate = λ s c f. ok (changed s c f);
  has_lem = λ s c b h. subst (Says (present (s c))) h refl;
  begin_lem = λ s s' c v h. subst (Leaves (Put s c v)) h (put-Put s c v);
  mutate_lem = λ s s' c f v h g. subst (Leaves (Put s c (f v))) h (changed-Put s c f v g);
}
