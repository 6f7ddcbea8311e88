-- ===== src/Fsm/Tables.antt =====
-- What the deal machines take from github.com/filecoin-project/go-statemachine/fsm, whose code is
-- not in this repository: the tables that its builder calls declare, the documented meaning of a
-- table, and an engine that is a parameter with that meaning as its contract.
use go_fil_markets.Prelude.{
  Bool, true, false, Option, none, some, List, [], ◌∷◌, ◌≡◌, ◌||◌, if◌then◌else◌, refl,
}

-- `.To(s)`, `.ToNoChange()` (the entry function of the same state runs again) and
-- `.ToJustRecord()` (no entry function runs).
pub data Dest (S : Type 0) : Type 0 where
  to : S → Dest S
  no_change just_record : Dest S

-- `.FromMany(s, …)` with its destination, and `.FromAny()` with its destination.
pub data Edge (S : Type 0) : Type 0 where
  from_many : List S → Dest S → Edge S
  from_any : Dest S → Edge S

-- What an event does to a deal: the table has no way for it, its action panics or never returns,
-- or the deal is changed and the flag says whether an entry function runs next.
pub data Fired (D : Type 0) : Type 0 where
  refused faulted : Fired D
  moved : D → Bool → Fired D

module _ {S : Type 0} (same : S → S → Bool) where
  abbrev pub elem : S → List S → Bool
  elem s [] = false
  elem s (x ∷ xs) = same x s || elem s xs

  -- The destination that names the state, and the one for any state.
  abbrev pub named : List (Edge S) → S → Option (Dest S)
  named [] s = none
  named (from_many ss d ∷ es) s = if elem s ss then some d else named es s
  named (from_any d ∷ es) s = named es s

  abbrev pub for_any : List (Edge S) → Option (Dest S)
  for_any [] = none
  for_any (from_many ss d ∷ es) = for_any es
  for_any (from_any d ∷ es) = some d

  -- A destination for the state itself comes before one for any state.
  abbrev pub declared : List (Edge S) → S → Option (Dest S)
  declared es s = elim (named es s) [ none ↦ for_any es | some d ↦ some d ]

-- How a machine reads and writes the state of a deal (`StateKeyField`).
pub record Machine (S D : Type 0) : Type 0 where
  pub same : S → S → Bool
  pub state_of : D → S
  pub with_state : D → S → D

abbrev pub arrive : {S D : Type 0} → Machine S D → Dest S → D → Fired D
arrive m (to s) d = moved (m.with_state d s) true
arrive m no_change d = moved d true
arrive m just_record d = moved d false

-- The documented meaning of a table: the destination is looked up, the action runs on the deal in
-- its old state, and then the state changes.
abbrev pub resolve : {S D : Type 0} → Machine S D → Option (Dest S) → Option D → Fired D
resolve m none a = refused
resolve m (some dest) none = faulted
resolve m (some dest) (some d) = arrive m dest d

abbrev pub transition : {S D : Type 0} → Machine S D → List (Edge S) → (D → Option D) → D → Fired D
transition m es action d = resolve m (declared m.same es (m.state_of d)) (action d)

-- The engine that the markets use: whatever it is, it follows the tables.
pub record Engine {S D : Type 0} (m : Machine S D) : Type 0 where
  pub process : List (Edge S) → (D → Option D) → D → Fired D
  pub process_lem :
      (es : List (Edge S)) (action : D → Option D) (d : D)
      → process es action d ≡ transition m es action d

-- An engine exists, for each machine.
abbrev pub reference_engine : {S D : Type 0} → (m : Machine S D) → Engine m
reference_engine m = record { process = transition m; process_lem = λ es action d. refl }

-- A deal that moved had a destination in the table, and its action ended.
pub resolve-moved :
    {S D : Type 0} (m : Machine S D) (o : Option (Dest S)) (a : Option D) (d' : D) (enters : Bool)
    → resolve m o a ≡ moved d' enters
    → (dest : Dest S) × (d₁ : D) × (o ≡ some dest)
      × (a ≡ some d₁)
      × (arrive m dest d₁ ≡ moved d' enters)
resolve-moved m none a d' enters h = cc
resolve-moved m (some dest) none d' enters h = cc
resolve-moved m (some dest) (some d) d' enters h = (dest, d, refl, refl, h)
