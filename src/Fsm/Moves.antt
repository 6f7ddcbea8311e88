-- ===== src/Fsm/Moves.antt =====
-- What a deal machine does to a relation between states, given what each line of its table and each
-- of its actions does.
use go_fil_markets.Prelude.{◌≡◌, subst, sym, Option, none, some, List, [], ◌∷◌}
use go_fil_markets.Fsm.Tables.{
  Dest, to, no_change, just_record, Edge, Fired, refused, faulted, moved, Machine, Engine, declared,
  resolve,
}
use go_fil_markets.Fsm.Runs.{settle}

-- Each event of the run takes the deal that it meets to a related one.
module _ {E D : Type 0} (fire : E → D → Fired D) (Q : D → D → Type 0) where
  abbrev pub Paced : List E → D → Type 0
  Paced [] d = Unit
  Paced (e ∷ es) d = Q d (settle fire d (fire e d)) × Paced es (settle fire d (fire e d))

module _ {S : Type 0} (R : S → S → Type 0) where
  -- A destination leads from the state to a related one.
  abbrev pub Leads : S → Option (Dest S) → Type 0
  Leads s none = Unit
  Leads s (some (to t)) = R s t
  Leads s (some no_change) = R s s
  Leads s (some just_record) = R s s

  -- An action leaves the state to the table.
  abbrev pub Stays : {D : Type 0} → Machine S D → D → Option D → Type 0
  Stays m d none = Unit
  Stays m d (some d') = m.state_of d' ≡ m.state_of d

  module _ {D : Type 0} (m : Machine S D) (R_refl : (s : S) → R s s)
      (law : (d : D) (s : S) → m.state_of (m.with_state d s) ≡ s) where
    abbrev Arrived : D → Fired D → Type 0
    Arrived d refused = Unit
    Arrived d faulted = Unit
    Arrived d (moved d' enters) = R (m.state_of d) (m.state_of d')

    resolve-Arrived :
        (d : D) (o : Option (Dest S)) (a : Option D)
        → Leads (m.state_of d) o
        → Stays m d a
        → Arrived d (resolve m o a)
    resolve-Arrived d none a l s = tt
    resolve-Arrived d (some dest) none l s = tt
    resolve-Arrived d (some (to t)) (some d') l s = subst (R (m.state_of d)) (sym (law d' t)) l
    resolve-Arrived d (some no_change) (some d') l s = subst (R (m.state_of d)) (sym s) l
    resolve-Arrived d (some just_record) (some d') l s = subst (R (m.state_of d)) (sym s) l

    settled :
        {E : Type 0} (fire : E → D → Fired D) (d : D) (r : Fired D)
        → Arrived d r
        → R (m.state_of d) (m.state_of (settle fire d r))
    settled fire d refused a = R_refl (m.state_of d)
    settled fire d faulted a = R_refl (m.state_of d)
    settled fire d (moved d' enters) a = a

    module _ {E : Type 0} (engine : Engine m) (edges : E → List (Edge S))
        (action : E → D → Option D)
        (leads : (e : E) (s : S) → Leads s (declared m.same (edges e) s))
        (stays : (e : E) (d : D) → Stays m d (action e d)) where
      abbrev pub fired : E → D → Fired D
      fired e d = engine.process (edges e) (action e) d

      fired-Arrived : (e : E) (d : D) → R (m.state_of d) (m.state_of (settle fired d (fired e d)))
      fired-Arrived e d = settled fired d (fired e d) (
          subst (Arrived d) (sym (engine.process_lem (edges e) (action e) d)) (
            resolve-Arrived d (declared m.same (edges e) (m.state_of d)) (action e d)
              (leads e (m.state_of d)) (stays e d)))

      -- If every line of the table leads to a related state, every event of a run does.
      pub run-Paced :
          (es : List E) (d : D) → Paced fired (λ c d. R (m.state_of c) (m.state_of d)) es d
      run-Paced [] d = tt
      run-Paced (e ∷ es) d = (fired-Arrived e d, run-Paced es (settle fired d (fired e d)))
