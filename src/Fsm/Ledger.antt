-- ===== src/Fsm/Ledger.antt =====
-- What a deal machine adds up in a run: an amount that each event changes by its own weight, while
-- what the deal is about is kept.
use go_fil_markets.Prelude.{◌≡◌, subst, sym, ap, ◌∙◌, Option, none, some, List, [], ◌∷◌}
use go_fil_markets.Prelude.Int.{ℤ, pos, ◌+ℤ◌, int_laws, +ℤ_assoc}
use go_fil_markets.Fsm.Tables.{
  Dest, to, no_change, just_record, Edge, Fired, refused, faulted, moved, Machine, Engine, declared,
  resolve,
}
use go_fil_markets.Fsm.Runs.{settle, run}

-- An event that is refused, or whose action faults, counts for nothing.
abbrev pub counted : {D : Type 0} → ℤ → Fired D → ℤ
counted weight refused = pos 0
counted weight faulted = pos 0
counted weight (moved d enters) = weight

add_nothing : (a : ℤ) → a ≡ a +ℤ pos 0
add_nothing a = omega int_laws

module _ {E D : Type 0} (fire : E → D → Fired D) (weight : E → ℤ) where
  -- What the events that were not refused weigh together, in a run from a deal.
  unfoldable pub weighed : D → List E → ℤ
  weighed d [] = pos 0
  weighed d (e ∷ es) = counted (weight e) (fire e d) +ℤ weighed (settle fire d (fire e d)) es

module _ {D : Type 0} (Keeps : D → D → Type 0) (amount : D → ℤ) where
  -- The deal after an action, or after an event.
  abbrev pub Adds : D → ℤ → D → Type 0
  Adds d weight d' = (amount d' ≡ amount d +ℤ weight) × Keeps d d'

  abbrev pub AddsIfDone : D → ℤ → Option D → Type 0
  AddsIfDone d weight none = Unit
  AddsIfDone d weight (some d') = Adds d weight d'

  abbrev AddsIfMoved : D → ℤ → Fired D → Type 0
  AddsIfMoved d weight refused = Unit
  AddsIfMoved d weight faulted = Unit
  AddsIfMoved d weight (moved d' enters) = Adds d weight d'

  module _ {S E : Type 0} (m : Machine S D) (engine : Engine m) (edges : E → List (Edge S))
      (action : E → D → Option D) (weight : E → ℤ) (Keeps_refl : (d : D) → Keeps d d)
      (Keeps_trans : (d₀ d₁ d₂ : D) → Keeps d₀ d₁ → Keeps d₁ d₂ → Keeps d₀ d₂)
      (state_only : (d : D) (s : S)
        → (amount (m.with_state d s) ≡ amount d) × Keeps d (m.with_state d s))
      (adds : (e : E) (d : D) → AddsIfDone d (weight e) (action e d)) where
    abbrev fired : E → D → Fired D
    fired e d = engine.process (edges e) (action e) d

    resolve-AddsIfMoved :
        (w : ℤ) (d : D) (o : Option (Dest S)) (a : Option D)
        → AddsIfDone d w a
        → AddsIfMoved d w (resolve m o a)
    resolve-AddsIfMoved w d none a h = tt
    resolve-AddsIfMoved w d (some dest) none h = tt
    resolve-AddsIfMoved w d (some (to s)) (some d') h =
        let (same_amount, kept) = state_only d' s in
        (same_amount ∙ h.0, Keeps_trans d d' (m.with_state d' s) h.1 kept)
    resolve-AddsIfMoved w d (some no_change) (some d') h = h
    resolve-AddsIfMoved w d (some just_record) (some d') h = h

    settled :
        (w : ℤ) (d : D) (r : Fired D) → AddsIfMoved d w r → Adds d (counted w r) (settle fired d r)
    settled w d refused h = (add_nothing (amount d), Keeps_refl d)
    settled w d faulted h = (add_nothing (amount d), Keeps_refl d)
    settled w d (moved d' enters) h = h

    -- A run adds what its events weigh together, and keeps what each of them keeps.
    pub run-Adds : (es : List E) (d : D) → Adds d (weighed fired weight d es) (run fired d es)
    unfolding run weighed
    run-Adds [] d = (add_nothing (amount d), Keeps_refl d)
    run-Adds (e ∷ es) d =
        let r = fired e d in
        let d' = settle fired d r in
        let w = counted (weight e) r in
        let (more, kept) = settled (weight e) d r (
          subst (AddsIfMoved d (weight e)) (sym (engine.process_lem (edges e) (action e) d)) (
            resolve-AddsIfMoved (weight e) d (declared m.same (edges e) (m.state_of d)) (action e d)
              (adds e d))) in
        let (rest, kept') = run-Adds es d' in
        (
          rest
              ∙ ap (λ (a : ℤ). a +ℤ weighed fired weight d' es) more
              ∙ +ℤ_assoc (amount d) w (weighed fired weight d' es),
          Keeps_trans d d' (run fired d' es) kept kept',
        )
