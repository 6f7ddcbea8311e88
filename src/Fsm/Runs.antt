-- ===== src/Fsm/Runs.antt =====
-- A deal machine under a sequence of events, from its entry functions or from outside. An event
-- that is refused, or whose action faults, leaves the deal as it was.
use go_fil_markets.Prelude.{List, [], ◌∷◌}
use go_fil_markets.Fsm.Tables.{Fired, refused, faulted, moved}

module _ {E D : Type 0} (fire : E → D → Fired D) where
  abbrev pub settle : D → Fired D → D
  settle d refused = d
  settle d faulted = d
  settle d (moved d' enters) = d'

  unfoldable pub run : D → List E → D
  run d [] = d
  run d (e ∷ es) = run (settle d (fire e d)) es
