-- ===== src/Storage/Timeline.antt =====
-- storagemarket/types.go: what `AddStageLog` does to the stages that `GetStage` finds.
use text.Mathlib.Text.{◌==◌ as str_eq}
use text.Mathlib.TextEquality.{eq_iff}
use go_fil_markets.Prelude.{ℕ, ◌≡◌, Option, none, some, List, [], ◌∷◌, String, if◌then◌else◌, arith}
use go_fil_markets.Storage.Stages.{DealStage, find_stage, updated, new_stage, change_stage}

abbrev pub or_new : ℕ → Option DealStage → DealStage
or_new now none = new_stage now
or_new now (some s) = s

-- Logging a message changes the stage that is found by its name, or makes it; the other stages are
-- found as before.
find_stage-change_stage :
    (now : ℕ) (stage description duration msg other : String) (ss : List DealStage)
    → find_stage other (change_stage now stage description duration msg ss) ≡ (
        if str_eq stage other
        then some (updated now stage description duration msg (or_new now (find_stage stage ss)))
        else find_stage other ss)
unfolding find_stage change_stage updated
find_stage-change_stage now stage description duration msg other [] =
    ground (arith, eq_iff stage other)
find_stage-change_stage now stage description duration msg other (s ∷ ss) = ground (
  arith,
  eq_iff stage other,
  eq_iff s.name stage,
  eq_iff s.name other,
  find_stage-change_stage now stage description duration msg other ss,
)
