-- ===== src/Storage/Stages.antt =====
-- storagemarket/types.go: `DealStages`, the timeline of a storage client's deal by stages. The time
-- of a log is an argument; a stage's description and expected duration are texts.
use text.Mathlib.Text.{◌==◌ as str_eq}
use go_fil_markets.Prelude.{
  ℕ, Bool, true, not, ◌&&◌, Option, none, some, List, [], ◌∷◌, ◌++◌, String, if◌then◌else◌,
}

-- `Log`
pub record Log : Type 0 where
  pub log : String
  pub updated_time : ℕ

-- `DealStage`
pub record DealStage : Type 0 where
  pub name : String
  pub description : String
  pub expected_duration : String
  pub created_time : ℕ
  pub updated_time : ℕ
  pub logs : List Log

-- `GetStage` on the stages of a timeline that is not nil.
unfoldable pub find_stage : String → List DealStage → Option DealStage
find_stage stage [] = none
find_stage stage (s ∷ ss) = if str_eq s.name stage then some s else find_stage stage ss

-- `GetStage`
unfoldable pub get_stage : Option (List DealStage) → String → Option DealStage
unfolding find_stage
get_stage none stage = none
get_stage (some stages) stage = find_stage stage stages

-- `len(logs) == 0 || logs[len(logs)-1].Log != msg`
unfoldable pub is_news : String → List Log → Bool
is_news msg [] = true
is_news msg (l ∷ []) = not (str_eq l.log msg)
is_news msg (l ∷ m ∷ ls) = is_news msg (m ∷ ls)

-- The log is added if it is not empty and no duplicate of the last.
unfoldable pub with_log : ℕ → String → List Log → List Log
unfolding is_news
with_log now msg logs =
    if not (str_eq msg "") && is_news msg logs
    then logs ++ record { log = msg; updated_time = now } ∷ []
    else logs

-- What `AddStageLog` writes to the stage that it found or made.
unfoldable pub updated : ℕ → String → String → String → String → DealStage → DealStage
unfolding with_log
updated now stage description duration msg s = record s {
  name = stage;
  description = description;
  expected_duration = duration;
  updated_time = now;
  logs = with_log now msg s.logs;
}

abbrev pub new_stage : ℕ → DealStage
new_stage now = record {
  name = "";
  description = "";
  expected_duration = "";
  created_time = now;
  updated_time = 0;
  logs = [];
}

-- The stage is found by its name and changed in place, or made at the end.
unfoldable pub change_stage :
    ℕ → String → String → String → String → List DealStage → List DealStage
unfolding updated
change_stage now stage description duration msg [] =
    updated now stage description duration msg (new_stage now) ∷ []
change_stage now stage description duration msg (s ∷ ss) =
    if str_eq s.name stage
    then updated now stage description duration msg s ∷ ss
    else s ∷ change_stage now stage description duration msg ss

-- `AddStageLog`; a nil timeline stays nil.
unfoldable pub add_stage_log :
    ℕ → String → String → String → String → Option (List DealStage) → Option (List DealStage)
unfolding change_stage
add_stage_log now stage description duration msg none = none
add_stage_log now stage description duration msg (some stages) =
    some (change_stage now stage description duration msg stages)
