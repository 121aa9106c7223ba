-- ===== src/Nudge.antt =====
-- src/graph_skill_runtime/middleware/nudge_policy.py: when to nudge, and the budgets of nudges.
-- A method returns the policy that it leaves and its decision. The three fixed texts are
-- constructors of `NudgeText`.
pub mod Budget
pub mod Gates
mod Tests
use graph_skill_runtime.Common.{
  ℕ, ◌+◌, ◌*◌, String, Bool, true, false, not, ◌&&◌, ◌||◌, ◌==◌, List, [], ◌∷◌, Option, none, some,
  length, leb, ltb, nat_eq, if◌then◌else◌,
}
use graph_skill_runtime.Common.Text.{codes, strip, take}

pub data NudgeKind : Type 0 where
  planning selfcheck standard : NudgeKind

abbrev pub default_max_nudges : ℕ
default_max_nudges = 1

abbrev pub min_finish_reasoning_len : ℕ
min_finish_reasoning_len = 30

pub data NudgeText : Type 0 where
  planning_nudge selfcheck_nudge : NudgeText
  standard_first : NudgeText
  standard_second : (shown : List ℕ) → NudgeText
  standard_last : NudgeText
  validation_error : String → NudgeText

unfoldable pub build_standard_nudge_text : ℕ → String → NudgeText
build_standard_nudge_text nudge_count latest_content =
    if nat_eq nudge_count 1
    then standard_first
    else if nat_eq nudge_count 2
    then standard_second (take 600 (codes latest_content))
    else standard_last

pub record NudgeDecision : Type 0 where
  pub text : Option NudgeText
  pub kind : Option NudgeKind
  pub count : ℕ
  pub counted : Bool
  pub budget_exhausted : Bool

-- _NO_NUDGE
abbrev pub no_nudge : NudgeDecision
no_nudge = record { text = none; kind = none; count = 0; counted = false; budget_exhausted = false }

pub record NudgePolicy : Type 0 where
  pub max_nudges : ℕ
  pub planning_count : ℕ
  pub selfcheck_count : ℕ
  pub standard_count : ℕ
  pub total : ℕ

-- NudgePolicy.__init__
abbrev pub new_policy : ℕ → NudgePolicy
new_policy max_nudges = record {
  max_nudges = max_nudges;
  planning_count = 0;
  selfcheck_count = 0;
  standard_count = 0;
  total = 0;
}

-- The keys of a finish_task payload that the policy reads, with str() applied: a text that is
-- missing is "", and a status that is missing is `none`.
pub record FinishPayload : Type 0 where
  pub phase_name : Option String
  pub schema_validation : Option String
  pub validation_error_text : Option String
  pub business_data_md : String
  pub diagnostics_md : String
  pub reasoning : String

abbrev pub counter : NudgePolicy → NudgeKind → ℕ
counter p planning = p.planning_count
counter p selfcheck = p.selfcheck_count
counter p standard = p.standard_count

abbrev pub bumped : NudgePolicy → NudgeKind → NudgePolicy
bumped p planning = record p { planning_count = p.planning_count + 1; total = p.total + 1 }
bumped p selfcheck = record p { selfcheck_count = p.selfcheck_count + 1; total = p.total + 1 }
bumped p standard = record p { standard_count = p.standard_count + 1; total = p.total + 1 }

-- _consume
unfoldable pub consume : NudgeKind → NudgePolicy → NudgePolicy × Bool
consume kind p =
    if ltb (counter p kind) p.max_nudges && ltb p.total (p.max_nudges * 2)
    then (bumped p kind, true)
    else (p, false)

abbrev pub status_is : String → Option String → Bool
status_is s none = false
status_is s (some t) = t == s

abbrev non_empty : List ℕ → Bool
non_empty [] = false
non_empty (c ∷ s) = true

-- _has_structured_selfcheck
unfoldable pub has_structured_selfcheck : FinishPayload → Bool
has_structured_selfcheck f =
    if non_empty (strip (codes f.business_data_md)) && status_is "passed" f.schema_validation
    then true
    else if leb min_finish_reasoning_len (length (strip (codes f.diagnostics_md)))
    then true
    else leb min_finish_reasoning_len (length (strip (codes f.reasoning)))

abbrev exhausted : NudgeKind → NudgeDecision
exhausted kind = record {
  text = none;
  kind = some kind;
  count = 0;
  counted = false;
  budget_exhausted = true;
}

abbrev nudged : NudgeKind → ℕ → NudgeText → NudgeDecision
nudged kind count text = record {
  text = some text;
  kind = some kind;
  count = count;
  counted = true;
  budget_exhausted = false;
}

abbrev error_text : Option String → String
error_text none = "Schema validation failed."
error_text (some t) = t

-- The validation error, handed back without counting.
abbrev pub echoed : FinishPayload → NudgePolicy → NudgeDecision
echoed f p = record {
  text = some (validation_error (error_text f.validation_error_text));
  kind = some selfcheck;
  count = p.selfcheck_count;
  counted = false;
  budget_exhausted = false;
}

-- The end of each gate: a nudge of one kind within budget, its text made from the new count.
unfoldable pub spend : NudgeKind → (ℕ → NudgeText) → NudgePolicy → NudgePolicy × NudgeDecision
spend kind text p =
    let (p', fired) = consume kind p in
    if fired
    then (p', nudged kind (counter p' kind) (text (counter p' kind)))
    else (p', exhausted kind)

unfoldable pub try_selfcheck : FinishPayload → NudgePolicy → NudgePolicy × NudgeDecision
try_selfcheck f p =
    if status_is "failed" f.schema_validation
    then (p, echoed f p)
    else if has_structured_selfcheck f
    then (p, no_nudge)
    else spend selfcheck (λ _. selfcheck_nudge) p

unfoldable pub try_planning :
    (latest_content : String) (has_tool_calls has_plan : Bool)
    → NudgePolicy
    → NudgePolicy × NudgeDecision
try_planning latest_content has_tool_calls has_plan p =
    if latest_content == "" || has_tool_calls || has_plan
    then (p, no_nudge)
    else spend planning (λ _. planning_nudge) p

unfoldable pub try_standard :
    (latest_content : String) (has_tool_calls : Bool) → NudgePolicy → NudgePolicy × NudgeDecision
try_standard latest_content has_tool_calls p =
    if latest_content == "" || has_tool_calls
    then (p, no_nudge)
    else spend standard (λ count. build_standard_nudge_text count latest_content) p
