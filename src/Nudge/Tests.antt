-- ===== src/Nudge/Tests.antt =====
-- Small runs of the nudge policy, and the theorems at them.
use graph_skill_runtime.Common.{false, none, some, List, [], ◌∷◌, ◌≡◌, refl}
use graph_skill_runtime.Nudge.{
  planning, NudgePolicy, new_policy, try_standard, try_planning, try_selfcheck, consume, spend,
  build_standard_nudge_text, FinishPayload, has_structured_selfcheck,
}
use graph_skill_runtime.Nudge.Budget.{
  Gate, selfcheck_gate, planning_gate, standard_gate, consult, decisions, spent,
}
use graph_skill_runtime.Common.Text.{strip}

abbrev thin : FinishPayload
thin = record {
  phase_name = some "review";
  schema_validation = none;
  validation_error_text = none;
  business_data_md = "";
  diagnostics_md = " ok ";
  reasoning = "";
}

abbrev spent_policy : NudgePolicy
spent_policy = record (new_policy 1) { standard_count = 1; total = 1 }

program : Unit {0}
unfolding try_standard try_planning try_selfcheck spend consume build_standard_nudge_text
    has_structured_selfcheck strip consult decisions
program = tt

thin_is_unchecked : has_structured_selfcheck thin ≡ false
unfolding program
thin_is_unchecked = refl

standard_is_spent : (consult (standard_gate "hi" false) spent_policy).1.counted ≡ false
unfolding program
standard_is_spent = refl

abbrev gates : List Gate
gates =
    standard_gate "a" false
    ∷ standard_gate "b" false
    ∷ planning_gate "c" false false
    ∷ selfcheck_gate thin
    ∷ []

-- The second gate was declined at no cost, so the third still found room.
spent-gates : spent planning (decisions gates (new_policy 1)) ≡ 1
unfolding program
spent-gates = refl
