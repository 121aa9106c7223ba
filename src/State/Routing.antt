-- ===== src/State/Routing.antt =====
-- StateManager.route_finish_task of core/state.py: what an agent's output does to the state.
use graph_skill_runtime.Common.{◌≡◌, String, if◌then◌else◌, none, some, ◌==◌}
use graph_skill_runtime.Json
use graph_skill_runtime.Json.{JsonObject, object, member, empty}
use graph_skill_runtime.State.{update_all, keep_keys, is_framework_key}

-- The framework state that is validated: its entries and the result of finish_task, which holds the
-- output's entries with the prefix and the whole output.
pub record IsFinished (flow llm_output candidate : JsonObject) : Type 0 where
  pub meta : JsonObject
  pub metas :
      (k : String) → Json.get meta k ≡ (if is_framework_key k then Json.get llm_output k else none)
  pub entries :
      (k : String)
      → Json.get candidate k ≡ (
          if "finish_task_result" == k
          then some (object (member "meta" (object meta) (member "raw" (object llm_output) empty)))
          else Json.get flow k)

finished : (flow llm_output : JsonObject) → JsonObject
finished flow llm_output =
    let meta = object (keep_keys is_framework_key llm_output) in
    let result = object (member "meta" meta (member "raw" (object llm_output) empty)) in
    update_all flow (member "finish_task_result" result empty)
