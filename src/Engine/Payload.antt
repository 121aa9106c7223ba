-- ===== src/Engine/Payload.antt =====
-- RunResult._payload_matches_status of domain/models.py, the check that pydantic runs on every answer.
use graph_skill_runtime.Common.{String, Bool, true, not, ◌&&◌, ◌≡◌, refl, is_some, arith}
use graph_skill_runtime.Json.{JsonObject}
use graph_skill_runtime.Domain.Profile.{RuntimeErrorCode}
use graph_skill_runtime.Domain.Run.{RunRequest}
use graph_skill_runtime.Domain.Agent.{RunResult, RunMode, RunStatus}
use graph_skill_runtime.Engine.{CoreRunResult, run_result, failed_run}

-- Whether the validator lets an answer pass.
unfoldable pub payload_matches_status : RunResult → Bool
payload_matches_status r = elim r.status [
  | RunStatus.failed ↦ is_some r.error && not (is_some r.agent_required)
  | RunStatus.agent_required ↦ is_some r.agent_required
  | _ ↦ not (is_some r.agent_required)
]

pub payload-run_result :
    (result : CoreRunResult) (request : RunRequest) (mode : RunMode)
    → payload_matches_status (run_result result request mode) ≡ true
unfolding payload_matches_status run_result
payload-run_result result request mode = ground arith

pub payload-failed_run :
    (request : RunRequest) (mode : RunMode) (code : RuntimeErrorCode) (message : String)
    (details : JsonObject)
    → payload_matches_status (failed_run request mode code message details) ≡ true
unfolding payload_matches_status failed_run
payload-failed_run request mode code message details = refl
