-- ===== src/HostRuntime/Resume.antt =====
-- HostNativeRuntimeAdapter.resume, which reads the store and changes nothing.
use graph_skill_runtime.Common.{String, Option, none, some, or_else}
use graph_skill_runtime.Common.Outcome.{done, raised}
use graph_skill_runtime.Json.{JsonObject, text, empty, member}
use graph_skill_runtime.Domain.Profile.{RuntimeErrorCode}
use graph_skill_runtime.Domain.Run.{RunRequest}
use graph_skill_runtime.Domain.Agent.{RunResult, RunMode}
use graph_skill_runtime.Engine.{failed_run}
use graph_skill_runtime.Handoff.{Pydantic, Table, ok, err, load}
use graph_skill_runtime.HostRuntime.Services.{
  Python, message_of, store_exception, validate_record_owner,
}

pub record ResumeRequest : Type 0 where
  pub run_id : String
  pub skill_root : String
  pub state_root : String
  pub checkpoint_ref : Option String
  pub human_response : Option JsonObject

-- {"checkpoint_ref": ref}
abbrev pub ref_details : String → JsonObject
ref_details ref = member "checkpoint_ref" (text ref) empty

module _ (p : Pydantic) (py : Python) where
  unfoldable pub resume : ResumeRequest → RunRequest → Table p.Json → RunResult
  resume request run_request table = elim request.checkpoint_ref [
    | none ↦
        failed_run run_request RunMode.resume RuntimeErrorCode.not_implemented
          "resume without a host-native checkpoint_ref is not implemented yet" empty
    | some ref ↦ elim (load p ref table) [
      | err e ↦
          failed_run run_request RunMode.resume RuntimeErrorCode.invalid_request
            (message_of (store_exception py e)) (ref_details ref)
      | ok entry ↦ elim (validate_record_owner py entry request.run_id run_request) [
        | raised e ↦
            failed_run run_request RunMode.resume RuntimeErrorCode.invalid_request (message_of e)
              (ref_details ref)
        | done u ↦ or_else entry.required_response entry.response
      ]
    ]
  ]
