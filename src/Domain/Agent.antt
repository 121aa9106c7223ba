-- ===== src/Domain/Agent.antt =====
-- domain/models.py: Agent tasks, their results, and what a run answers.
use graph_skill_runtime.Common.{String, Option, List, ℕ}
use graph_skill_runtime.Json.{JsonObject}
use graph_skill_runtime.Domain.Profile.{Network, PhaseAddress, RuntimeErrorPayload}
use graph_skill_runtime.Domain.Run.{RunRequest}

pub data Severity : Type 0 where
  fatal warning info : Severity

pub record CompileDiagnostic : Type 0 where
  pub code : String
  pub severity : Severity
  pub message : String
  pub source_path : Option String
  pub line : Option ℕ
  pub field_path : Option String
  pub graph_id : Option String
  pub phase_id : Option String
  pub conflicting_phase : Option String

pub data ResourceKind : Type 0 where
  reference example : ResourceKind

pub record AgentResource : Type 0 where
  pub kind : ResourceKind
  pub resource_id : String
  pub path : String
  pub summary : String

pub record AgentTask : Type 0 where
  pub task_id : String
  pub run_id : String
  pub address : PhaseAddress
  pub instructions : String
  pub inputs : JsonObject
  pub output_schema : JsonObject
  pub allowed_tools : List String
  pub allowed_paths : List String
  pub resources : List AgentResource
  pub network : Network
  pub deadline : Option String
  pub required_capabilities : List String

pub data SubmitMethod : Type 0 where
  mcp cli : SubmitMethod

pub record AgentRequired : Type 0 where
  pub task : AgentTask
  pub checkpoint_ref : String
  pub submit_methods : List SubmitMethod

pub data AgentStatus : Type 0 where
  completed failed cancelled : AgentStatus

pub record AgentResult : Type 0 where
  pub task_id : String
  pub status : AgentStatus
  pub output : Option JsonObject
  pub error : Option RuntimeErrorPayload
  pub executor_id : String
  pub provenance : JsonObject

pub data RunStatus : Type 0 where
  completed failed paused agent_required : RunStatus

pub data RunMode : Type 0 where
  run predict resume : RunMode

pub record RunResult : Type 0 where
  pub status : RunStatus
  pub run_id : String
  pub mode : RunMode
  pub request : Option RunRequest
  pub outputs : JsonObject
  pub trace_path : Option String
  pub error : Option RuntimeErrorPayload
  pub agent_required : Option AgentRequired
  pub diagnostics : List CompileDiagnostic
