-- ===== src/Manifest.antt =====
-- core/manifest.py: what the modelled code reads of an Agent's node.
use graph_skill_runtime.Common.{String, List}
use graph_skill_runtime.Json.{JsonObject}

pub record PhaseIoSchema : Type 0 where
  pub inputs : JsonObject
  pub outputs : JsonObject

pub record AgentRegistryItem : Type 0 where
  pub name : String
  pub graph : String
  pub description : String

pub record ReferenceSpec : Type 0 where
  pub id : String
  pub path : String
  pub summary : String

pub record ExampleSpec : Type 0 where
  pub id : String
  pub path : String
  pub summary : String

pub record AgentStep : Type 0 where
  pub id : String
  pub name : String
  pub content : String

pub record AgentProtocol : Type 0 where
  pub id : String
  pub content : String

pub record SubagentSpec : Type 0 where
  pub name : String
  pub target_skill : String
  pub description : String

pub record AgentNodeAst : Type 0 where
  pub role : String
  pub goal : String
  pub steps : List AgentStep
  pub protocols : List AgentProtocol
  pub io : PhaseIoSchema
  pub tools : List String
  pub subagents : List SubagentSpec
  pub subgraphs : List AgentRegistryItem
  pub references : List ReferenceSpec
  pub examples : List ExampleSpec
