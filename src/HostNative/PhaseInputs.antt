-- ===== src/HostNative/PhaseInputs.antt =====
-- _phase_inputs of adapters/host_native.py: the part of a context that a task shows its host.
use graph_skill_runtime.Common.{not, none, some, ◌==◌}
use graph_skill_runtime.Common.Outcome.{Outcome, done, raised}
use graph_skill_runtime.Json
use graph_skill_runtime.Json.{Json, JsonObject, empty, member, object}
use graph_skill_runtime.State.{keep_keys}
use graph_skill_runtime.HostNative.Platform.{Platform, TaskError, inputs_unsatisfied}

-- {name: context[name] for name in properties if name in context}
unfoldable pub selected : JsonObject → JsonObject → JsonObject
selected empty context = empty
selected (member name schema properties) context =
    let later = selected properties context in
    elim (Json.get context name) [ some value ↦ member name value later | none ↦ later ]

-- The context's entries that the schema lets through.
unfoldable pub offered : JsonObject → JsonObject → JsonObject
unfolding selected
offered schema context = elim (Json.get schema "properties") [
  | some (object properties) ↦ selected properties context
  | _ ↦ keep_keys (λ name. not (name == "phase_outputs")) context
]

module _ (host : Platform) where
  unfoldable pub phase_inputs : JsonObject → JsonObject → Outcome TaskError JsonObject
  unfolding offered
  phase_inputs schema context = elim (host.violation schema (offered schema context)) [
    | some message ↦ raised (inputs_unsatisfied message)
    | none ↦ done (offered schema context)
  ]
