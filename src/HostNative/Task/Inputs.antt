-- ===== src/HostNative/Task/Inputs.antt =====
-- What a host sees of a run's context.
use graph_skill_runtime.Common.{
  String, Bool, not, none, some, ◌≡◌, refl, arith, ◌==◌, eq_iff, if◌then◌else◌, Option-cases, inl,
  inr,
}
use mathlib.Core.Path.{subst}
use graph_skill_runtime.Common.Names.{has}
use graph_skill_runtime.Common.Outcome.{done}
use graph_skill_runtime.Json
use graph_skill_runtime.Json.{Json, JsonObject, empty, member, object}
use graph_skill_runtime.State.{keep_keys}
use graph_skill_runtime.HostNative.Platform.{Platform}
use graph_skill_runtime.HostNative.PhaseInputs.{selected, offered, phase_inputs}

-- Whether the inputs of a schema may hold a name: it lists its properties or lets all but the outputs
-- of the phases through.
abbrev pub admits_name : JsonObject → String → Bool
admits_name schema name = elim (Json.get schema "properties") [
  | some (object properties) ↦ has name (Json.keys properties)
  | _ ↦ not (name == "phase_outputs")
]

get-selected :
    (properties context : JsonObject) (k : String)
    → Json.get (selected properties context) k
      ≡ (if has k (Json.keys properties) then Json.get context k else none)
unfolding selected Json.get Json.keys has
get-selected empty context k = refl
get-selected (member name s rest) context k =
    ground (arith, eq_iff name k, get-selected rest context k)

get-keep_keys :
    (test : String → Bool) (o : JsonObject) (k : String)
    → Json.get (keep_keys test o) k ≡ (if test k then Json.get o k else none)
unfolding keep_keys Json.get
get-keep_keys test empty k = ground arith
get-keep_keys test (member j v o) k = ground (arith, eq_iff j k, get-keep_keys test o k)

get-offered :
    (schema context : JsonObject) (k : String)
    → Json.get (offered schema context) k
      ≡ (if admits_name schema k then Json.get context k else none)
unfolding offered
get-offered schema context k =
    let others = get-keep_keys (λ (name : String). not (name == "phase_outputs")) context k in
    elim (Option-cases (Json.get schema "properties")) [
      | inl e ↦ ground (arith, others)
      | inr (object properties, e) ↦ ground (arith, get-selected properties context k)
      | inr (Json.null, e) ↦ ground (arith, others)
      | inr (Json.boolean b, e) ↦ ground (arith, others)
      | inr (Json.number n, e) ↦ ground (arith, others)
      | inr (Json.text t, e) ↦ ground (arith, others)
      | inr (Json.array l, e) ↦ ground (arith, others)
    ]

-- The inputs of a task satisfy the phase's schema, and hold a name exactly where the schema admits the
-- name and the context has it, with the context's value.
pub phase_inputs_lem :
    (host : Platform) (schema context inputs : JsonObject) (k : String)
    → phase_inputs host schema context ≡ done inputs
    → (host.violation schema inputs ≡ none)
      × (Json.get inputs k ≡ (if admits_name schema k then Json.get context k else none))
unfolding phase_inputs
phase_inputs_lem host schema context inputs k e =
    elim (Option-cases (host.violation schema (offered schema context))) [
      | inr (m, q) ↦ absurd (ground arith)
      | inl q ↦
          let same : offered schema context ≡ inputs = ground arith in
          subst
            (λ (o : JsonObject).
              (host.violation schema o ≡ none)
              × (Json.get o k ≡ (if admits_name schema k then Json.get context k else none)))
            same (q, get-offered schema context k)
    ]
