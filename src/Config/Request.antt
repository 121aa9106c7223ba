-- ===== src/Config/Request.antt =====
-- application/config.py: the request of a run, from a preset and an invocation, and its value origins.
use Prim.Native.String.{◌++◌ as str_append}
use graph_skill_runtime.Common.{
  ℕ, String, Bool, false, not, ◌||◌, List, [], ◌∷◌, ◌++◌, map, Option, none, some, ◌==◌,
  if◌then◌else◌, or_else, is_some, keep,
}
use graph_skill_runtime.Common.Text.{codes, codes_eq, sort_by, before}
use graph_skill_runtime.Json.{JsonObject, keys}
use graph_skill_runtime.Domain.Profile.{
  ConfigSource, default, invocation, ValueOrigin, ResolvedRuntimeProfile,
}
use graph_skill_runtime.Domain.Run.{RunPreset, RunInvocation, RunRequest}
use graph_skill_runtime.Config.{PresetDocument}

pub data Selected : Type 0 where
  selected : RunPreset → ConfigSource → Option String → Selected

-- _PresetDocument.to_preset, with the fields of the preset
abbrev pub preset_of : String → PresetDocument → RunPreset
preset_of preset_id d = record {
  preset_id = preset_id;
  inputs = d.inputs;
  secret_inputs = d.secret_inputs;
  bindings = d.bindings;
  breakpoints = d.breakpoints;
  node_overrides = d.node_overrides;
  compare_candidates = d.compare_candidates;
  artifact_requests = d.artifact_requests;
}

-- RunPreset(preset_id="defaults")
abbrev pub default_preset : RunPreset
default_preset = record {
  preset_id = "defaults";
  inputs = JsonObject.empty;
  secret_inputs = [];
  bindings = [];
  breakpoints = [];
  node_overrides = [];
  compare_candidates = [];
  artifact_requests = [];
}

abbrev pub business_origin : ConfigSource → Option String → String → ValueOrigin
business_origin source source_path field = record {
  field = field;
  source = source;
  source_path = source_path;
}

abbrev pub input_field : String → String
input_field name = str_append "inputs." name

abbrev pub business_fields : List String
business_fields =
    "inputs" ∷ "secret_inputs" ∷ "bindings" ∷ "breakpoints" ∷ "node_overrides"
    ∷ "compare_candidates" ∷ "artifact_requests" ∷ []

abbrev pub sorted_names : List String → List String
sorted_names names = sort_by (λ name. name) names

-- _business_origins
unfoldable pub business_origins : RunPreset → ConfigSource → Option String → List ValueOrigin
business_origins p source source_path =
    map (business_origin source source_path) business_fields
    ++ map (λ name. business_origin source source_path (input_field name))
        (sorted_names (keys p.inputs))

-- invocation_fields, each with whether the invocation has a value for it
abbrev pub invocation_fields : RunInvocation → List (String × Bool)
invocation_fields i =
    ("inputs", is_some i.inputs)
    ∷ ("secret_inputs", is_some i.secret_inputs)
    ∷ ("bindings", is_some i.bindings)
    ∷ ("breakpoints", is_some i.breakpoints)
    ∷ ("node_overrides", is_some i.node_overrides)
    ∷ ("compare_candidates", is_some i.compare_candidates)
    ∷ ("artifact_requests", is_some i.artifact_requests)
    ∷ []

abbrev pub names_given : List (String × Bool) → List String
names_given [] = []
names_given ((name, given) ∷ rest) = if given then name ∷ names_given rest else names_given rest

-- overridden_names
abbrev pub overridden_names : RunInvocation → List String
overridden_names i = names_given (invocation_fields i)

abbrev pub is_one_of : List ℕ → List String → Bool
is_one_of name [] = false
is_one_of name (x ∷ xs) = codes_eq name (codes x) || is_one_of name xs

-- The origins whose field, up to a dot, is none of the names.
abbrev pub without : List String → List ValueOrigin → List ValueOrigin
without names origins = keep (λ o. not (is_one_of (before 46 (codes o.field)) names)) origins

abbrev pub input_origins : Option JsonObject → List ValueOrigin
input_origins none = []
input_origins (some inputs) =
    map (λ name. business_origin invocation none (input_field name)) (sorted_names (keys inputs))

abbrev pub run_id_source : Option String → ConfigSource
run_id_source none = default
run_id_source (some id) = invocation

-- The origins of the request, before they are sorted by field.
unfoldable pub request_origins : RunInvocation → Selected → List ValueOrigin
unfolding business_origins
request_origins i (selected p source source_path) =
    without (overridden_names i) (business_origins p source source_path)
    ++ map (business_origin invocation none) (sorted_names (overridden_names i))
    ++ input_origins i.inputs
    ++ business_origin (run_id_source i.run_id) none "run_id" ∷ []

-- invocation.run_id or str(uuid.uuid4()): an empty id is no id
abbrev pub chosen_run_id : String → Option String → String
chosen_run_id fresh none = fresh
chosen_run_id fresh (some id) = if id == "" then fresh else id

abbrev pub request_of : String → RunInvocation → Selected → ResolvedRuntimeProfile → RunRequest
request_of fresh i (selected p source source_path) profile = record {
  run_id = chosen_run_id fresh i.run_id;
  preset_id = i.preset_id;
  profile = profile;
  inputs = or_else p.inputs i.inputs;
  secret_inputs = or_else p.secret_inputs i.secret_inputs;
  bindings = or_else p.bindings i.bindings;
  breakpoints = or_else p.breakpoints i.breakpoints;
  node_overrides = or_else p.node_overrides i.node_overrides;
  compare_candidates = or_else p.compare_candidates i.compare_candidates;
  artifact_requests = or_else p.artifact_requests i.artifact_requests;
  value_origins = sort_by (λ o. o.field) (request_origins i (selected p source source_path));
}
