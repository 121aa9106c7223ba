-- ===== src/Config/Tests.antt =====
-- A small configuration, and the theorems on it.
use graph_skill_runtime.Common.{
  String, true, false, List, [], ◌∷◌, none, some, ◌≡◌, refl, ◌==◌, if◌then◌else◌,
}
use graph_skill_runtime.Json.{Json, text, object, array, nil, item, empty, member}
use graph_skill_runtime.Common.Dict
use graph_skill_runtime.Common.Text.{sort_by, insert_by, before, ends_with, starts_with}
use graph_skill_runtime.Domain.Profile.{
  default, user, RuntimeProfileOverlay, ResolvedRuntimeProfile, ExecutorConfig, embedded,
}
use graph_skill_runtime.Domain.Run.{RunInvocation, RunRequest, RunPreset}
use graph_skill_runtime.Domain.Secrets.{
  find_secret, is_secret_key, normalized_key, names_secret, collapse, drop_underscores, Part,
  at_key, at_index,
}
use graph_skill_runtime.Domain.Secrets.Clean.{Holds, find_secret_lem}
use graph_skill_runtime.Config.{
  Outside, contents, ok, Layer, apply, apply_layers, defaults, ProfileAccumulator, runtime_origin,
}
use graph_skill_runtime.Config.Request.{
  request_origins, business_origins, default_preset, selected, request_of,
}
use graph_skill_runtime.Config.Resolve.{
  resolve, resolve_documents, open_documents, select_preset, resolved_profile, runtime_profile,
  resolved_state_root, load_user_config, load_project_config, read_toml, accumulated, or_fail,
  Documents, is_user, profile_of, resolved_of,
}
use graph_skill_runtime.Config.Layers.{RuntimeField, origins_name_suppliers, latest_layer_wins}
use graph_skill_runtime.Config.Outcome.Values.{IsBase, IsLayered, resolve-IsLayered}

abbrev nothing : RuntimeProfileOverlay
nothing = record {
  executor = none;
  checkpoint_store = none;
  state_dir = none;
  permissions = none;
  required_capabilities = none;
  fallback_executors = none;
}

abbrev embedded_config : ExecutorConfig
embedded_config = embedded (record { provider = none; model = some "m"; credential = none })

abbrev outside : Outside
outside = record {
  resolve_strict = λ p. some p;
  resolve = λ p. p;
  expand = λ p. p;
  is_dir = λ p. true;
  exists = λ p. p == "/u/gskill.toml";
  is_absolute = λ p. true;
  join = λ a b. if b == "gskill.toml" then "/s/gskill.toml" else "/s/.gskill";
  parent = λ p. p;
  read_text = λ p. contents p;
  toml_loads = λ t. some empty;
  validate_user =
      λ o. some (record { runtime = record nothing { executor = some embedded_config } });
  validate_project = λ o. none;
  casefold = λ s. s;
  uuid4 = "fresh";
}

abbrev call : RunInvocation
call = record {
  skill_root = "/s";
  run_id = some "r";
  preset_id = none;
  runtime = record nothing { required_capabilities = some ("c" ∷ []) };
  inputs = some (member "topic" (text "x") empty);
  secret_inputs = none;
  bindings = none;
  breakpoints = none;
  node_overrides = none;
  compare_candidates = none;
  artifact_requests = none;
}

program : Unit {0}
unfolding Dict.get Dict.put sort_by insert_by before ends_with starts_with find_secret is_secret_key
    normalized_key names_secret collapse drop_underscores apply apply_layers defaults
    request_origins business_origins resolve resolve_documents open_documents select_preset
    resolved_profile runtime_profile resolved_state_root load_user_config load_project_config
    read_toml or_fail is_user
program = tt

abbrev documents : Documents
documents = record {
  skill_root = "/s";
  user_document = some (record { runtime = record nothing { executor = some embedded_config } });
  project_document = none;
}

abbrev layered : ProfileAccumulator
layered = accumulated outside "/u/gskill.toml" call none none documents

abbrev resolved : ResolvedRuntimeProfile
resolved = resolved_of outside layered (profile_of layered "/s/.gskill") "/s" "/s/.gskill"

abbrev asked : RunRequest
asked = request_of "fresh" call (selected default_preset default none) resolved

succeeds : resolve outside "/u/gskill.toml" call none none ≡ ok (resolved, asked)
unfolding program
succeeds = refl

-- The user's layer gave the executor, and its origin says so.
user_executor :
    Dict.get layered.origins "executor"
    ≡ some (runtime_origin "executor" user (some "/u/gskill.toml"))
unfolding program
user_executor = refl

abbrev user_layer : Layer
user_layer = record {
  overlay = some (record nothing { executor = some embedded_config });
  source = user;
  source_path = some "/u/gskill.toml";
}

origins_name_suppliers_example :
    Dict.get (apply_layers (user_layer ∷ []) defaults).origins "executor"
    ≡ some (runtime_origin "executor" user (some "/u/gskill.toml"))
origins_name_suppliers_example = origins_name_suppliers (user_layer ∷ []) RuntimeField.executor

latest_layer_wins_example :
    ((apply_layers (user_layer ∷ []) defaults).executor ≡ embedded_config)
    × ((apply_layers (user_layer ∷ []) defaults).checkpoint_store ≡ defaults.checkpoint_store)
    × ((apply_layers (user_layer ∷ []) defaults).state_dir ≡ defaults.state_dir)
    × ((apply_layers (user_layer ∷ []) defaults).permissions ≡ defaults.permissions)
    × ((apply_layers (user_layer ∷ []) defaults).required_capabilities
        ≡ defaults.required_capabilities)
    × ((apply_layers (user_layer ∷ []) defaults).fallback_executors ≡ defaults.fallback_executors)
latest_layer_wins_example = latest_layer_wins (user_layer ∷ []) defaults

resolve-IsLayered_example :
    (d : Documents) × (p : RunPreset) × (open_documents outside "/u/gskill.toml" call ≡ ok d)
    × IsBase call d.project_document none p
    × (asked.profile ≡ resolved)
    × IsLayered call p asked
resolve-IsLayered_example =
    resolve-IsLayered outside "/u/gskill.toml" call none none resolved asked succeeds

abbrev nested : Json
nested =
    object (member "servers" (array (item (object (member "api-key" (text "x") empty)) nil)) empty)

-- "api-key" is refused as api_key, and "keys" is not.
key_is_secret : is_secret_key (λ s. s) "my api-key" ≡ true
unfolding program
key_is_secret = refl

keys_is_plain : is_secret_key (λ s. s) "tokens_used" ≡ false
unfolding program
keys_is_plain = refl

nested_is_refused :
    find_secret (λ s. s) nested ≡ some (at_key "servers" ∷ at_index 0 ∷ at_key "api-key" ∷ [])
unfolding program
nested_is_refused = refl

find_secret_example :
    (find_secret (λ s. s) nested ≡ none
      → (k : String) → Holds k nested
      → is_secret_key (λ s. s) k ≡ false)
    × ((path : List Part)
        → find_secret (λ s. s) nested ≡ some path
        → (k : String) × Holds k nested × (is_secret_key (λ s. s) k ≡ true))
find_secret_example = find_secret_lem (λ s. s) nested
