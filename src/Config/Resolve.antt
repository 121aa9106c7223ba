-- ===== src/Config/Resolve.antt =====
-- application/config.py: ConfigResolver.resolve.
use graph_skill_runtime.Common.{
  ℕ, String, Bool, true, false, ◌&&◌, ◌||◌, List, [], ◌∷◌, map, Option, none, some, nat_eq,
  if◌then◌else◌,
}
use graph_skill_runtime.Common.Dict.{Dict, get}
use graph_skill_runtime.Common.Text.{sort_by}
use graph_skill_runtime.Json.{JsonObject}
use graph_skill_runtime.Domain.Profile.{
  default, portable, user, project, preset, invocation, ValueOrigin, ExecutorConfig, host_native,
  cli, embedded, RuntimeProfileOverlay, RuntimeProfile, ResolvedRuntimeProfile,
}
use graph_skill_runtime.Domain.Run.{RunPreset, RunInvocation, RunRequest}
use graph_skill_runtime.Domain.Secrets.{find_in_object}
use graph_skill_runtime.Config.{
  PresetDocument, ProjectConfigDocument, UserConfigDocument, ConfigError, Result, ok, err, ◌>>=◌,
  Outside, contents, unreadable, undecodable, not_utf8, ProfileAccumulator, defaults, Layer,
  apply_layers, no_such_root, not_a_directory, cannot_read, invalid_toml, invalid_user,
  invalid_project, unknown_preset, invalid_preset, invalid_profile,
}
use graph_skill_runtime.Config.Request.{Selected, selected, preset_of, default_preset, request_of}

unfoldable pub or_fail : {A : Type 0} → ConfigError → Option A → Result A
or_fail e none = err e
or_fail e (some a) = ok a

-- ExecutorConfig.kind, as a number
abbrev pub kind : ExecutorConfig → ℕ
kind host_native = 0
kind (cli c) = 1
kind (embedded c) = 2

abbrev pub has_kind : ℕ → List ExecutorConfig → Bool
has_kind k [] = false
has_kind k (e ∷ es) = nat_eq (kind e) k || has_kind k es

abbrev pub has_duplicate : List ExecutorConfig → Bool
has_duplicate [] = false
has_duplicate (e ∷ es) = has_kind (kind e) es || has_duplicate es

abbrev pub profile_of : ProfileAccumulator → String → RuntimeProfile
profile_of a state_root = record {
  executor = a.executor;
  checkpoint_store = a.checkpoint_store;
  state_dir = some state_root;
  permissions = a.permissions;
  required_capabilities = a.required_capabilities;
  fallback_executors = a.fallback_executors;
}

-- RuntimeProfile, with the check of its fallbacks
unfoldable pub runtime_profile : ProfileAccumulator → String → Result RuntimeProfile
runtime_profile a state_root =
    if has_kind (kind a.executor) a.fallback_executors || has_duplicate a.fallback_executors
    then err invalid_profile
    else ok (profile_of a state_root)

abbrev pub runtime_of_user : Option UserConfigDocument → Option RuntimeProfileOverlay
runtime_of_user none = none
runtime_of_user (some d) = some d.runtime

abbrev pub runtime_of_project : Option ProjectConfigDocument → Option RuntimeProfileOverlay
runtime_of_project none = none
runtime_of_project (some d) = some d.runtime

abbrev pub path_of : {A : Type 0} → String → Option A → Option String
path_of path none = none
path_of path (some d) = some path

-- The layers in the order of their precedence, the weakest first.
abbrev pub layers :
    Option RuntimeProfileOverlay
    → String
    → Option UserConfigDocument
    → String
    → Option ProjectConfigDocument
    → RunInvocation
    → List Layer
layers portable_runtime user_path user_document project_path project_document i =
    record { overlay = portable_runtime; source = portable; source_path = none }
    ∷ record {
      overlay = runtime_of_user user_document;
      source = user;
      source_path = path_of user_path user_document;
    }
    ∷ record {
      overlay = runtime_of_project project_document;
      source = project;
      source_path = path_of project_path project_document;
    }
    ∷ record { overlay = some i.runtime; source = invocation; source_path = none }
    ∷ []

abbrev pub presets_of : Option ProjectConfigDocument → Dict PresetDocument
presets_of none = []
presets_of (some d) = d.presets

-- What resolve has read: the resolved root and the two documents.
pub record Documents : Type 0 where
  pub skill_root : String
  pub user_document : Option UserConfigDocument
  pub project_document : Option ProjectConfigDocument

module _ (outside : Outside) where
  -- _read_toml, which lets a UnicodeDecodeError pass
  unfoldable pub read_toml : String → Result JsonObject
  unfolding or_fail
  read_toml path = do
    raw ← (elim (outside.read_text path) [
      | contents text ↦ ok text
      | unreadable ↦ err (cannot_read path)
      | undecodable ↦ err (not_utf8 path)
    ])
    or_fail (invalid_toml path) (outside.toml_loads raw)

  -- _load_user_config
  unfoldable pub load_user_config : String → Result (Option UserConfigDocument)
  unfolding or_fail
  load_user_config path =
      if outside.exists path
      then (do
        raw ← read_toml path
        document ← or_fail (invalid_user path) (outside.validate_user raw)
        ok (some document))
      else ok none

  -- _load_project_config
  unfoldable pub load_project_config : String → Result (Option ProjectConfigDocument)
  unfolding or_fail
  load_project_config path =
      if outside.exists path
      then (do
        raw ← read_toml path
        document ← or_fail (invalid_project path) (outside.validate_project raw)
        ok (some document))
      else ok none

  unfoldable pub is_user : Option ValueOrigin → Bool
  is_user (some o) = elim o.source [ user ↦ true | _ ↦ false ]
  is_user none = false

  -- _resolved_state_root
  unfoldable pub resolved_state_root :
      ProfileAccumulator → (skill_root user_config_path : String) → String
  unfolding is_user
  resolved_state_root a skill_root user_config_path = elim a.state_dir [
    | none ↦ outside.resolve (outside.join skill_root ".gskill")
    | some dir ↦
        let candidate = outside.expand dir in
        if outside.is_absolute candidate
        then outside.resolve candidate
        else if is_user (get a.origins "state_dir")
        then outside.resolve (outside.join (outside.parent user_config_path) candidate)
        else outside.resolve (outside.join skill_root candidate)
  ]

  abbrev pub resolved_of :
      ProfileAccumulator → RuntimeProfile → String → String → ResolvedRuntimeProfile
  resolved_of a profile skill_root state_root = record {
    profile = profile;
    skill_root = skill_root;
    state_root = state_root;
    field_origins = map (λ entry. entry.1) (sort_by (λ entry. entry.0) a.origins);
  }

  -- ResolvedRuntimeProfile, with the check of its paths
  unfoldable pub resolved_profile :
      ProfileAccumulator → (skill_root state_root : String) → Result ResolvedRuntimeProfile
  resolved_profile a skill_root state_root = do
    profile ← runtime_profile a state_root
    if outside.is_absolute skill_root && outside.is_absolute state_root
        then ok (resolved_of a profile skill_root state_root)
        else err invalid_profile

  -- The preset of a run. to_preset refuses inputs that look like a secret; its check of the id holds,
  -- since the id of an invocation passed it.
  unfoldable pub select_preset :
      RunInvocation → Option ProjectConfigDocument → String → Option RunPreset → Result Selected
  select_preset i project_document project_path portable_defaults = elim i.preset_id [
    | some id ↦ elim (get (presets_of project_document) id) [
      | none ↦ err (unknown_preset id project_path)
      | some d ↦ elim (find_in_object outside.casefold d.inputs) [
        | some path ↦ err (invalid_preset id)
        | none ↦ ok (selected (preset_of id d) preset (some project_path))
      ]
    ]
    | none ↦ elim portable_defaults [
      | some p ↦ ok (selected p portable none)
      | none ↦ ok (selected default_preset default none)
    ]
  ]

  -- resolve, up to the two documents
  unfoldable pub open_documents : (user_config_path : String) → RunInvocation → Result Documents
  unfolding or_fail
  open_documents user_config_path i = do
    skill_root ← or_fail (no_such_root i.skill_root) (outside.resolve_strict i.skill_root)
    directory ←
        (if outside.is_dir skill_root then ok skill_root else err (not_a_directory skill_root))
    user_document ← load_user_config user_config_path
    project_document ← load_project_config (outside.join directory "gskill.toml")
    ok (record {
      skill_root = directory;
      user_document = user_document;
      project_document = project_document;
    })

  module _ (user_config_path : String) (i : RunInvocation)
      (portable_runtime : Option RuntimeProfileOverlay) (portable_defaults : Option RunPreset) where
    abbrev pub project_path : Documents → String
    project_path d = outside.join d.skill_root "gskill.toml"

    -- the profile of all layers
    abbrev pub accumulated : Documents → ProfileAccumulator
    accumulated d =
        apply_layers
          (layers portable_runtime user_config_path d.user_document (project_path d)
            d.project_document i)
          defaults

    -- resolve, from the two documents on
    unfoldable pub resolve_documents : Documents → Result (ResolvedRuntimeProfile × RunRequest)
    resolve_documents d = do
      profile ←
          resolved_profile (accumulated d) d.skill_root
            (resolved_state_root (accumulated d) d.skill_root user_config_path)
      chosen ← select_preset i d.project_document (project_path d) portable_defaults
      ok (profile, request_of outside.uuid4 i chosen profile)

    -- resolve
    unfoldable pub resolve : Result (ResolvedRuntimeProfile × RunRequest)
    resolve = do d ← open_documents user_config_path i; resolve_documents d
