-- ===== src/HostNative/Resources.antt =====
-- _resources and _allowed_paths of adapters/host_native.py: the files that a task names.
use graph_skill_runtime.Common.{String, List, [], ◌∷◌, ◌++◌, map, if◌then◌else◌}
use graph_skill_runtime.Common.Names.{add_all}
use graph_skill_runtime.Common.Outcome.{Outcome, done, raised, each, ◌>>=◌}
use graph_skill_runtime.Manifest.{AgentNodeAst, ReferenceSpec, ExampleSpec}
use graph_skill_runtime.Domain.Profile.{skill_and_state, declared_only}
use graph_skill_runtime.Domain.Run.{RunRequest}
use graph_skill_runtime.Domain.Agent.{AgentResource, ResourceKind}
use graph_skill_runtime.HostNative.Platform.{Platform, TaskError, resource_escapes}

module _ (host : Platform) where
  -- Path(p).resolve(strict=False) of the skill root, and of what is declared below it.
  unfoldable pub declared_resource_path : String → String → Outcome TaskError String
  declared_resource_path skill_root relative =
      let candidate = host.resolve (host.join_path skill_root relative) in
      if host.is_relative_to candidate skill_root
      then done candidate
      else raised (resource_escapes relative)

  unfoldable pub resource :
      String → ResourceKind → String → String → String → Outcome TaskError AgentResource
  unfolding declared_resource_path
  resource skill_root kind id relative summary = do
    path ← declared_resource_path skill_root relative
    done (record { kind = kind; resource_id = id; path = path; summary = summary })

  abbrev pub reference_of : String → ReferenceSpec → Outcome TaskError AgentResource
  reference_of skill_root item =
      resource skill_root ResourceKind.reference item.id item.path item.summary

  abbrev pub example_of : String → ExampleSpec → Outcome TaskError AgentResource
  example_of skill_root item =
      resource skill_root ResourceKind.example item.id item.path item.summary

  unfoldable pub resources : RunRequest → AgentNodeAst → Outcome TaskError (List AgentResource)
  resources request node = do
    let skill_root = host.resolve request.profile.skill_root
    references ← each (reference_of skill_root) node.references
    examples ← each (example_of skill_root) node.examples
    done (references ++ examples)

  abbrev pub declared_paths : AgentNodeAst → List String
  declared_paths node =
      map (λ (item : ReferenceSpec). item.path) node.references
      ++ map (λ (item : ExampleSpec). item.path) node.examples

  unfoldable pub allowed_paths : RunRequest → AgentNodeAst → Outcome TaskError (List String)
  unfolding declared_resource_path
  allowed_paths request node =
      let skill_root = host.resolve request.profile.skill_root in
      elim request.profile.profile.permissions.filesystem [
        | skill_and_state ↦ done (skill_root ∷ host.resolve request.profile.state_root ∷ [])
        | declared_only ↦ do
          result ← each (declared_resource_path skill_root) (declared_paths node)
          done (add_all result [])
      ]
