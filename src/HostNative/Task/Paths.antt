-- ===== src/HostNative/Task/Paths.antt =====
-- Which files a task names to its host.
use graph_skill_runtime.Common.{String, true, List, [], ◌++◌, map, ◌≡◌, arith, inl, inr, All}
use mathlib.Core.Path.{subst}
use mathlib.Core.List.{map-append}
use graph_skill_runtime.Common.Names.{add_all}
use graph_skill_runtime.Common.Outcome.{done, Outcome-cases, each, each-All, each-append, each-map}
use graph_skill_runtime.Manifest.{AgentNodeAst, ReferenceSpec, ExampleSpec}
use graph_skill_runtime.Domain.Profile.{declared_only}
use graph_skill_runtime.Domain.Run.{RunRequest}
use graph_skill_runtime.Domain.Agent.{AgentResource, ResourceKind}
use graph_skill_runtime.HostNative.Platform.{Platform}
use graph_skill_runtime.HostNative.Resources.{
  declared_resource_path, resource, reference_of, example_of, resources, declared_paths,
  allowed_paths,
}

module _ (host : Platform) where
  abbrev pub root_of : RunRequest → String
  root_of request = host.resolve request.profile.skill_root

  abbrev pub IsUnder : String → String → Type 0
  IsUnder root path = host.is_relative_to path root ≡ true

  declared_resource_path-IsUnder :
      (root relative path : String)
      → declared_resource_path host root relative ≡ done path
      → IsUnder root path
  unfolding declared_resource_path
  declared_resource_path-IsUnder root relative path e = ground arith

  resource-path :
      (root : String) (kind : ResourceKind) (id relative summary : String) (r : AgentResource)
      → resource host root kind id relative summary ≡ done r
      → declared_resource_path host root relative ≡ done r.path
  unfolding resource
  resource-path root kind id relative summary r e =
      elim (Outcome-cases (declared_resource_path host root relative)) [
        | inr (_, q) ↦ absurd (ground arith)
        | inl (path, q) ↦ ground arith
      ]

  abbrev pub paths_of : List AgentResource → List String
  paths_of = map (λ (r : AgentResource). r.path)

  -- The resources' paths are those of the declared names, in their order.
  resources-paths :
      (request : RunRequest) (node : AgentNodeAst) (rs : List AgentResource)
      → resources host request node ≡ done rs
      → each (declared_resource_path host (root_of request)) (declared_paths host node)
        ≡ done (paths_of rs)
  unfolding resources
  resources-paths request node rs e =
      let root = root_of request in
      elim (Outcome-cases (each (reference_of host root) node.references)) [
        | inr (_, q) ↦ absurd (ground arith)
        | inl (a, q) ↦ elim (Outcome-cases (each (example_of host root) node.examples)) [
          | inr (_, r) ↦ absurd (ground arith)
          | inl (b, r) ↦
              let same : a ++ b ≡ rs = ground arith in
              let first : each (declared_resource_path host root)
                    (map (λ (item : ReferenceSpec). item.path) node.references)
                  ≡ done (paths_of a) =
                each-map (reference_of host root) (declared_resource_path host root)
                  (λ (item : ReferenceSpec). item.path) (λ (r : AgentResource). r.path)
                  (λ item r.
                    resource-path root ResourceKind.reference item.id item.path item.summary r)
                  node.references a q in
              let second : each (declared_resource_path host root)
                    (map (λ (item : ExampleSpec). item.path) node.examples)
                  ≡ done (paths_of b) =
                each-map (example_of host root) (declared_resource_path host root)
                  (λ (item : ExampleSpec). item.path) (λ (r : AgentResource). r.path)
                  (λ item r.
                    resource-path root ResourceKind.example item.id item.path item.summary r)
                  node.examples b r in
              subst
                (λ (l : List AgentResource).
                  each (declared_resource_path host root) (declared_paths host node)
                  ≡ done (paths_of l))
                same
                (rw map-append (
                  each-append (declared_resource_path host root) _ _ (paths_of a) (paths_of b) first
                    second))
        ]
      ]

  -- Every declared resource lies under the skill root.
  pub resources-IsUnder :
      (request : RunRequest) (node : AgentNodeAst) (rs : List AgentResource)
      → resources host request node ≡ done rs
      → All (IsUnder (root_of request)) (paths_of rs)
  resources-IsUnder request node rs e =
      each-All (declared_resource_path host (root_of request)) (IsUnder (root_of request))
        (declared_resource_path-IsUnder (root_of request)) (declared_paths host node) (paths_of rs)
        (resources-paths request node rs e)

  -- Where the profile lets a host touch declared files only, the allowed paths are those of the
  -- resources, without repetition.
  pub allowed-resources :
      (request : RunRequest) (node : AgentNodeAst) (rs : List AgentResource) (paths : List String)
      → request.profile.profile.permissions.filesystem ≡ declared_only
      → resources host request node ≡ done rs
      → allowed_paths host request node ≡ done paths
      → paths ≡ add_all (paths_of rs) []
  unfolding allowed_paths
  allowed-resources request node rs paths only e q =
      ground (arith, resources-paths request node rs e)
