-- ===== src/Installer/Plan.antt =====
-- integrations/installer.py: what an install or an uninstall is to do with one owned file, or with one
-- entry of a shared JSON document. What was read of the file is an argument, `none` where it does not
-- exist. hashlib and json are the record `Codec`; its json_loads is the one with the hook that
-- refuses duplicate keys, after the decoding of the bytes.
use graph_skill_runtime.Common.{
  String, Bool, true, false, not, ◌&&◌, List, [], ◌∷◌, map, Option, none, some, ◌==◌, if◌then◌else◌,
  is_some,
}
use graph_skill_runtime.Json.{Json, JsonObject, object, empty}
use graph_skill_runtime.Installer.Disk.{Bytes}
use graph_skill_runtime.Installer.JsonPath.{
  Prefix, lookup_json, set_json, remove_json, missing_json_parents, prune_created_json_parents,
}
use graph_skill_runtime.Installer.Apply.{
  IntegrationTarget, opencode, IntegrationAction, create, update, unchanged, remove,
  IntegrationResourceKind, json_entry, ManifestEntry, Mutation, content_eq,
}

pub record Codec : Type 0 where
  pub sha256 : Bytes → String
  pub canonical_json : Json → Bytes
  pub pretty_json : Json → Bytes
  pub json_loads : Bytes → Option Json

pub record FileProjection : Type 0 where
  pub resource_id : String
  pub path : String
  pub content : Bytes

-- The selector is `key` and the keys after it.
pub record JsonEntryProjection : Type 0 where
  pub resource_id : String
  pub path : String
  pub key : String
  pub keys : List String
  pub value : Json

-- The ValueErrors of planning, which become the plan's conflicts.
pub data PlanError : Type 0 where
  not_owned modified jsonc_exists invalid_json blocked_parent empty_selector : PlanError

pub data Planned (A : Type 0) : Type 0 where
  ok : A → Planned A
  err : PlanError → Planned A

-- _ManifestEntry keeps a prefix as a tuple; the loop over them skips an empty one.
abbrev pub to_tuple : Prefix → List String
to_tuple (k, ks) = k ∷ ks

abbrev pub prefixes : List (List String) → List Prefix
prefixes [] = []
prefixes ([] ∷ rest) = prefixes rest
prefixes ((k ∷ ks) ∷ rest) = (k, ks) ∷ prefixes rest

abbrev pub is_empty : JsonObject → Bool
is_empty empty = true
is_empty _ = false

abbrev pub changed_action : Bool → Bool → IntegrationAction
changed_action exists same = if exists then (if same then unchanged else update) else create

-- Only OpenCode reads a .jsonc beside the document.
abbrev pub is_shadowed : IntegrationTarget → Bool → Bool
is_shadowed opencode exists = exists
is_shadowed _ exists = false

module _ (codec : Codec) where
  -- _decode_json_document
  unfoldable pub decode_json_document : Option Bytes → Planned JsonObject
  decode_json_document none = ok empty
  decode_json_document (some content) = elim (codec.json_loads content) [
    | some (object o) ↦ ok o
    | _ ↦ err invalid_json
  ]

  abbrev pub is_hash : Bytes → String → Bool
  is_hash content hash = codec.sha256 content == hash

  -- What `_plan_install_file` checks, the first failure first.
  unfoldable pub file_conflict : Option ManifestEntry → Option Bytes → Option PlanError
  file_conflict owned none = none
  file_conflict none (some bytes) = some not_owned
  file_conflict (some entry) (some bytes) =
      if is_hash bytes entry.content_sha256 then none else some modified

  -- _plan_install_file
  unfoldable pub plan_install_file :
      IntegrationTarget → FileProjection → Option ManifestEntry → Option Bytes → Planned Mutation
  plan_install_file target resource owned before = elim (file_conflict owned before) [
    | some e ↦ err e
    | none ↦ ok (record {
      target = target;
      resource_id = resource.resource_id;
      resource_kind = IntegrationResourceKind.file;
      path = resource.path;
      selector = [];
      action = changed_action (is_some before) (content_eq before (some resource.content));
      content_sha256 = some (codec.sha256 resource.content);
      before = before;
      after = some resource.content;
      manifest_entry = some (record {
        resource_id = resource.resource_id;
        resource_kind = IntegrationResourceKind.file;
        path = resource.path;
        selector = [];
        content_sha256 = codec.sha256 resource.content;
        container_created = false;
        created_json_parents = [];
      });
    })
  ]

  -- The mutation of a shared document, and its entry in the manifest.
  abbrev pub entry_mutation :
      IntegrationTarget
      → JsonEntryProjection
      → Bool
      → List (List String)
      → IntegrationAction
      → Option Bytes
      → Option Bytes
      → Mutation
  entry_mutation target resource container_created parents action before after = record {
    target = target;
    resource_id = resource.resource_id;
    resource_kind = json_entry;
    path = resource.path;
    selector = resource.key ∷ resource.keys;
    action = action;
    content_sha256 = some (codec.sha256 (codec.canonical_json resource.value));
    before = before;
    after = after;
    manifest_entry = some (record {
      resource_id = resource.resource_id;
      resource_kind = json_entry;
      path = resource.path;
      selector = resource.key ∷ resource.keys;
      content_sha256 = codec.sha256 (codec.canonical_json resource.value);
      container_created = container_created;
      created_json_parents = parents;
    });
  }

  abbrev pub container_of : Option ManifestEntry → Option Bytes → Bool
  container_of (some entry) before = entry.container_created
  container_of none before = not (is_some before)

  unfoldable pub parents_of :
      Option ManifestEntry → JsonObject → JsonEntryProjection → Option (List (List String))
  parents_of (some entry) document resource = some entry.created_json_parents
  parents_of none document resource =
      elim (missing_json_parents document resource.key resource.keys) [
        | none ↦ none
        | some parents ↦ some (map to_tuple parents)
      ]

  -- What `_plan_install_json` does with the entry that it found: a conflict, nothing to change, or to set it.
  pub data Found : Type 0 where
    conflict : PlanError → Found
    same set : Found

  unfoldable pub found_entry : Option ManifestEntry → Option Json → String → Found
  found_entry owned none desired = set
  found_entry none (some current) desired = conflict not_owned
  found_entry (some entry) (some current) desired =
      if is_hash (codec.canonical_json current) entry.content_sha256
      then (if is_hash (codec.canonical_json current) desired then same else set)
      else conflict modified

  -- Setting the entry, from `_set_json` on.
  unfoldable pub set_entry :
      IntegrationTarget
      → JsonEntryProjection
      → Option ManifestEntry
      → Option Bytes
      → JsonObject
      → List (List String)
      → Planned Mutation
  set_entry target resource owned before document parents =
      elim (set_json document resource.key resource.keys resource.value) [
        | none ↦ err blocked_parent
        | some document' ↦
            let after = some (codec.pretty_json (object document')) in
            ok (
              entry_mutation target resource (container_of owned before) parents
                (changed_action (is_some (lookup_json document resource.key resource.keys))
                  (content_eq before after))
                before after)
      ]

  -- _plan_install_json; `shadowed` says that the .jsonc beside the document exists.
  unfoldable pub plan_install_json :
      IntegrationTarget
      → JsonEntryProjection
      → Option ManifestEntry
      → (shadowed : Bool) → Option Bytes
      → Planned Mutation
  unfolding set_entry
  plan_install_json target resource owned shadowed before =
      if is_shadowed target shadowed then err jsonc_exists else elim (decode_json_document before) [
        | err e ↦ err e
        | ok document ↦ elim (parents_of owned document resource) [
          | none ↦ err blocked_parent
          | some parents ↦
              elim (found_entry owned (lookup_json document resource.key resource.keys)
                (codec.sha256 (codec.canonical_json resource.value))) [
                  | conflict e ↦ err e
                  | same ↦ ok (
                      entry_mutation target resource (container_of owned before) parents unchanged
                        before before)
                  | set ↦ set_entry target resource owned before document parents
                ]
        ]
      ]

  -- _uninstall_file_state
  unfoldable pub uninstall_file_state :
      ManifestEntry → Option Bytes → Planned (IntegrationAction × Option Bytes)
  uninstall_file_state entry none = ok (unchanged, none)
  uninstall_file_state entry (some bytes) =
      if is_hash bytes entry.content_sha256 then ok (remove, none) else err modified

  -- The document without the entry: the file goes where the install made it and nothing is left.
  unfoldable pub without_entry : ManifestEntry → JsonObject → Option Bytes
  without_entry entry document =
      if entry.container_created && is_empty document
      then none
      else some (codec.pretty_json (object document))

  -- _uninstall_json_state. An entry without a selector fails at the hash or in `_remove_json`.
  unfoldable pub uninstall_json_state :
      ManifestEntry → Option Bytes → Planned (IntegrationAction × Option Bytes)
  unfolding without_entry
  uninstall_json_state entry none = ok (unchanged, none)
  uninstall_json_state entry (some bytes) = elim (decode_json_document (some bytes)) [
    | err e ↦ err e
    | ok document ↦ elim entry.selector [
      | [] ↦ err empty_selector
      | (key ∷ keys) ↦ elim (lookup_json document key keys) [
        | none ↦ ok (unchanged, some bytes)
        | some current ↦
            if is_hash (codec.canonical_json current) entry.content_sha256
            then ok (
              remove,
              without_entry entry (
                  prune_created_json_parents (remove_json document key keys)
                    (prefixes entry.created_json_parents)),
            )
            else err modified
      ]
    ]
  ]
