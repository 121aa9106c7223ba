-- ===== src/Installer/Tests.antt =====
-- Small documents and small operations, and the installer's theorems at them.
use graph_skill_runtime.Installer.Plan.{
  Codec, ok, FileProjection, JsonEntryProjection, plan_install_file, file_conflict,
}
use graph_skill_runtime.Installer.Ownership.{plan_install_file-IsOwned}
use graph_skill_runtime.Common.{
  eq_iff, String, Bool, true, false, [], ◌∷◌, Option, none, some, ◌≡◌, ◌≢◌, ◌⊎◌, refl, arith,
  length, if◌then◌else◌, ◌==◌, All,
}
use graph_skill_runtime.Json.{Json, JsonObject, null, text, object, empty, member, get, put, pop}
use graph_skill_runtime.Installer.JsonPath.{
  set_json, missing_json_parents, prune_created_json_parents, prune_sorted, prune_parent,
  sort_longest, insert_longest, remove_json, lookup_json,
}
use graph_skill_runtime.Installer.Disk.{
  Bytes, Node, file, Files, World, Disk, Error, content_node, read_bounded, write_or_remove,
  bounded, replaceable,
}
use graph_skill_runtime.Installer.Apply.{
  ManifestEntry, bytes_eq, PreparedTarget, Mutation, Touch, IntegrationTarget,
  IntegrationResourceKind, IntegrationAction, apply, aborted, applied, steps_of, run_steps,
  mutation_steps, manifest_steps, changed_of, touch_of, replace, assert_unchanged, confirm, restore,
  restore_one, restore_read, raised_by, conclude, rolled_back, some_touched,
}
use graph_skill_runtime.Installer.Rollback.{redo}
use graph_skill_runtime.Installer.Outcome.{comes_to, restore-keeps}
use graph_skill_runtime.Installer.Atomic.{apply_atomic, WritesReadable}

program : Unit {0}
unfolding get put pop set_json missing_json_parents prune_created_json_parents prune_sorted
    prune_parent sort_longest insert_longest remove_json lookup_json read_bounded write_or_remove
    bounded replaceable apply run_steps mutation_steps manifest_steps changed_of touch_of replace
    assert_unchanged confirm restore restore_one restore_read raised_by conclude rolled_back
    some_touched redo
program = tt

abbrev servers : JsonObject
servers = member "mcp" (object (member "other" (text "x") empty)) empty

abbrev nothing : JsonObject
nothing = member "mcp" null empty

null_there : get nothing "mcp" ≡ some null
unfolding program
null_there = refl

-- The null is gone: the result is not the document.
null_is_gone : pop nothing "mcp" ≡ empty
unfolding program
null_is_gone = refl

abbrev mutation : String → Option Bytes → Option Bytes → Mutation
mutation path before after = record {
  target = IntegrationTarget.claude;
  resource_id = path;
  resource_kind = IntegrationResourceKind.file;
  path = path;
  selector = [];
  action = IntegrationAction.create;
  content_sha256 = none;
  before = before;
  after = after;
  manifest_entry = none;
}

abbrev target : PreparedTarget
target = record {
  target = IntegrationTarget.claude;
  manifest_path = "m";
  manifest_before = none;
  manifest_after = some (7 ∷ []);
  mutations = mutation "a" none (some (1 ∷ [])) ∷ mutation "b" (some (2 ∷ [])) (some (3 ∷ [])) ∷ [];
}

abbrev files : Files
files p = if p == "b" then some (file (2 ∷ [])) else none

-- A directory stands where the second file was planned.
abbrev changed : Files
changed p = if p == "b" then some Node.irregular else none

abbrev calm : World
calm = record { interfere = λ n f. f; refuses = λ n. false }

abbrev at : Files → Disk
at f = record { files = f; calls = 0 }

stopped : (apply calm (target ∷ []) (at changed)).0 ≡ aborted (Error.not_regular "b")
unfolding program
stopped = refl

went : (apply calm (target ∷ []) (at files)).0 ≡ applied 2 true
unfolding program
went = refl

abbrev touched : Touch
touched = record { path = "a"; before = none; after = some (1 ∷ []) }

abbrev other_touch : Touch
other_touch = record { path = "b"; before = none; after = some (2 ∷ []) }

b_is_not_a : ◌≢◌ {A = String} "b" "a"
b_is_not_a = ground (arith, eq_iff "b" "a")

-- Another process empties every other path before each call.
abbrev elsewhere : World
elsewhere = record { interfere = λ n f p. if p == "a" then f p else none; refuses = λ n. false }

abbrev edited : Files
edited p = if p == "a" then some (file (9 ∷ [])) else files p

not_ours : ◌≢◌ {A = Option Node} (some (file (9 ∷ []))) (content_node (some (1 ∷ [])))
not_ours = ground arith

-- The rollback of a write to "b" and of one to "a", which somebody has edited since.
restore-keeps_example :
    ((restore elsewhere (other_touch ∷ touched ∷ []) (at edited)).1.files "a"
      ≡ some (file (9 ∷ [])))
    × (comes_to "a" (other_touch ∷ touched ∷ []) ≡ true
        → (restore elsewhere (other_touch ∷ touched ∷ []) (at edited)).0 ≢ [])
restore-keeps_example =
    restore-keeps elsewhere "a" (some (file (9 ∷ []))) (λ n f h. h) (other_touch ∷ touched ∷ [])
      (λ e. absurd (b_is_not_a e), (λ e. not_ours, tt)) (at edited) refl

sizes : All WritesReadable (steps_of (target ∷ []))
unfolding program
sizes = (refl, (refl, (refl, tt)))

apply_atomic_example :
    ((c : Bool) × ((apply calm (target ∷ []) (at files)).0
        ≡ applied (length (mutation_steps (target ∷ []))) c)
      × ((apply calm (target ∷ []) (at files)).1.files ≡ redo (steps_of (target ∷ [])) files))
    ⊎ ((e : Error) × ((apply calm (target ∷ []) (at files)).0 ≡ aborted e)
        × ((apply calm (target ∷ []) (at files)).1.files ≡ files))
apply_atomic_example = apply_atomic calm (target ∷ []) (at files) (λ n f. refl) (λ n. refl) sizes

-- A file of the bytes 1 is the document `servers`, of the bytes 2 that document with the entry, and of the
-- bytes 3 the document with the entry alone.
abbrev launcher : Json
launcher = object (member "command" (text "v") empty)

abbrev with_entry : JsonObject
with_entry =
    member "mcp" (object (member "other" (text "x") (member "gskill" launcher empty))) empty

abbrev alone : JsonObject
alone = member "mcp" (object (member "gskill" launcher empty)) empty

abbrev read_bytes : Bytes → Option Json
read_bytes b =
    if bytes_eq b (1 ∷ [])
    then some (object servers)
    else if bytes_eq b (2 ∷ [])
    then some (object with_entry)
    else if bytes_eq b (3 ∷ [])
    then some (object alone)
    else none

abbrev write_bytes : Json → Bytes
write_bytes (object (member k (object (member a (text t) empty)) rest)) = 1 ∷ []
write_bytes (object (member k (object (member a v (member b w rest))) more)) = 2 ∷ []
write_bytes (object (member k (object (member a (object o) empty)) rest)) = 3 ∷ []
write_bytes (object empty) = 4 ∷ []
write_bytes _ = 5 ∷ []

abbrev codec : Codec
codec = record {
  sha256 = λ b. if bytes_eq b (5 ∷ []) then "5" else "other";
  canonical_json = write_bytes;
  pretty_json = write_bytes;
  json_loads = read_bytes;
}

abbrev projection : JsonEntryProjection
projection = record {
  resource_id = "mcp";
  path = "/c.json";
  key = "mcp";
  keys = "gskill" ∷ [];
  value = launcher;
}

abbrev asset : FileProjection
asset = record { resource_id = "skill"; path = "/skill.md"; content = 5 ∷ [] }

abbrev owner : ManifestEntry
owner = record {
  resource_id = "skill";
  resource_kind = IntegrationResourceKind.file;
  path = "/skill.md";
  selector = [];
  content_sha256 = "other";
  container_created = false;
  created_json_parents = [];
}

abbrev replaced : Mutation
replaced = record {
  target = IntegrationTarget.claude;
  resource_id = "skill";
  resource_kind = IntegrationResourceKind.file;
  path = "/skill.md";
  selector = [];
  action = IntegrationAction.update;
  content_sha256 = some "5";
  before = some (7 ∷ []);
  after = some (5 ∷ []);
  manifest_entry = some (record owner { content_sha256 = "5" });
}

plans_update :
    plan_install_file codec IntegrationTarget.claude asset (some owner) (some (7 ∷ []))
    ≡ ok replaced
unfolding plan_install_file file_conflict
plans_update = refl

plan_install_file-IsOwned_example :
    (replaced.before ≡ some (7 ∷ []))
    × (replaced.after ≡ some asset.content)
    × ((◌≡◌ {A = Option Bytes} (some (7 ∷ [])) none)
        ⊎ ((entry : ManifestEntry) × (bytes : Bytes) × (some owner ≡ some entry)
            × (some (7 ∷ []) ≡ some bytes)
            × (codec.sha256 bytes ≡ entry.content_sha256)))
plan_install_file-IsOwned_example =
    plan_install_file-IsOwned codec IntegrationTarget.claude asset (some owner) (some (7 ∷ []))
      replaced plans_update

sets_alone : set_json empty "mcp" ("gskill" ∷ []) launcher ≡ some alone
unfolding program
sets_alone = refl
