-- ===== src/Installer/JsonPath.antt =====
-- integrations/installer.py: one entry of a shared JSON document, by the keys that lead to it. The
-- functions that change a dict in place return the new one. A selector is its first key and the rest:
-- an empty one is refused by `_set_json` and `_remove_json`, and no renderer makes one.
-- `document.get(key)` is None for a missing key and for a JSON null alike.
pub mod Restore
use graph_skill_runtime.Common.{
  ℕ, String, Bool, true, false, List, [], ◌∷◌, map, Option, none, some, length, leb, if◌then◌else◌,
}
use graph_skill_runtime.Json.{Json, JsonObject, null, object, empty, member, get, put, pop}

-- What stands at a parent key: nothing (or null), an object, or something that is no object.
pub data Child : Type 0 where
  missing blocked : Child
  nested : JsonObject → Child

abbrev pub child_of : Option Json → Child
child_of none = missing
child_of (some null) = missing
child_of (some (object o)) = nested o
child_of (some _) = blocked

-- _lookup_json: `none` where the entry does not exist
unfoldable pub lookup_json : JsonObject → String → List String → Option Json
lookup_json document key [] = get document key
lookup_json document key (k ∷ ks) = elim (get document key) [
  | some (object o) ↦ lookup_json o k ks
  | _ ↦ none
]

-- _set_json: `none` where a parent is not an object
unfoldable pub set_json : JsonObject → String → List String → Json → Option JsonObject
set_json document key [] value = some (put document key value)
set_json document key (k ∷ ks) value = elim (child_of (get document key)) [
  | missing ↦ elim (set_json empty k ks value) [
    | none ↦ none
    | some o ↦ some (put document key (object o))
  ]
  | blocked ↦ none
  | nested c ↦ elim (set_json c k ks value) [
    | none ↦ none
    | some o ↦ some (put document key (object o))
  ]
]

-- _remove_json
unfoldable pub remove_json : JsonObject → String → List String → JsonObject
remove_json document key [] = pop document key
remove_json document key (k ∷ ks) = elim (get document key) [
  | some (object o) ↦ put document key (object (remove_json o k ks))
  | _ ↦ document
]

abbrev pub Prefix : Type 0
Prefix = String × List String

abbrev pub under : String → Prefix → Prefix
under key (k, ks) = (key, k ∷ ks)

-- _missing_json_parents: the prefixes of the selector at which an object has to be made
unfoldable pub missing_json_parents : JsonObject → String → List String → Option (List Prefix)
missing_json_parents document key [] = some []
missing_json_parents document key (k ∷ ks) = elim (child_of (get document key)) [
  | missing ↦ elim (missing_json_parents empty k ks) [
    | none ↦ none
    | some rest ↦ some ((key, []) ∷ map (under key) rest)
  ]
  | blocked ↦ none
  | nested c ↦ elim (missing_json_parents c k ks) [
    | none ↦ none
    | some rest ↦ some (map (under key) rest)
  ]
]

-- sorted(parents, key=len, reverse=True), which keeps the order of equal lengths
unfoldable pub insert_longest : Prefix → List Prefix → List Prefix
insert_longest x [] = x ∷ []
insert_longest (k, ks) ((j, js) ∷ ys) =
    if leb (length js) (length ks)
    then (k, ks) ∷ (j, js) ∷ ys
    else (j, js) ∷ insert_longest (k, ks) ys

unfoldable pub sort_longest : List Prefix → List Prefix
unfolding insert_longest
sort_longest [] = []
sort_longest (x ∷ xs) = insert_longest x (sort_longest xs)

abbrev pub is_empty_object : Option Json → Bool
is_empty_object (some (object empty)) = true
is_empty_object _ = false

-- One round of _prune_created_json_parents.
unfoldable pub prune_parent : JsonObject → String → List String → JsonObject
prune_parent document key [] =
    if is_empty_object (get document key) then pop document key else document
prune_parent document key (k ∷ ks) = elim (get document key) [
  | some (object o) ↦ put document key (object (prune_parent o k ks))
  | _ ↦ document
]

unfoldable pub prune_sorted : JsonObject → List Prefix → JsonObject
unfolding prune_parent
prune_sorted document [] = document
prune_sorted document ((k, ks) ∷ rest) = prune_sorted (prune_parent document k ks) rest

-- _prune_created_json_parents
unfoldable pub prune_created_json_parents : JsonObject → List Prefix → JsonObject
unfolding prune_sorted sort_longest
prune_created_json_parents document created = prune_sorted document (sort_longest created)
