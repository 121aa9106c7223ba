-- ===== src/State/Flow.antt =====
-- merge_flow_channel of core/state.py, the reducer of the framework state: fields that are dicts by
-- phase are merged key by key. A FrameworkState is its model_dump; model_validate is a parameter.
use graph_skill_runtime.Common.{
  String, Bool, true, false, not, ◌&&◌, Option, none, some, List, [], ◌∷◌, ◌≡◌, refl, sym, ◌∙◌, ap,
  arith, ◌==◌, eq_iff, eq_refl, inl, inr, Bool-cases, same_of_eq,
}
use graph_skill_runtime.Common.Names.{has}
use graph_skill_runtime.Json
use graph_skill_runtime.Json.{JsonObject, object, member, empty, get-put}
use graph_skill_runtime.State.{update_all, as_object, Update, full, delta}
use graph_skill_runtime.State.Fields.{is_dict, over, get-update_all}

abbrev pub flow_dict_merge_fields : List String
flow_dict_merge_fields =
    "phase_execution_ids" ∷ "agent_result_hashes" ∷ "critic_metrics" ∷ "subagent_validation_retries"
    ∷ "working_memory" ∷ []

-- {**merged[key], **update[key]}, where both are dicts
unfoldable pub merge_dicts : Option Json.Json → Option Json.Json → String → JsonObject → JsonObject
unfolding update_all Json.put
merge_dicts (some (object new)) (some (object old)) key update =
    Json.put update key (object (update_all old new))
merge_dicts _ _ key update = update

unfoldable pub merge_fields : List String → JsonObject → JsonObject → JsonObject
unfolding merge_dicts Json.get
merge_fields [] merged update = update
merge_fields (key ∷ keys) merged update =
    merge_fields keys merged (merge_dicts (Json.get update key) (Json.get merged key) key update)

unfoldable pub merge_flow_channel :
    (JsonObject → Option JsonObject) → JsonObject → Update → Option JsonObject
unfolding merge_fields update_all
merge_flow_channel validate current (full replacement) = some replacement
merge_flow_channel validate current (delta update) =
    validate (update_all current (merge_fields flow_dict_merge_fields current update))

-- The entry of a phase in a field that is a dict.
unfoldable pub flow_entry : JsonObject → String → String → Option Json.Json
unfolding as_object Json.get
flow_entry o f p = Json.get (as_object (Json.get o f)) p

-- An update leaves the field out, or gives a dict for it.
pub data IsMergeable (update : JsonObject) (f : String) : Type 0 where
  left_out : Json.get update f ≡ none → IsMergeable update f
  given :
      (d : JsonObject)
      → Json.get update f ≡ some (object d)
      → is_dict d ≡ true
      → IsMergeable update f

unfoldable distinct : List String → Bool
unfolding has
distinct [] = true
distinct (x ∷ xs) = not (has x xs) && distinct xs

is_dict-put :
    (o : JsonObject) (k : String) (v : Json.Json)
    → is_dict o ≡ true
    → is_dict (Json.put o k v) ≡ true
unfolding is_dict Json.put Json.get
is_dict-put empty k v h = refl
is_dict-put (member j w o) k v h =
    ground (arith, is_dict-put o k v, get-put o k j v, eq_iff k j, eq_iff j k)

is_dict-merge_dicts :
    (a b : Option Json.Json) (k : String) (u : JsonObject)
    → is_dict u ≡ true
    → is_dict (merge_dicts a b k u) ≡ true
unfolding merge_dicts
is_dict-merge_dicts (some (object new)) (some (object old)) k u h =
    is_dict-put u k (object (update_all old new)) h
is_dict-merge_dicts _ _ k u h = h

get-merge_dicts :
    (a b : Option Json.Json) (k f : String) (u : JsonObject)
    → (k == f) ≡ false
    → Json.get (merge_dicts a b k u) f ≡ Json.get u f
unfolding merge_dicts
get-merge_dicts (some (object new)) (some (object old)) k f u h =
    ground (arith, get-put u k f (object (update_all old new)))
get-merge_dicts _ _ k f u h = refl

is_dict-merge_fields :
    (keys : List String) (m u : JsonObject)
    → is_dict u ≡ true
    → is_dict (merge_fields keys m u) ≡ true
unfolding merge_fields
is_dict-merge_fields [] m u h = h
is_dict-merge_fields (k ∷ keys) m u h =
    is_dict-merge_fields keys m _ (is_dict-merge_dicts (Json.get u k) (Json.get m k) k u h)

get-merge_fields_other :
    (keys : List String) (m u : JsonObject) (f : String)
    → has f keys ≡ false
    → Json.get (merge_fields keys m u) f ≡ Json.get u f
unfolding merge_fields has
get-merge_fields_other [] m u f h = refl
get-merge_fields_other (k ∷ keys) m u f h =
    get-merge_fields_other keys m (merge_dicts (Json.get u k) (Json.get m k) k u) f (ground arith)
    ∙ get-merge_dicts (Json.get u k) (Json.get m k) k f u (ground arith)

-- The value under the key that was merged.
abbrev merged_value : Option Json.Json → Option Json.Json → Option Json.Json
merged_value (some (object new)) (some (object old)) = some (object (update_all old new))
merged_value a _ = a

get-merge_dicts_same :
    (a b : Option Json.Json) (f : String) (u : JsonObject)
    → Json.get u f ≡ a
    → Json.get (merge_dicts a b f u) f ≡ merged_value a b
unfolding merge_dicts
get-merge_dicts_same (some (object new)) (some (object old)) f u h =
    get-put u f f (object (update_all old new)) ∙ ground (arith, eq_refl f)
get-merge_dicts_same _ _ f u h = h

-- A field of the list is merged once.
get-merge_fields :
    (keys : List String) (m u : JsonObject) (f : String)
    → distinct keys ≡ true
    → has f keys ≡ true
    → Json.get (merge_fields keys m u) f ≡ merged_value (Json.get u f) (Json.get m f)
unfolding merge_fields has distinct
get-merge_fields [] m u f d h = absurd (ground arith)
get-merge_fields (k ∷ keys) m u f d h =
    let next = merge_dicts (Json.get u k) (Json.get m k) k u in
    elim (Bool-cases (k == f)) [
      | inl e ↦
          let same = same_of_eq k f e in
          let out : has f keys ≡ false = ap (λ x. has x keys) (sym same) ∙ ground arith in
          get-merge_fields_other keys m next f out
          ∙ ap (λ x. Json.get (merge_dicts (Json.get u x) (Json.get m x) x u) f) same
          ∙ get-merge_dicts_same (Json.get u f) (Json.get m f) f u refl
      | inr e ↦
          get-merge_fields keys m next f (ground arith) (ground arith)
          ∙ ap (λ o. merged_value o (Json.get m f))
              (get-merge_dicts (Json.get u k) (Json.get m k) k f u e)
    ]

fields_distinct : distinct flow_dict_merge_fields ≡ true
unfolding distinct has
fields_distinct = refl

abbrev pub converted : (Json.Json → Json.Json) → Option Json.Json → Option Json.Json
converted f none = none
converted f (some v) = some (f v)

-- Validation goes through a field that is a dict entry by entry: it keeps the keys and converts each
-- entry's value as the field's type says, "3" to 3 where that is int.
abbrev pub ByEntry : (String → Json.Json → Json.Json) → (JsonObject → Option JsonObject) → Type 0
ByEntry convert validate =
    (o valid d : JsonObject) (f : String)
    → validate o ≡ some valid
    → Json.get o f ≡ some (object d)
    → (d' : JsonObject) × (Json.get valid f ≡ some (object d'))
      × ((p : String) → Json.get d' p ≡ converted (convert f) (Json.get d p))

-- Where validation converts the entries of a dict one by one, the update is a dict and a field merged by
-- phase holds a dict, which the update leaves out or gives as a dict, an accepted update gives each
-- phase's entry in the field where it has one, and every other entry comes from the current state, each
-- converted to the field's type.
pub merge_flow_channel_lem :
    (convert : String → Json.Json → Json.Json) (validate : JsonObject → Option JsonObject)
    → ByEntry convert validate
    → (current update next m : JsonObject) (f p : String) → has f flow_dict_merge_fields ≡ true
    → Json.get current f ≡ some (object m)
    → is_dict update ≡ true
    → IsMergeable update f
    → merge_flow_channel validate current (delta update) ≡ some next
    → flow_entry next f p
      ≡ converted (convert f) (over (flow_entry update f p) (flow_entry current f p))
unfolding merge_flow_channel flow_entry as_object Json.get
merge_flow_channel_lem convert validate keeps current update next m f p h c d u q =
    let fields = merge_fields flow_dict_merge_fields current update in
    let all = update_all current fields in
    let merged = get-merge_fields flow_dict_merge_fields current update f fields_distinct h in
    let written =
      get-update_all fields current f
        (is_dict-merge_fields flow_dict_merge_fields current update d) in
    elim u [
      | IsMergeable.left_out e ↦
          let kept : Json.get all f ≡ some (object m) =
            written
            ∙ ap (λ o. over o (Json.get current f))
                (merged ∙ ap (λ o. merged_value o (Json.get current f)) e)
            ∙ c in
          let (d', found, entry) = keeps all next m f q kept in
          ap (λ o. Json.get (as_object o) p) found
          ∙ entry p
          ∙ ap (converted (convert f)) (
              sym (
                ap
                  (λ o.
                    over (Json.get (as_object o) p) (Json.get (as_object (Json.get current f)) p))
                  e
                ∙ ap (λ o. Json.get (as_object o) p) c))
      | IsMergeable.given new e keyed ↦
          let both = object (update_all m new) in
          let value : Json.get fields f ≡ some both =
            merged
            ∙ ap (λ o. merged_value o (Json.get current f)) e
            ∙ ap (merged_value (some (object new))) c in
          let kept : Json.get all f ≡ some both =
            written ∙ ap (λ o. over o (Json.get current f)) value in
          let (d', found, entry) = keeps all next (update_all m new) f q kept in
          ap (λ o. Json.get (as_object o) p) found
          ∙ entry p
          ∙ ap (converted (convert f)) (
              get-update_all new m p keyed
              ∙ sym (
                  ap
                    (λ o.
                      over (Json.get (as_object o) p) (Json.get (as_object (Json.get current f)) p))
                    e
                  ∙ ap (λ o. over (Json.get new p) (Json.get (as_object o) p)) c))
    ]
