-- ===== src/State/Fields.antt =====
-- What the updates of the business data do to each field, and that no framework key gets in.
use graph_skill_runtime.Common.{
  String, Bool, true, false, not, ◌&&◌, Option, none, some, List, [], ◌∷◌, ◌≡◌, refl, ap, arith,
  ◌==◌, eq_iff, eq_refl, if◌then◌else◌, is_some, is_empty, inl, inr, Bool-cases, same_of_eq,
}
use graph_skill_runtime.Common.Names.{has, has-keep}
use graph_skill_runtime.Json
use graph_skill_runtime.Json.{JsonObject, object, member, empty, get-put}
use graph_skill_runtime.State.{update_all, keep_keys, is_framework_key, bad_keys}

-- No key stands twice, as in a dict.
unfoldable pub is_dict : JsonObject → Bool
unfolding Json.get
is_dict empty = true
is_dict (member k v o) = not (is_some (Json.get o k)) && is_dict o

-- The second value where the first is missing.
abbrev pub over {ℓ} : {A : Type ℓ} → Option A → Option A → Option A
over none b = b
over (some a) b = some a

pub get-update_all :
    (p o : JsonObject) (k : String)
    → is_dict p ≡ true
    → Json.get (update_all o p) k ≡ over (Json.get p k) (Json.get o k)
unfolding update_all is_dict Json.get
get-update_all empty o k h = refl
get-update_all (member j v p) o k h =
    let later = get-update_all p (Json.put o j v) k (ground arith) in
    elim (Bool-cases (j == k)) [
      | inl e ↦ ground (arith, later, get-put o j k v, ap (Json.get p) (same_of_eq j k e))
      | inr e ↦ ground (arith, later, get-put o j k v)
    ]

pub get-pop :
    (o : JsonObject) (k j : String)
    → is_dict o ≡ true
    → Json.get (Json.pop o k) j ≡ (if k == j then none else Json.get o j)
unfolding is_dict Json.get Json.pop
get-pop empty k j h = ground arith
get-pop (member i v o) k j h = elim (Bool-cases (i == k)) [
  | inl e ↦
      ground (arith, eq_iff i j, eq_iff k j, ap (Json.get o) (same_of_eq i k e), same_of_eq i k e)
  | inr e ↦ ground (arith, eq_iff i j, eq_iff k j, eq_iff i k, get-pop o k j (ground arith))
]

pub is_dict-pop : (o : JsonObject) (k : String) → is_dict o ≡ true → is_dict (Json.pop o k) ≡ true
unfolding is_dict Json.pop
is_dict-pop empty k h = refl
is_dict-pop (member i v o) k h =
    ground (arith, is_dict-pop o k, get-pop o k i, eq_iff k i, eq_iff i k)

pub get-keep_keys :
    (p : String → Bool) (o : JsonObject) (k : String)
    → Json.get (keep_keys p o) k ≡ (if p k then Json.get o k else none)
unfolding keep_keys Json.get
get-keep_keys p empty k = ground arith
get-keep_keys p (member j v o) k = elim (Bool-cases (j == k)) [
  | inl e ↦ ground (arith, get-keep_keys p o k, ap p (same_of_eq j k e))
  | inr e ↦ ground (arith, get-keep_keys p o k)
]

is_dict-keep_keys :
    (p : String → Bool) (o : JsonObject) → is_dict o ≡ true → is_dict (keep_keys p o) ≡ true
unfolding is_dict keep_keys
is_dict-keep_keys p empty h = refl
is_dict-keep_keys p (member j v o) h = ground (arith, is_dict-keep_keys p o, get-keep_keys p o j)

has-Json_keys : (o : JsonObject) (k : String) → has k (Json.keys o) ≡ is_some (Json.get o k)
unfolding has Json.keys Json.get
has-Json_keys empty k = refl
has-Json_keys (member j v o) k = ground (arith, has-Json_keys o k)

pub empty_of_has : (xs : List String) → ((k : String) → has k xs ≡ false) → xs ≡ []
unfolding has
empty_of_has [] h = refl
empty_of_has (x ∷ xs) h = absurd (ground (arith, h x, eq_refl x))

pub has_bad :
    (o : JsonObject) (k : String)
    → has k (bad_keys o) ≡ (is_framework_key k && is_some (Json.get o k))
unfolding bad_keys
has_bad o k = ground (arith, has-keep is_framework_key k (Json.keys o), has-Json_keys o k)

-- A business object without bad keys has a value under no framework key.
no_value :
    (o : JsonObject) (k : String)
    → bad_keys o ≡ []
    → is_framework_key k ≡ true
    → is_some (Json.get o k) ≡ false
unfolding has
no_value o k h f = ground (arith, has_bad o k, ap (has k) h)

pub empty_of_is_empty {ℓ} : {A : Type ℓ} (xs : List A) → is_empty xs ≡ true → xs ≡ []
empty_of_is_empty [] h = refl
empty_of_is_empty (x ∷ xs) h = ground arith

-- What route_finish_task makes of the business data.
pub record IsRouted (before llm_output after : JsonObject) : Type 0 where
  pub fields :
      (k : String)
      → Json.get after k ≡ (
          if is_framework_key k
          then Json.get before k
          else over (Json.get llm_output k) (Json.get before k))
  pub clean : bad_keys after ≡ []

module _ (before llm_output : JsonObject) (d : is_dict llm_output ≡ true)
    (b : bad_keys before ≡ []) where
  abbrev pub business_fields : JsonObject
  business_fields = keep_keys (λ k. not (is_framework_key k)) llm_output

  routed_fields :
      (k : String)
      → Json.get (update_all before business_fields) k ≡ (
          if is_framework_key k
          then Json.get before k
          else over (Json.get llm_output k) (Json.get before k))
  routed_fields k = ground (
    arith,
    get-update_all business_fields before k
        (is_dict-keep_keys (λ k. not (is_framework_key k)) llm_output d),
    get-keep_keys (λ k. not (is_framework_key k)) llm_output k,
  )

  pub IsRouted-update : IsRouted before llm_output (update_all before business_fields)
  unfolding has
  IsRouted-update = record {
    fields = routed_fields;
    clean = empty_of_has (bad_keys (update_all before business_fields)) (λ k. ground (
      arith,
      has_bad (update_all before business_fields) k,
      routed_fields k,
      no_value before k b,
    ));
  }
