-- ===== src/Domain/Secrets.antt =====
-- domain/models.py: which keys look like secrets, and the refusal of documents that hold one. The
-- module takes str.casefold from outside.
pub mod Clean
use graph_skill_runtime.Common.{
  ℕ, suc, ◌+◌, String, Bool, true, false, ◌&&◌, ◌||◌, List, [], ◌∷◌, ◌++◌, Option, none, some, ◌≡◌,
  ◌↔◌, refl, arith, leb, nat_eq, if◌then◌else◌, Bool-cases, inl, inr, Option-cases,
}
use mathlib.Core.List.{reverse}
use graph_skill_runtime.Common.Text.{codes, codes_eq, ends_with}
use graph_skill_runtime.Json.{
  Json, JsonItems, JsonObject, null, boolean, number, text, array, object, nil, item, empty, member,
}

-- [a-z0-9]
abbrev pub is_word : ℕ → Bool
is_word c = (leb 48 c && leb c 57) || (leb 97 c && leb c 122)

-- re.sub(r"[^a-z0-9]+", "_", s); `gap` says that the run before has given its underscore.
unfoldable pub collapse : (gap : Bool) → List ℕ → List ℕ
collapse gap [] = []
collapse gap (c ∷ s) = elim (is_word c) [
  | true ↦ c ∷ collapse false s
  | false ↦ elim gap [ true ↦ collapse true s | false ↦ 95 ∷ collapse true s ]
]

unfoldable pub drop_underscores : List ℕ → List ℕ
drop_underscores [] = []
drop_underscores (c ∷ s) = let rest = drop_underscores s in if nat_eq c 95 then rest else c ∷ s

-- _SECRET_KEY_PARTS
abbrev pub secret_key_parts : List String
secret_key_parts =
    "api_key" ∷ "access_token" ∷ "credential" ∷ "credentials" ∷ "password" ∷ "private_key"
    ∷ "refresh_token" ∷ "secret" ∷ "token" ∷ []

-- The name is one of the parts, or ends with an underscore and one.
unfoldable pub names_secret : List ℕ → List String → Bool
names_secret name [] = false
names_secret name (part ∷ parts) =
    codes_eq name (codes part) || ends_with name (95 ∷ codes part) || names_secret name parts

pub data Part : Type 0 where
  at_key : String → Part
  at_index : ℕ → Part

abbrev pub below : Part → Option (List Part) → Option (List Part)
below p none = none
below p (some ps) = some (p ∷ ps)

module _ (casefold : String → String) where
  -- _normalized_key
  unfoldable pub normalized_key : String → List ℕ
  unfolding collapse drop_underscores
  normalized_key key =
      reverse
        (drop_underscores (reverse (drop_underscores (collapse false (codes (casefold key))))))

  unfoldable pub is_secret_key : String → Bool
  unfolding normalized_key names_secret
  is_secret_key key = names_secret (normalized_key key) secret_key_parts

  -- _assert_no_inline_secrets: the path of the first key it refuses
  unfoldable mutual
    pub find_secret : Json → Option (List Part)
    find_secret (array items) = find_in_items 0 items
    find_secret (object o) = find_in_object o
    find_secret _ = none

    pub find_in_items : ℕ → JsonItems → Option (List Part)
    find_in_items index nil = none
    find_in_items index (item v rest) = elim (find_secret v) [
      | some path ↦ some (at_index index ∷ path)
      | none ↦ find_in_items (suc index) rest
    ]

    pub find_in_object : JsonObject → Option (List Part)
    find_in_object empty = none
    find_in_object (member key v rest) = elim (is_secret_key key) [
      | true ↦ some (at_key key ∷ [])
      | false ↦ elim (find_secret v) [
        | some path ↦ some (at_key key ∷ path)
        | none ↦ find_in_object rest
      ]
    ]
