-- ===== src/Domain/Secrets/Clean.antt =====
-- What a document that is not refused holds, and where a refused one has its secret.
use graph_skill_runtime.Common.{
  ℕ, suc, String, true, false, List, none, some, ◌≡◌, inl, inr, arith, Bool-cases, Option-cases,
}
use graph_skill_runtime.Json.{
  Json, JsonItems, JsonObject, null, boolean, number, text, array, object, nil, item, empty, member,
}
use graph_skill_runtime.Domain.Secrets.{
  is_secret_key, find_secret, find_in_items, find_in_object, Part,
}

-- A key stands somewhere in a document, at any depth.
mutual
  pub data Holds : String → Json → Type 0 where
    in_array : {k : String} {items : JsonItems} → HoldsItem k items → Holds k (array items)
    in_object : {k : String} {o : JsonObject} → HoldsMember k o → Holds k (object o)

  pub data HoldsItem : String → JsonItems → Type 0 where
    this_item : {k : String} {v : Json} {rest : JsonItems} → Holds k v → HoldsItem k (item v rest)
    later_item :
        {k : String} {v : Json} {rest : JsonItems} → HoldsItem k rest → HoldsItem k (item v rest)

  pub data HoldsMember : String → JsonObject → Type 0 where
    this_key : {k : String} {v : Json} {rest : JsonObject} → HoldsMember k (member k v rest)
    below_key :
        {k j : String} {v : Json} {rest : JsonObject} → Holds k v → HoldsMember k (member j v rest)
    later_key :
        {k j : String} {v : Json} {rest : JsonObject}
        → HoldsMember k rest
        → HoldsMember k (member j v rest)

module _ (casefold : String → String) where
  mutual
    unfolding find_secret find_in_items find_in_object

    find_secret-none :
        (v : Json) (k : String)
        → find_secret casefold v ≡ none
        → Holds k v
        → is_secret_key casefold k ≡ false
    find_secret-none null k h at = elim at [ ]
    find_secret-none (boolean b) k h at = elim at [ ]
    find_secret-none (number n) k h at = elim at [ ]
    find_secret-none (text t) k h at = elim at [ ]
    find_secret-none (array items) k h (in_array at) = items-none items 0 k h at
    find_secret-none (object o) k h (in_object at) = members-none o k h at

    items-none :
        (items : JsonItems) (i : ℕ) (k : String)
        → find_in_items casefold i items ≡ none
        → HoldsItem k items
        → is_secret_key casefold k ≡ false
    items-none nil i k h at = elim at [ ]
    items-none (item v rest) i k h (this_item at) = find_secret-none v k (ground (arith, h)) at
    items-none (item v rest) i k h (later_item at) = elim (Option-cases (find_secret casefold v)) [
      | inl n ↦ items-none rest (suc i) k (ground (arith, h, n)) at
      | inr (q, e) ↦ absurd (ground (arith, h, e))
    ]

    members-none :
        (o : JsonObject) (k : String)
        → find_in_object casefold o ≡ none
        → HoldsMember k o
        → is_secret_key casefold k ≡ false
    members-none empty k h at = elim at [ ]
    members-none (member j v rest) k h this_key = ground (arith, h)
    members-none (member j v rest) k h (below_key at) = find_secret-none v k (ground (arith, h)) at
    members-none (member j v rest) k h (later_key at) = members-none rest k (ground (arith, h)) at

  mutual
    unfolding find_secret find_in_items find_in_object

    find_secret-some :
        (v : Json) (path : List Part)
        → find_secret casefold v ≡ some path
        → (k : String) × Holds k v × (is_secret_key casefold k ≡ true)
    find_secret-some null path h = absurd (ground (arith, h))
    find_secret-some (boolean b) path h = absurd (ground (arith, h))
    find_secret-some (number n) path h = absurd (ground (arith, h))
    find_secret-some (text t) path h = absurd (ground (arith, h))
    find_secret-some (array items) path h =
        let (k, at, secret) = items-some items 0 path h in (k, in_array at, secret)
    find_secret-some (object o) path h =
        let (k, at, secret) = members-some o path h in (k, in_object at, secret)

    items-some :
        (items : JsonItems) (i : ℕ) (path : List Part)
        → find_in_items casefold i items ≡ some path
        → (k : String) × HoldsItem k items × (is_secret_key casefold k ≡ true)
    items-some nil i path h = absurd (ground (arith, h))
    items-some (item v rest) i path h = elim (Option-cases (find_secret casefold v)) [
      | inl n ↦
          let (k, at, secret) = items-some rest (suc i) path (ground (arith, h, n)) in
          (k, later_item at, secret)
      | inr (q, e) ↦ let (k, at, secret) = find_secret-some v q e in (k, this_item at, secret)
    ]

    members-some :
        (o : JsonObject) (path : List Part)
        → find_in_object casefold o ≡ some path
        → (k : String) × HoldsMember k o × (is_secret_key casefold k ≡ true)
    members-some empty path h = absurd (ground (arith, h))
    members-some (member j v rest) path h = elim (Bool-cases (is_secret_key casefold j)) [
      | inl secret ↦ (j, this_key, secret)
      | inr plain ↦ elim (Option-cases (find_secret casefold v)) [
        | inl n ↦
            let (k, at, secret) = members-some rest path (ground (arith, h, plain, n)) in
            (k, later_key at, secret)
        | inr (q, e) ↦ let (k, at, secret) = find_secret-some v q e in (k, below_key at, secret)
      ]
    ]

-- A document is accepted exactly where no key in it, at any depth, looks like a secret: an accepted one
-- holds no such key, and a refused one holds one.
pub find_secret_lem :
    (casefold : String → String) (v : Json)
    → (find_secret casefold v ≡ none → (k : String) → Holds k v → is_secret_key casefold k ≡ false)
      × ((path : List Part)
          → find_secret casefold v ≡ some path
          → (k : String) × Holds k v × (is_secret_key casefold k ≡ true))
find_secret_lem casefold v =
    (λ h k at. find_secret-none casefold v k h at, λ path h. find_secret-some casefold v path h)
