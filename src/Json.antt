-- ===== src/Json.antt =====
-- JSON documents, as json.loads gives them: an object is its members in insertion order. A number is
-- kept by its text, since no code modelled here computes with one.
use graph_skill_runtime.Common.{
  String, Bool, Option, none, some, List, [], ◌∷◌, ◌==◌, ◌≡◌, refl, arith, eq_iff, if◌then◌else◌,
}

mutual
  pub data Json : Type 0 where
    null : Json
    boolean : Bool → Json
    number : String → Json
    text : String → Json
    array : JsonItems → Json
    object : JsonObject → Json

  pub data JsonItems : Type 0 where
    nil : JsonItems
    item : Json → JsonItems → JsonItems

  pub data JsonObject : Type 0 where
    empty : JsonObject
    member : String → Json → JsonObject → JsonObject

-- o.get(key): `none` where the key is missing
unfoldable pub get : JsonObject → String → Option Json
get empty k = none
get (member j v o) k = if j == k then some v else get o k

-- o[key] = value: a known key keeps its place, a new one comes last
unfoldable pub put : JsonObject → String → Json → JsonObject
put empty k v = member k v empty
put (member j w o) k v = if j == k then member j v o else member j w (put o k v)

-- o.pop(key, None)
unfoldable pub pop : JsonObject → String → JsonObject
pop empty k = empty
pop (member j w o) k = if j == k then o else member j w (pop o k)

unfoldable pub keys : JsonObject → List String
keys empty = []
keys (member j v o) = j ∷ keys o

pub get-put :
    (o : JsonObject) (k j : String) (v : Json)
    → get (put o k v) j ≡ (if k == j then some v else get o j)
unfolding get put
get-put empty k j v = refl
get-put (member i w o) k j v = ground (arith, eq_iff k j, eq_iff i k, eq_iff i j, get-put o k j v)

-- Taking out a key that was not there before it was put gives the object back, in its order.
pub pop-put : (o : JsonObject) (k : String) (v : Json) → get o k ≡ none → pop (put o k v) k ≡ o
unfolding get put pop
pop-put empty k v h = ground (arith, eq_iff k k)
pop-put (member i w o) k v h = ground (arith, eq_iff i k, pop-put o k v)

-- A second write under one key is the only one that counts.
pub put-put : (o : JsonObject) (k : String) (v w : Json) → put (put o k v) k w ≡ put o k w
unfolding put
put-put empty k v w = ground (arith, eq_iff k k)
put-put (member i u o) k v w = ground (arith, eq_iff i k, put-put o k v w)

pub put-get_self : (o : JsonObject) (k : String) (v : Json) → get o k ≡ some v → put o k v ≡ o
unfolding get put
put-get_self empty k v h = ground arith
put-get_self (member i u o) k v h = ground (arith, eq_iff i k, put-get_self o k v)

-- A key that was put and taken out is gone, whether it was there before or not.
pub pop-put_any : (o : JsonObject) (k : String) (v : Json) → pop (put o k v) k ≡ pop o k
unfolding put pop
pop-put_any empty k v = ground (arith, eq_iff k k)
pop-put_any (member i w o) k v = ground (arith, eq_iff i k, pop-put_any o k v)

pub pop-absent : (o : JsonObject) (k : String) → get o k ≡ none → pop o k ≡ o
unfolding get pop
pop-absent empty k h = refl
pop-absent (member i w o) k h = ground (arith, eq_iff i k, pop-absent o k)

-- The keys of o.get("properties", {}), where that is an object.
unfoldable pub property_keys : JsonObject → List String
unfolding get keys
property_keys o = elim (get o "properties") [ some (object properties) ↦ keys properties | _ ↦ [] ]
