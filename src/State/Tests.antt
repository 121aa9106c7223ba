-- ===== src/State/Tests.antt =====
-- The blackboard on concrete states.
use graph_skill_runtime.Common.{
  Option, if◌then◌else◌, Bool-cases, inl, inr, same_of_eq, sym, ap, ◌∙◌, ℕ, ◌≤◌, String, Bool, true,
  false, ◌&&◌, none, some, List, [], ◌∷◌, ◌≡◌, refl, arith, ◌==◌, eq_iff,
}
use mathlib.Core.List.{Permᴰ}
use graph_skill_runtime.Json
use graph_skill_runtime.Json.{JsonObject, object, Json, member, empty, number, text}
use graph_skill_runtime.State.{WorkflowState, delta, coerce_business_data}
use graph_skill_runtime.Common.Names.{has}
use graph_skill_runtime.State.Fields.{is_dict, over}
use graph_skill_runtime.State.Flow.{
  ByEntry, converted, merge_flow_channel, flow_entry, IsMergeable, merge_flow_channel_lem,
}
use graph_skill_runtime.State.FanOut.{IsSame, merge_deltas, AreParallel, phase_output}
use graph_skill_runtime.State.FanOut.Order.{merge_deltas-IsSame}
use graph_skill_runtime.State.Messages.{
  Message, Input, typed, Write, many, one, messages_delta_reducer, state_messages, after_reset,
  flatten,
}
use graph_skill_runtime.State.Messages.Reference.{reference, count_id, messages_delta_reducer_lem}

abbrev entry : String → String → JsonObject → JsonObject
entry k n o = member k (number n) o

abbrev written : String → String → JsonObject
written field phase =
    entry field "1" (member "phase_outputs" (object (entry phase "2" empty)) empty)

abbrev start : JsonObject
start = entry "topic" "0" empty

two_phases :
    merge_deltas start (written "plan" "A" ∷ written "text" "B" ∷ [])
    ≡ entry "topic" "0" (
        entry "plan" "1" (
          member "phase_outputs"
            (object (entry "A" "2" (entry "B" "2" empty)))
            (entry "text" "1" empty)))
unfolding merge_deltas
two_phases = refl

flattened :
    coerce_business_data (
      some (
        delta (
          member "inputs" (object start) (
            member "phase_outputs"
              (object (member "A" (object (entry "plan" "1" empty)) empty))
              empty))))
    ≡ entry "topic" "0" (entry "plan" "1" empty)
unfolding coerce_business_data
flattened = refl

-- Two names are not both a third.
differ : (a b k : String) → (a == b) ≡ false → (a == k && b == k) ≡ false
differ a b k h = ground (arith, eq_iff a k, eq_iff b k, eq_iff a b)

written_parallel : AreParallel (written "plan" "A" ∷ written "text" "B" ∷ [])
unfolding is_dict phase_output
written_parallel = (
  record { keyed = refl; outputs_keyed = refl; no_inputs = refl },
  (
    record {
      fields = λ k n.
          ground (
            arith,
            differ "plan" "text" k refl,
            eq_iff "phase_outputs" k,
            eq_iff k "phase_outputs",
          );
      outputs = λ p. ground (arith, differ "A" "B" p refl);
    },
    tt,
  ),
  (record { keyed = refl; outputs_keyed = refl; no_inputs = refl }, tt, tt),
)

merge_deltas-IsSame_example :
    IsSame
      (merge_deltas start (written "plan" "A" ∷ written "text" "B" ∷ []))
      (merge_deltas start (written "text" "B" ∷ written "plan" "A" ∷ []))
merge_deltas-IsSame_example =
    merge_deltas-IsSame (written "plan" "A" ∷ written "text" "B" ∷ [])
      (written "text" "B" ∷ written "plan" "A" ∷ []) start written_parallel (Permᴰ.swap refl refl)

abbrev blackboard : WorkflowState (List ℕ)
blackboard = record { data_channel = start; flow = empty; messages = [] }

abbrev answer : JsonObject
answer = entry "text" "1" (entry "_score" "2" empty)

abbrev message : String → Bool → String → Message String
message i removes body = record { id = some i; removes = removes; body = body }

abbrev chat : Input String (Message String)
chat = typed (message "a" false "hello" ∷ message "b" false "thinking" ∷ [])

abbrev replies : List (Write (Message String))
replies =
    many (message "b" false "answer" ∷ message "a" true "" ∷ [])
    ∷ one (message "c" false "more")
    ∷ []

reduced :
    messages_delta_reducer (λ ms. ms) "all" chat replies
    ≡ message "b" false "answer" ∷ message "c" false "more" ∷ []
unfolding messages_delta_reducer
reduced = refl

reset_reduced :
    messages_delta_reducer
      (λ ms. ms)
      "all"
      chat
      (many (message "all" true "" ∷ message "d" false "new" ∷ []) ∷ [])
    ≡ message "d" false "new" ∷ []
unfolding messages_delta_reducer
reset_reduced = refl

chat_distinct :
    (i : String) → count_id i (state_messages (λ (ms : List (Message String)). ms) "all" chat) ≤ 1
unfolding state_messages
chat_distinct i = ground (arith, differ "a" "b" i refl)

messages_delta_reducer_example :
    let result = messages_delta_reducer (λ ms. ms) "all" chat replies in
    let msgs = flatten replies in
    (result ≡ elim (after_reset "all" msgs) [
      | some rest ↦ reference [] rest
      | none ↦ reference (state_messages (λ ms. ms) "all" chat) msgs
    ])
    × ((i : String) → count_id i result ≤ 1)
messages_delta_reducer_example =
    messages_delta_reducer_lem (λ ms. ms) "all" chat replies chat_distinct

abbrev metrics : JsonObject
metrics = member "critic_metrics" (object (entry "A" "1" empty)) empty

abbrev new_metrics : JsonObject
new_metrics = member "critic_metrics" (object (entry "B" "2" empty)) empty

abbrev both_metrics : JsonObject
both_metrics = member "critic_metrics" (object (entry "A" "1" (entry "B" "2" empty))) empty

-- A validation that turns the texts of one field into numbers, as a field of int does.
abbrev convert : String → Json → Json
convert f (text s) = if f == "subagent_validation_retries" then number s else text s
convert f v = v

abbrev convert_all : (Json → Json) → JsonObject → JsonObject
convert_all g empty = empty
convert_all g (member k v o) = member k (g v) (convert_all g o)

abbrev convert_member : String → Json → Json
convert_member k (object d) = object (convert_all (convert k) d)
convert_member k v = v

abbrev convert_fields : JsonObject → JsonObject
convert_fields empty = empty
convert_fields (member k v o) = member k (convert_member k v) (convert_fields o)

get-convert_all :
    (g : Json → Json) (o : JsonObject) (p : String)
    → Json.get (convert_all g o) p ≡ converted g (Json.get o p)
unfolding Json.get
get-convert_all g empty p = refl
get-convert_all g (member k v o) p = ground (arith, get-convert_all g o p)

get-convert_fields :
    (o d : JsonObject) (f : String)
    → Json.get o f ≡ some (object d)
    → Json.get (convert_fields o) f ≡ some (object (convert_all (convert f) d))
unfolding Json.get
get-convert_fields empty d f h = absurd (ground arith)
get-convert_fields (member k v o) d f h = elim (Bool-cases (k == f)) [
  | inl e ↦ let v_is : v ≡ object d = ground arith in rw (e, v_is, same_of_eq k f e) refl
  | inr e ↦ rw e (get-convert_fields o d f (ground arith))
]

abbrev validate_retries : JsonObject → Option JsonObject
validate_retries o = some (convert_fields o)

some-injective : (a b : JsonObject) → some a ≡ some b → a ≡ b
some-injective a b h = ground arith

by_entry : ByEntry convert validate_retries
by_entry o valid d f h e = (
  convert_all (convert f) d,
  ap (λ x. Json.get x f) (sym (some-injective (convert_fields o) valid h))
      ∙ get-convert_fields o d f e,
  get-convert_all (convert f) d,
)

abbrev retries : JsonObject
retries = member "subagent_validation_retries" (object (entry "A" "1" empty)) empty

abbrev new_retries : JsonObject
new_retries = member "subagent_validation_retries" (object (member "B" (text "3") empty)) empty

abbrev both_retries : JsonObject
both_retries =
    member "subagent_validation_retries" (object (entry "A" "1" (entry "B" "3" empty))) empty

retries_merged : merge_flow_channel validate_retries retries (delta new_retries) ≡ some both_retries
unfolding merge_flow_channel
retries_merged = refl

merge_flow_channel_example :
    flow_entry both_retries "subagent_validation_retries" "B"
    ≡ converted (convert "subagent_validation_retries") (
        over
          (flow_entry new_retries "subagent_validation_retries" "B")
          (flow_entry retries "subagent_validation_retries" "B"))
unfolding has is_dict
merge_flow_channel_example =
    merge_flow_channel_lem convert validate_retries by_entry retries new_retries both_retries
      (entry "A" "1" empty) "subagent_validation_retries" "B" refl refl refl
      (IsMergeable.given (member "B" (text "3") empty) refl refl) retries_merged
