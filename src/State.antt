-- ===== src/State.antt =====
-- The blackboard of core/state.py: BusinessData, its reducer and the routing helpers. BusinessData
-- has no declared field, so it is a JSON object, and model_dump gives that object.
pub mod Fields
pub mod Routing
pub mod FanOut
pub mod Flow
pub mod Messages
pub mod Tests
use graph_skill_runtime.Common.{
  ℕ, String, Bool, true, false, not, ◌&&◌, ◌||◌, Option, none, some, List, [], ◌∷◌, ◌≡◌, arith,
  ◌==◌, if◌then◌else◌, is_some, is_empty, keep, length,
}
use graph_skill_runtime.Common.Text.{codes, starts_with}
use graph_skill_runtime.Json
use graph_skill_runtime.Json.{JsonObject, object, member, empty}

-- o.update(p)
unfoldable pub update_all : JsonObject → JsonObject → JsonObject
unfolding Json.put
update_all o empty = o
update_all o (member k v p) = update_all (Json.put o k v) p

-- What is written to the channel: a whole BusinessData or a dict.
pub data Update : Type 0 where
  full : JsonObject → Update
  delta : JsonObject → Update

-- value if isinstance(value, dict) else {}
unfoldable pub as_object : Option Json.Json → JsonObject
as_object (some (object o)) = o
as_object _ = empty

-- For the values of o in turn: those that are dicts are written over `flat`.
unfoldable pub flatten_values : JsonObject → JsonObject → JsonObject
unfolding update_all as_object
flatten_values flat empty = flat
flatten_values flat (member k v o) = flatten_values (update_all flat (as_object (some v))) o

unfoldable pub coerce_dict : JsonObject → JsonObject
unfolding update_all as_object flatten_values Json.get
coerce_dict value =
    if is_some (Json.get value "inputs") || is_some (Json.get value "phase_outputs")
    then flatten_values (update_all empty (as_object (Json.get value "inputs")))
        (as_object (Json.get value "phase_outputs"))
    else value

unfoldable pub coerce_business_data : Option Update → JsonObject
unfolding coerce_dict
coerce_business_data none = empty
coerce_business_data (some (full replacement)) = replacement
coerce_business_data (some (delta value)) = coerce_dict value

-- The phase_outputs of a delta, written over those that are there.
unfoldable pub merge_outputs : Option Json.Json → JsonObject → JsonObject
unfolding update_all as_object Json.get Json.put
merge_outputs (some (object outputs)) merged =
    Json.put merged "phase_outputs"
      (object (update_all (as_object (Json.get merged "phase_outputs")) outputs))
merge_outputs _ merged = merged

unfoldable pub merge_business_channel : JsonObject → Update → JsonObject
unfolding coerce_dict merge_outputs update_all Json.get Json.pop
merge_business_channel current (full replacement) = replacement
merge_business_channel current (delta update) =
    if is_some (Json.get update "inputs")
    then coerce_dict update
    else merge_outputs (Json.get update "phase_outputs")
        (update_all current (Json.pop update "phase_outputs"))

-- k.startswith("_")
unfoldable pub is_framework_key : String → Bool
is_framework_key k = starts_with (codes k) (95 ∷ [])

-- The entries of o whose keys pass a test.
unfoldable pub keep_keys : (String → Bool) → JsonObject → JsonObject
keep_keys p empty = empty
keep_keys p (member k v o) = let rest = keep_keys p o in if p k then member k v rest else rest

unfoldable pub has_entries : JsonObject → Bool
has_entries empty = false
has_entries (member k v o) = true

-- The state of the graph. `flow` is the model_dump of a FrameworkState.
pub record WorkflowState {ℓ} (Messages : Type ℓ) : Type ℓ where
  pub data_channel : JsonObject
  pub flow : JsonObject
  pub messages : Messages

pub data StateError : Type 0 where
  framework_key : String → StateError
  invalid_flow : StateError

pub data Result {ℓ} (A : Type ℓ) : Type ℓ where
  ok : A → Result A
  err : StateError → Result A

-- Pydantic's FrameworkState.model_validate, to the model_dump of what it gives.
module _ {ℓ} {Messages : Type ℓ} (validate_flow : JsonObject → Option JsonObject) where
  unfoldable pub update_business :
      WorkflowState Messages → JsonObject → Result (WorkflowState Messages)
  unfolding Json.keys update_all is_framework_key
  update_business state fields = elim (keep is_framework_key (Json.keys fields)) [
    | k ∷ _ ↦ err (framework_key k)
    | [] ↦ ok (record state { data_channel = update_all state.data_channel fields })
  ]

  unfoldable pub update_framework :
      WorkflowState Messages → JsonObject → Result (WorkflowState Messages)
  unfolding update_all
  update_framework state fields = elim (validate_flow (update_all state.flow fields)) [
    | none ↦ err invalid_flow
    | some flow ↦ ok (record state { flow = flow })
  ]

  -- The fields of finish_task's output without the prefix go to the business data.
  unfoldable pub route_business :
      WorkflowState Messages → JsonObject → Result (WorkflowState Messages)
  unfolding update_business keep_keys has_entries is_framework_key
  route_business state llm_output =
      let business_fields = keep_keys (λ k. not (is_framework_key k)) llm_output in
      if has_entries business_fields then update_business state business_fields else ok state

  unfoldable pub route_finish_task :
      WorkflowState Messages → JsonObject → Result (WorkflowState Messages)
  unfolding route_business update_framework keep_keys is_framework_key
  route_finish_task state llm_output =
      let meta = object (keep_keys is_framework_key llm_output) in
      let result = object (member "meta" meta (member "raw" (object llm_output) empty)) in
      elim (route_business state llm_output) [
        | err e ↦ err e
        | ok next_state ↦ update_framework next_state (member "finish_task_result" result empty)
      ]

-- The keys that a business state must not have.
unfoldable pub bad_keys : JsonObject → List String
unfolding Json.keys is_framework_key
bad_keys o = keep is_framework_key (Json.keys o)

unfoldable pub verify_state_invariants {ℓ} : {Messages : Type ℓ} → WorkflowState Messages → Bool
unfolding bad_keys
verify_state_invariants state = is_empty (bad_keys state.data_channel)
