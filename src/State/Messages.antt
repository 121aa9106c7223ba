-- ===== src/State/Messages.antt =====
-- The reducer of the messages, _messages_delta_reducer of core/state.py. What langchain's
-- convert_to_messages makes of raw messages, and the id that langgraph reserves for a full reset,
-- are parameters.
pub mod Places
pub mod Indexed
pub mod Reference
use graph_skill_runtime.Common.{
  ℕ, zero, suc, ◌+◌, String, Bool, true, false, not, ◌&&◌, Option, none, some, List, [], ◌∷◌, ◌++◌,
  ◌≡◌, arith, ◌==◌, if◌then◌else◌, length,
}
use graph_skill_runtime.Common.Dict.{Dict, get, put, remove}

-- `removes` holds for a RemoveMessage.
pub record Message {ℓ} (Body : Type ℓ) : Type ℓ where
  pub id : Option String
  pub removes : Bool
  pub body : Body

-- The state that the reducer is called with: typed messages or raw ones. No state is `raw []`.
pub data Input {ℓ} (Body Raw : Type ℓ) : Type ℓ where
  typed : List (Message Body) → Input Body Raw
  raw : List Raw → Input Body Raw

-- One write: a list or a single message.
pub data Write {ℓ} (Raw : Type ℓ) : Type ℓ where
  many : List Raw → Write Raw
  one : Raw → Write Raw

-- result[i] = x
unfoldable pub set_at {ℓ} : {A : Type ℓ} → List A → ℕ → A → List A
set_at [] i x = []
set_at (y ∷ ys) zero x = x ∷ ys
set_at (y ∷ ys) (suc i) x = y ∷ set_at ys i x

-- [m for m in result if m is not None]
unfoldable pub compact {ℓ} : {A : Type ℓ} → List (Option A) → List A
compact [] = []
compact (none ∷ os) = compact os
compact (some a ∷ os) = a ∷ compact os

pub record Slots {ℓ} (Body : Type ℓ) : Type ℓ where
  pub result : List (Option (Message Body))
  pub index : Dict ℕ

unfoldable pub flatten {ℓ} : {Raw : Type ℓ} → List (Write Raw) → List Raw
flatten [] = []
flatten (many rs ∷ ws) = rs ++ flatten ws
flatten (one r ∷ ws) = r ∷ flatten ws

module _ {ℓ} {Body : Type ℓ} where
  -- The messages after the last full reset, where there is one.
  unfoldable pub after_reset : String → List (Message Body) → Option (List (Message Body))
  after_reset reset [] = none
  after_reset reset (m ∷ ms) = elim (after_reset reset ms) [
    | some rest ↦ some rest
    | none ↦ elim m.id [ none ↦ none | some i ↦ if m.removes && i == reset then some ms else none ]
  ]

  unfoldable pub load_message : Message Body → Slots Body → Slots Body
  unfolding put
  load_message m s = record {
    result = s.result ++ some m ∷ [];
    index = elim m.id [ none ↦ s.index | some i ↦ put s.index i (length s.result) ];
  }

  unfoldable pub load : List (Message Body) → Slots Body → Slots Body
  unfolding load_message
  load [] s = s
  load (m ∷ ms) s = load ms (load_message m s)

  -- A message with the id `i`.
  unfoldable pub apply_known : String → Message Body → Slots Body → Slots Body
  unfolding set_at get put remove
  apply_known i m s =
      if m.removes
      then elim (get s.index i) [
        | none ↦ s
        | some n ↦ record { result = set_at s.result n none; index = remove s.index i }
      ]
      else elim (get s.index i) [
        | some n ↦ record s { result = set_at s.result n (some m) }
        | none ↦ record {
          result = s.result ++ some m ∷ [];
          index = put s.index i (length s.result);
        }
      ]

  unfoldable pub apply_message : Message Body → Slots Body → Slots Body
  unfolding apply_known
  apply_message m s = elim m.id [
    | none ↦ record s { result = s.result ++ some m ∷ [] }
    | some i ↦ apply_known i m s
  ]

  unfoldable pub apply_all : List (Message Body) → Slots Body → Slots Body
  unfolding apply_message
  apply_all [] s = s
  apply_all (m ∷ ms) s = apply_all ms (apply_message m s)

  -- The loops over the state and the new messages.
  unfoldable pub reduce_messages : List (Message Body) → List (Message Body) → List (Message Body)
  unfolding load apply_all compact
  reduce_messages state msgs =
      compact (apply_all msgs (load state (record { result = []; index = [] }))).result

  module _ {Raw : Type ℓ} (convert_to_messages : List Raw → List (Message Body))
      (reset : String) where
    unfoldable pub state_messages : Input Body Raw → List (Message Body)
    state_messages (typed []) = convert_to_messages []
    state_messages (typed (m ∷ ms)) = m ∷ ms
    state_messages (raw rs) = convert_to_messages rs

    unfoldable pub messages_delta_reducer : Input Body Raw → List (Write Raw) → List (Message Body)
    unfolding state_messages flatten after_reset reduce_messages
    messages_delta_reducer state writes =
        let msgs = convert_to_messages (flatten writes) in
        elim (after_reset reset msgs) [
          | some rest ↦ reduce_messages [] rest
          | none ↦ reduce_messages (state_messages state) msgs
        ]
