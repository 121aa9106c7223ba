-- ===== src/LoopDetection.antt =====
-- src/graph_skill_runtime/middleware/loop_detection.py: a diagnostic for a tool that keeps returning the
-- same result. json.dumps of a content that is no text is a parameter.
pub mod Counts
mod Tests
use graph_skill_runtime.Common.{
  ℕ, zero, suc, ◌+◌, max, String, Bool, true, false, ◌&&◌, List, [], ◌∷◌, map, Option, none, some,
  ◌==◌, leb, if◌then◌else◌,
}
use mathlib.Core.List.{reverse}
use graph_skill_runtime.Json.{Json}

pub data Content : Type 0 where
  plain : String → Content
  structured : Json → Content

pub data Message : Type 0 where
  tool : (name : Option String) → Content → Message
  other : Message

abbrev pub Signature : Type 0
Signature = String × String

-- The keys of the dictionary of counts are compared as pairs.
abbrev pub same : Signature → Signature → Bool
same (a, b) (c, d) = a == c && b == d

abbrev pub Counts : Type 0
Counts = List (Signature × ℕ)

-- counts.get(signature, 0)
unfoldable pub count_of : Counts → Signature → ℕ
count_of [] s = 0
count_of ((t, n) ∷ counts) s = if same t s then n else count_of counts s

-- counts[signature] = counts.get(signature, 0) + 1
unfoldable pub bump : Signature → Counts → Counts
bump s [] = (s, 1) ∷ []
bump s ((t, n) ∷ counts) = if same t s then (t, n + 1) ∷ counts else (t, n) ∷ bump s counts

unfoldable pub signature_counts : List Signature → Counts → Counts
signature_counts [] counts = counts
signature_counts (s ∷ ss) counts = signature_counts ss (bump s counts)

unfoldable pub first_at_least : ℕ → Counts → Option (Signature × ℕ)
first_at_least threshold [] = none
first_at_least threshold ((s, n) ∷ counts) =
    if leb threshold n then some (s, n) else first_at_least threshold counts

-- _find_repeated_signature
unfoldable pub find_repeated_signature : List Signature → ℕ → Option (Signature × ℕ)
find_repeated_signature signatures threshold =
    first_at_least threshold (signature_counts signatures [])

-- getattr(msg, "name", None) or "unknown"
abbrev pub tool_name : Option String → String
tool_name none = "unknown"
tool_name (some name) = if name == "" then "unknown" else name

pub record LoopDetection : Type 0 where
  pub loop_window : ℕ
  pub loop_threshold : ℕ
  pub last_diagnostic_signature : Option Signature

-- LoopDetectionMiddleware.__init__
abbrev pub new_detection : ℕ → ℕ → LoopDetection
new_detection window threshold = record {
  loop_window = max 1 window;
  loop_threshold = max 2 threshold;
  last_diagnostic_signature = none;
}

abbrev pub is_last : Option Signature → Signature → Bool
is_last none s = false
is_last (some t) s = same s t

module _ (dumps : Json → String) where
  -- _stringify_content
  abbrev pub stringify_content : Content → String
  stringify_content (plain text) = text
  stringify_content (structured json) = dumps json

  -- _recent_tool_messages, by their signatures; the messages are reversed, and `limit` is at least 1
  unfoldable pub recent_signatures : List Message → ℕ → List Signature
  recent_signatures messages zero = []
  recent_signatures [] limit = []
  recent_signatures (tool name content ∷ messages) (suc limit) =
      (tool_name name, stringify_content content) ∷ recent_signatures messages limit
  recent_signatures (other ∷ messages) limit = recent_signatures messages limit

  abbrev pub repeated : List Message → LoopDetection → Option (Signature × ℕ)
  repeated messages m =
      find_repeated_signature (recent_signatures (reverse messages) m.loop_window) m.loop_threshold

  -- after_model: the middleware that it leaves, and what the diagnostic and the event name
  unfoldable pub after_model : List Message → LoopDetection → LoopDetection × Option (Signature × ℕ)
  after_model messages m = elim (repeated messages m) [
    | none ↦ (m, none)
    | some (signature, count) ↦
        if is_last m.last_diagnostic_signature signature
        then (m, none)
        else (record m { last_diagnostic_signature = some signature }, some (signature, count))
  ]
