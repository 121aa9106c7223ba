-- ===== src/LoopDetection/Tests.antt =====
-- A short history of tool results, and the theorems on it.
use graph_skill_runtime.Common.{String, List, [], ◌∷◌, none, some, ◌≡◌, ◌≤◌, ◌<◌, ℕ, arith, refl}
use graph_skill_runtime.Json.{Json}
use graph_skill_runtime.LoopDetection.{
  Message, tool, other, plain, Signature, count_of, bump, signature_counts, first_at_least,
  find_repeated_signature, new_detection, recent_signatures, after_model,
}
use graph_skill_runtime.LoopDetection.Counts.{occurrences, find_repeated_signature_lem}

abbrev dumps : Json → String
dumps j = "json"

-- One tool's result between another's: three times, and no two in a row.
abbrev history : List Message
history =
    tool (some "read") (plain "x")
    ∷ tool (some "list") (plain "y")
    ∷ other
    ∷ tool (some "read") (plain "x")
    ∷ tool none (plain "z")
    ∷ tool (some "read") (plain "x")
    ∷ []

program : Unit {0}
unfolding count_of bump signature_counts first_at_least find_repeated_signature recent_signatures
    after_model
program = tt

diagnosed : (after_model dumps history (new_detection 5 3)).1 ≡ some (("read", "x"), 3)
unfolding program
diagnosed = refl

abbrev window : List Signature
window = ("a", "x") ∷ ("b", "y") ∷ ("a", "x") ∷ []

two_positive : 0 < 2
two_positive = omega arith

find_repeated_signature_example :
    ((s : Signature) (n : ℕ)
      → find_repeated_signature window 2 ≡ some (s, n)
      → (occurrences s window ≡ n) × (2 ≤ n))
    × (find_repeated_signature window 2 ≡ none → (s : Signature) → occurrences s window < 2)
find_repeated_signature_example = find_repeated_signature_lem window 2 two_positive
