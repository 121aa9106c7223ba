-- ===== src/Writers/Tests.antt =====
-- The writers of a field on a concrete graph.
use graph_skill_runtime.Common.{String, true, false, List, [], ◌∷◌, ◌≡◌, refl, some, ◌⊎◌, ne_of_eq}
use graph_skill_runtime.Common.Dict.{get, put}
use graph_skill_runtime.Common.Names.{has}
use graph_skill_runtime.Common.Text.{sort_by}
use graph_skill_runtime.Json
use graph_skill_runtime.Json.{JsonObject, object, member, empty}
use graph_skill_runtime.Topology.{PhaseTopologyRef}
use graph_skill_runtime.Writers.{
  PhaseDocument, write_conflict, output_keys, validate_parallel_writers,
  validate_sequential_overwrites, by_name,
}
use graph_skill_runtime.Writers.Upstream.{Upstream}
use graph_skill_runtime.Writers.Owner.{validators-ordered}

abbrev phase : String → List String → PhaseTopologyRef
phase name depends_on = record {
  name = name;
  depends_on = depends_on;
  output = false;
  token = record { phase_id = name; raw_text = ""; line_start = 1; line_end = 1; attrs = [] };
}

abbrev text_output : JsonObject
text_output = member "properties" (object (member "text" (object empty) empty)) empty

abbrev document : String → List String → PhaseDocument
document name allowed = record {
  phase_name = name;
  path = name;
  ast = record { outputs = some text_output; allow_sequential_overwrite = allowed };
}

abbrev chain : List PhaseTopologyRef
chain = phase "draft" ("input" ∷ []) ∷ phase "polish" ("draft" ∷ []) ∷ []

abbrev chain_documents : List PhaseDocument
chain_documents = document "draft" [] ∷ document "polish" ("text" ∷ []) ∷ []

abbrev fork : List PhaseTopologyRef
fork = phase "draft" ("input" ∷ []) ∷ phase "polish" ("input" ∷ []) ∷ []

chain_parallel : validate_parallel_writers chain chain_documents ≡ []
unfolding validate_parallel_writers put
chain_parallel = refl

chain_sequential : validate_sequential_overwrites chain chain_documents ≡ []
unfolding validate_sequential_overwrites get put
chain_sequential = refl

fork_parallel :
    validate_parallel_writers fork chain_documents
    ≡ write_conflict "polish" "draft" "polish" "text" ∷ []
unfolding validate_parallel_writers put sort_by
fork_parallel = refl

validators-ordered_example :
    (Upstream chain "polish" "draft" × (has "text" ("text" ∷ []) ≡ true))
    ⊎ (Upstream chain "draft" "polish" × (has "text" [] ≡ true))
unfolding has get put output_keys Json.get by_name
validators-ordered_example =
    validators-ordered chain chain_documents "draft" "polish" "text" (document "draft" [])
      (document "polish" ("text" ∷ [])) chain_parallel chain_sequential
      (ne_of_eq "draft" "polish" refl) refl refl refl refl refl refl
