-- ===== src/Writers.antt =====
-- Which phases write a field: _validate_parallel_writers and _validate_sequential_overwrites of
-- core/loader.py. A set is a list without repetition, in the order in which its items were added.
pub mod Upstream
pub mod Quiet
pub mod Owner
pub mod Tests
use graph_skill_runtime.Common.{
  String, Bool, true, false, not, ◌&&◌, ◌||◌, Option, none, some, List, [], ◌∷◌, ◌++◌, map, ◌≡◌,
  arith, ◌==◌, ◌∙◌, sym, eq_iff, if◌then◌else◌, or_else, is_some, is_empty, keep, length,
  length-append, ◌+◌, ◌≤◌, ℕ,
}
use graph_skill_runtime.Common.Dict.{Dict, get, put}
use graph_skill_runtime.Common.Names.{has, has-append, add_all, sorted, entries}
use graph_skill_runtime.Common.Walk.{Walk, closure}
use graph_skill_runtime.Json.{JsonObject, property_keys}
use graph_skill_runtime.Topology.{PhaseTopologyRef}

-- What the AST of a phase says of its outputs: io.outputs, where it has an io that has them, and
-- allow_sequential_overwrite.
pub record PhaseAst : Type 0 where
  pub outputs : Option JsonObject
  pub allow_sequential_overwrite : List String

pub record PhaseDocument : Type 0 where
  pub phase_name : String
  pub path : String
  pub ast : PhaseAst

pub data WriteDiag : Type 0 where
  write_conflict : String → String → String → String → WriteDiag
  overwrite_unauthorized : String → String → String → String → WriteDiag

unfoldable pub depends_on_map : List PhaseTopologyRef → Dict (List String) → Dict (List String)
depends_on_map [] d = d
depends_on_map (ref ∷ refs) d = depends_on_map refs (put d ref.name ref.depends_on)

unfoldable pub ancestor_walk : Dict (List String) → Walk
ancestor_walk dependencies = record {
  graph = dependencies;
  skip = λ n. n == "input";
  push = λ ancestors queue n. queue ++ entries dependencies n;
  push_sound = λ ancestors queue n y h. sym (has-append y queue (entries dependencies n)) ∙ h;
  push_full = λ ancestors queue n y h. ground (arith, has-append y queue (entries dependencies n));
  push_size = λ ancestors queue n. omega (arith, length-append queue (entries dependencies n));
}

unfoldable pub get_ancestors : Dict (List String) → String → List String
unfolding ancestor_walk closure
get_ancestors dependencies phase = closure (ancestor_walk dependencies) (entries dependencies phase)

-- {ref.name: get_ancestors(ref.name) for ref in phase_refs}
unfoldable pub ancestors_by_name :
    Dict (List String) → List PhaseTopologyRef → Dict (List String) → Dict (List String)
unfolding get_ancestors
ancestors_by_name dependencies [] d = d
ancestors_by_name dependencies (ref ∷ refs) d =
    ancestors_by_name dependencies refs (put d ref.name (get_ancestors dependencies ref.name))

unfoldable pub phase_ancestor_sets : List PhaseTopologyRef → Dict (List String)
unfolding depends_on_map ancestors_by_name
phase_ancestor_sets refs = ancestors_by_name (depends_on_map refs []) refs []

unfoldable pub output_keys : PhaseDocument → List String
unfolding property_keys
output_keys doc = elim doc.ast.outputs [ none ↦ [] | some outputs ↦ property_keys outputs ]

-- {doc.phase_name: value(doc) for doc in docs}
unfoldable pub by_name {ℓ} :
    {A : Type ℓ} → (PhaseDocument → A) → List PhaseDocument → Dict A → Dict A
by_name value [] d = d
by_name value (doc ∷ docs) d = by_name value docs (put d doc.phase_name (value doc))

unfoldable pub phase_declared_output_keys : List PhaseDocument → Dict (List String)
unfolding output_keys by_name
phase_declared_output_keys docs = by_name output_keys docs []

unfoldable pub overlap : List String → List String → List String
unfolding has
overlap xs ys = keep (λ k. has k ys) xs

-- docs_by_name.get(second) or docs_by_name.get(first)
unfoldable pub report_doc : Dict PhaseDocument → String → String → Option PhaseDocument
unfolding get
report_doc docs first second = elim (get docs second) [
  | some doc ↦ some doc
  | none ↦ get docs first
]

unfoldable pub pair_conflicts :
    Dict (List String) → Dict (List String) → Dict PhaseDocument → String → String → List WriteDiag
unfolding report_doc overlap
pair_conflicts ancestors keys docs first second =
    if has first (entries ancestors second)
    then []
    else if has second (entries ancestors first)
    then []
    else elim (report_doc docs first second) [
      | none ↦ []
      | some doc ↦
          map (λ key. write_conflict doc.path first second key)
            (sorted (overlap (entries keys first) (entries keys second)))
    ]

module _ (conflicts : String → String → List WriteDiag) where
  -- The inner loop, over the names after `first`.
  unfoldable pub conflicts_of : String → List String → List WriteDiag
  conflicts_of first [] = []
  conflicts_of first (second ∷ names) = conflicts first second ++ conflicts_of first names

  unfoldable pub all_conflicts : List String → List WriteDiag
  unfolding conflicts_of
  all_conflicts [] = []
  all_conflicts (first ∷ names) = conflicts_of first names ++ all_conflicts names

unfoldable pub validate_parallel_writers :
    List PhaseTopologyRef → List PhaseDocument → List WriteDiag
unfolding phase_ancestor_sets phase_declared_output_keys pair_conflicts all_conflicts
validate_parallel_writers refs docs =
    all_conflicts
      (pair_conflicts (phase_ancestor_sets refs) (phase_declared_output_keys docs)
        (by_name (λ doc. doc) docs []))
      (map (λ ref. ref.name) refs)

-- The overlap with one ancestor.
unfoldable pub overwrites_of : Dict (List String) → PhaseDocument → List String → List WriteDiag
unfolding overlap
overwrites_of keys doc [] = []
overwrites_of keys doc (ancestor ∷ ancestors) =
    map (λ key. overwrite_unauthorized doc.path doc.phase_name key ancestor)
      (keep (λ key. not (has key doc.ast.allow_sequential_overwrite))
        (overlap (entries keys doc.phase_name) (entries keys ancestor)))
    ++ overwrites_of keys doc ancestors

unfoldable pub all_overwrites :
    Dict (List String) → Dict (List String) → List PhaseDocument → List WriteDiag
unfolding overwrites_of
all_overwrites ancestors keys [] = []
all_overwrites ancestors keys (doc ∷ docs) =
    (if is_empty (entries keys doc.phase_name)
      then []
      else overwrites_of keys doc (entries ancestors doc.phase_name))
    ++ all_overwrites ancestors keys docs

unfoldable pub validate_sequential_overwrites :
    List PhaseTopologyRef → List PhaseDocument → List WriteDiag
unfolding phase_ancestor_sets phase_declared_output_keys all_overwrites
validate_sequential_overwrites refs docs =
    all_overwrites (phase_ancestor_sets refs) (phase_declared_output_keys docs) docs
