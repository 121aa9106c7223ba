-- ===== src/Checkpoint/Before.antt =====
-- The choice of a checkpoint, checkpoint_id_before_phase of core/checkpoint_validity.py.
pub mod Ready
use graph_skill_runtime.Common.{
  ◌⊎◌, ◌↔◌, ◌≢◌, inl, inr, Bool-cases, Option-cases, All, ℕ, zero, suc, ◌+◌, ◌≤◌, String, Bool,
  true, false, not, ◌&&◌, ◌||◌, Option, none, some, List, [], ◌∷◌, ◌++◌, map, ◌≡◌, refl, sym, ap,
  ◌∙◌, arith, ◌==◌, eq_iff, if◌then◌else◌, or_else, is_some, keep, length, length-append,
}
use graph_skill_runtime.Common.Dict.{Dict, get, put}
use graph_skill_runtime.Common.Names.{has, has-keep, has-add_all, has-append, add, add_all, entries}
use graph_skill_runtime.Common.Walk.{Walk, closure, From, has-closure}
use graph_skill_runtime.Checkpoint.{Compiled, phase_order, phase_dependencies}

-- The dependencies that are phases.
unfoldable pub phases_of : List String → List String
phases_of deps = keep (λ d. not (d == "input")) deps

unfoldable pub without_input : Dict (List String) → Dict (List String)
unfolding phases_of
without_input [] = []
without_input ((p, deps) ∷ d) = (p, phases_of deps) ∷ without_input d

pub entries-without_input :
    (d : Dict (List String)) (x : String) → entries (without_input d) x ≡ phases_of (entries d x)
unfolding without_input phases_of get
entries-without_input [] x = refl
entries-without_input ((p, deps) ∷ d) x = ground (arith, entries-without_input d x)

-- The walk takes the dependencies from the dict, as the source does, and leaves the input out.
unfoldable pub upstream_walk : Dict (List String) → Walk
unfolding without_input phases_of has
upstream_walk dependencies = record {
  graph = without_input dependencies;
  skip = λ n. false;
  push = λ ancestors queue n. queue ++ phases_of (entries dependencies n);
  push_sound = λ ancestors queue n y h. ground (
    arith,
    has-append y queue (phases_of (entries dependencies n)),
    ap (has y) (entries-without_input dependencies n),
  );
  push_full = λ ancestors queue n y h. ground (
    arith,
    has-append y queue (phases_of (entries dependencies n)),
    ap (has y) (entries-without_input dependencies n),
  );
  push_size = λ ancestors queue n. omega (
    arith,
    length-append queue (phases_of (entries dependencies n)),
    ap length (entries-without_input dependencies n),
  );
}

unfoldable pub ancestor_phases : String → Dict (List String) → List String
unfolding upstream_walk closure phases_of
ancestor_phases phase_id dependencies =
    closure (upstream_walk dependencies) (phases_of (entries dependencies phase_id))

-- The output keys of the phases together.
unfoldable pub outputs_of : Dict (List String) → List String → List String → List String
unfolding add_all
outputs_of outputs [] keys = keys
outputs_of outputs (p ∷ ps) keys = outputs_of outputs ps (add_all (entries outputs p) keys)

-- xs.issubset(ys)
unfoldable pub is_subset : List String → List String → Bool
unfolding has
is_subset [] ys = true
is_subset (x ∷ xs) ys = has x ys && is_subset xs ys

-- xs.intersection(ys) is empty.
unfoldable pub is_apart : List String → List String → Bool
unfolding has
is_apart [] ys = true
is_apart (x ∷ xs) ys = not (has x ys) && is_apart xs ys

-- A checkpoint of the checkpointer, with the keys of its business data.
pub record Checkpoint : Type 0 where
  pub id : String
  pub data_keys : List String

unfoldable pub first_ready : List String → List String → List Checkpoint → Option Checkpoint
unfolding is_subset is_apart
first_ready required forbidden [] = none
first_ready required forbidden (c ∷ cs) =
    if is_subset required c.data_keys && is_apart forbidden c.data_keys
    then some c
    else first_ready required forbidden cs

pub data Selection : Type 0 where
  unknown_phase : List String → Selection
  no_checkpoint : Selection
  selected : String → Selection

-- `checkpoints` is what the checkpointer lists for the run and the namespace.
unfoldable pub checkpoint_id_before_phase : Compiled → List Checkpoint → String → Selection
unfolding phase_order phase_dependencies ancestor_phases outputs_of first_ready
checkpoint_id_before_phase compiled checkpoints phase_id =
    if not (has phase_id (phase_order compiled))
    then unknown_phase (phase_order compiled)
    else let ancestors = ancestor_phases phase_id (phase_dependencies compiled) in
      let required = outputs_of compiled.outputs ancestors [] in
      elim (first_ready required (entries compiled.outputs phase_id) checkpoints) [
        | none ↦ no_checkpoint
        | some c ↦ selected c.id
      ]
