-- ===== src/Checkpoint.antt =====
-- Which checkpoints stay valid after a change and from which one a phase can start again,
-- core/checkpoint_validity.py. A set is a list without repetition, iterated in its order. What
-- getattr reads of a compiled skill is a record; the checkpointer's list is an argument.
pub mod Taint
pub mod Downstream
pub mod Validity
pub mod Before
pub mod Tests
use graph_skill_runtime.Common.{
  ℕ, zero, suc, ◌+◌, ◌≤◌, String, Bool, true, false, not, ◌&&◌, ◌||◌, Option, none, some, List, [],
  ◌∷◌, ◌++◌, map, ◌≡◌, refl, sym, ap, ◌∙◌, arith, ◌==◌, eq_iff, if◌then◌else◌, or_else, is_some,
  keep, length, length-append,
}
use graph_skill_runtime.Common.Dict.{Dict, get, put}
use graph_skill_runtime.Common.Names.{has, has-append, add, add_all, entries}
use graph_skill_runtime.Common.Walk.{Walk, closure}

-- A row of raw["graph_topology"]["phases"]: the name, if it is a string, and the strings among the
-- dependencies, if they are a list.
pub record TopologyRow : Type 0 where
  pub name : Option String
  pub depends_on : Option (List String)

-- `order` and `phases` are the entries of raw["graph_topology"], where they are what is looked for;
-- `manifest_phases` has the strings among manifest.phases, where that is a list; `outputs` the
-- output keys of each node, by name.
pub record Compiled : Type 0 where
  pub order : Option (List String)
  pub phases : Option (List TopologyRow)
  pub manifest_phases : Option (List String)
  pub node_names : List String
  pub outputs : Dict (List String)

unfoldable pub phase_order : Compiled → List String
phase_order compiled = elim compiled.order [
  | some order ↦ order
  | none ↦ elim compiled.manifest_phases [ some phases ↦ phases | none ↦ compiled.node_names ]
]

unfoldable pub row_dependencies : List TopologyRow → Dict (List String) → Dict (List String)
row_dependencies [] d = d
row_dependencies (row ∷ rows) d = row_dependencies rows (elim row.name [
  | none ↦ d
  | some name ↦ elim row.depends_on [ none ↦ d | some deps ↦ put d name deps ]
])

-- d.setdefault(p, []) for each name
unfoldable pub set_defaults : List String → Dict (List String) → Dict (List String)
set_defaults [] d = d
set_defaults (p ∷ ps) d = set_defaults ps (if is_some (get d p) then d else put d p [])

unfoldable pub phase_dependencies : Compiled → Dict (List String)
unfolding row_dependencies set_defaults phase_order
phase_dependencies compiled =
    set_defaults (phase_order compiled) (row_dependencies (or_else [] compiled.phases) [])

-- The dependencies of one phase, each of which gets the phase as a child.
unfoldable pub add_children : String → List String → Dict (List String) → Dict (List String)
unfolding has
add_children phase [] d = d
add_children phase (dep ∷ deps) d =
    add_children phase deps (if dep == "input" then d else put d dep (add phase (entries d dep)))

unfoldable pub add_all_children : Dict (List String) → Dict (List String) → Dict (List String)
unfolding add_children
add_all_children [] d = d
add_all_children ((phase, deps) ∷ rest) d = add_all_children rest (add_children phase deps d)

unfoldable pub blank_children : Dict (List String) → Dict (List String)
blank_children [] = []
blank_children ((phase, deps) ∷ rest) = (phase, []) ∷ blank_children rest

unfoldable pub downstream_map : Dict (List String) → Dict (List String)
unfolding add_all_children blank_children
downstream_map dependencies = add_all_children dependencies (blank_children dependencies)

pub record Spread : Type 0 where
  pub queue : List String
  pub invalid : List String

-- The loop over the children of a phase.
unfoldable pub mark_children : List String → Spread → Spread
unfolding has
mark_children [] s = s
mark_children (child ∷ children) s = mark_children children (
    if has child s.invalid
    then s
    else record { queue = s.queue ++ child ∷ []; invalid = s.invalid ++ child ∷ [] })

unfoldable pub spread : Dict (List String) → ℕ → Spread → Spread
unfolding mark_children
spread downstream zero s = s
spread downstream (suc fuel) s = elim s.queue [
  | [] ↦ s
  | phase ∷ rest ↦
      spread downstream fuel (mark_children (entries downstream phase) (record s { queue = rest }))
]

-- The names that stand in the values of a dict.
unfoldable pub all_values : Dict (List String) → List String
all_values [] = []
all_values ((k, ps) ∷ d) = ps ++ all_values d

-- {phase for phase in dirty_phase_ids if phase}
unfoldable pub dirty_set : List String → List String
unfolding add_all
dirty_set dirty_phase_ids = add_all (keep (λ p. not (p == "")) dirty_phase_ids) []

unfoldable pub invalid_phases : Compiled → List String → List String
unfolding dirty_set downstream_map phase_dependencies spread all_values
invalid_phases compiled dirty_phase_ids =
    let dirty = dirty_set dirty_phase_ids in
    let downstream = downstream_map (phase_dependencies compiled) in
    (spread downstream (length dirty + length (all_values downstream))
      (record { queue = dirty; invalid = dirty })).invalid

-- {phase: phase not in invalid for phase in order}
unfoldable pub validity_of : List String → List String → Dict Bool → Dict Bool
unfolding has
validity_of invalid [] d = d
validity_of invalid (p ∷ ps) d = validity_of invalid ps (put d p (not (has p invalid)))

unfoldable pub checkpoint_validity_by_phase : Compiled → List String → Dict Bool
unfolding invalid_phases validity_of phase_order
checkpoint_validity_by_phase compiled dirty_phase_ids =
    validity_of (invalid_phases compiled dirty_phase_ids) (phase_order compiled) []
