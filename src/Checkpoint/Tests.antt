-- ===== src/Checkpoint/Tests.antt =====
-- The checkpoints of a concrete graph.
use graph_skill_runtime.Common.{
  String, true, false, none, some, List, [], ◌∷◌, ◌++◌, ◌≡◌, ◌⊎◌, ◌↔◌, refl, All,
}
use graph_skill_runtime.Common.Dict.{get, put}
use graph_skill_runtime.Common.Names.{has}
use graph_skill_runtime.Checkpoint.{
  Compiled, TopologyRow, phase_order, phase_dependencies, dirty_set, checkpoint_validity_by_phase,
}
use graph_skill_runtime.Checkpoint.Taint.{Tainted}
use graph_skill_runtime.Checkpoint.Validity.{checkpoint_validity_by_phase_lem}
use graph_skill_runtime.Checkpoint.Before.{
  Checkpoint, selected, no_checkpoint, checkpoint_id_before_phase,
}
use graph_skill_runtime.Checkpoint.Before.Ready.{IsReady, checkpoint_id_before_phase_lem}

abbrev row : String → List String → TopologyRow
row name deps = record { name = some name; depends_on = some deps }

abbrev graph : Compiled
graph = record {
  order = some ("draft" ∷ "notes" ∷ "polish" ∷ []);
  phases =
      some (
        row "draft" ("input" ∷ []) ∷ row "notes" ("input" ∷ []) ∷ row "polish" ("draft" ∷ []) ∷ []);
  manifest_phases = none;
  node_names = [];
  outputs = ("draft", "text" ∷ []) ∷ ("polish", "final" ∷ []) ∷ [];
}

after_change :
    checkpoint_validity_by_phase graph ("draft" ∷ "" ∷ [])
    ≡ ("draft", false) ∷ ("notes", true) ∷ ("polish", false) ∷ []
unfolding checkpoint_validity_by_phase put get
after_change = refl

abbrev saved : List Checkpoint
saved =
    record { id = "3"; data_keys = "text" ∷ "final" ∷ [] }
    ∷ record { id = "2"; data_keys = "text" ∷ [] }
    ∷ record { id = "1"; data_keys = [] }
    ∷ []

before_polish : checkpoint_id_before_phase graph saved "polish" ≡ selected "2"
unfolding checkpoint_id_before_phase put get
before_polish = refl

polish_known : has "polish" (phase_order graph) ≡ true
unfolding has phase_order
polish_known = refl

checkpoint_validity_by_phase_example :
    let verdict = get (checkpoint_validity_by_phase graph ("draft" ∷ [])) "polish" in
    ((verdict ≡ some true) ⊎ (verdict ≡ some false))
    × ((verdict ≡ some false)
        ↔ Tainted (phase_dependencies graph) (dirty_set ("draft" ∷ [])) "polish")
checkpoint_validity_by_phase_example =
    checkpoint_validity_by_phase_lem graph ("draft" ∷ []) "polish" polish_known

checkpoint_id_before_phase_example :
    ((earlier : List Checkpoint) × (c : Checkpoint) × (later : List Checkpoint) × (saved
        ≡ earlier ++ c ∷ later)
      × (checkpoint_id_before_phase graph saved "polish" ≡ selected c.id)
      × IsReady graph "polish" c
      × All (λ b. ¬ IsReady graph "polish" b) earlier)
    ⊎ ((checkpoint_id_before_phase graph saved "polish" ≡ no_checkpoint)
        × All (λ b. ¬ IsReady graph "polish" b) saved)
checkpoint_id_before_phase_example =
    checkpoint_id_before_phase_lem graph saved "polish" polish_known
