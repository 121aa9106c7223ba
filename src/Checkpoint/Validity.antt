-- ===== src/Checkpoint/Validity.antt =====
-- The validity of the checkpoints after a change.
use graph_skill_runtime.Common.{
  ◌+◌, String, Bool, true, false, not, some, List, [], ◌∷◌, ◌≡◌, refl, ap, arith, ◌==◌,
  if◌then◌else◌, inl, inr, ◌⊎◌, ◌↔◌, length, Bool-cases, same_of_eq,
}
use graph_skill_runtime.Common.Dict.{Dict, get, put, get-put}
use graph_skill_runtime.Common.Names.{has}
use graph_skill_runtime.Topology.Order.Counts.{unplaced_bound}
use graph_skill_runtime.Checkpoint.{
  Compiled, phase_order, phase_dependencies, downstream_map, Spread, spread, all_values, dirty_set,
  invalid_phases, validity_of, checkpoint_validity_by_phase,
}
use graph_skill_runtime.Checkpoint.Taint.{Tainted, is_dirty, IsSpread, spread-IsSpread}
use graph_skill_runtime.Checkpoint.Downstream.{downstream_lem}

module _ (compiled : Compiled) (dirty_phase_ids : List String) where
  abbrev dirty : List String
  dirty = dirty_set dirty_phase_ids

  abbrev dependencies : Dict (List String)
  dependencies = phase_dependencies compiled

  abbrev children : Dict (List String)
  children = downstream_map dependencies

  abbrev begin : Spread
  begin = record { queue = dirty; invalid = dirty }

  abbrev end : Spread
  end = spread children (length dirty + length (all_values children)) begin

  start-IsSpread : IsSpread dependencies dirty children (downstream_lem compiled) begin
  start-IsSpread = record {
    sound = λ y m. is_dirty y m;
    started = λ y m. m;
    queued = λ y m. m;
    closed = λ x p m b. ground (arith, m);
  }

  end-IsSpread :
      IsSpread dependencies dirty children (downstream_lem compiled) end × (end.queue ≡ [])
  end-IsSpread =
      spread-IsSpread dependencies dirty children (downstream_lem compiled)
        (length dirty + length (all_values children)) begin
        (omega (arith, unplaced_bound (all_values children) dirty)) start-IsSpread

  Tainted-invalid : (p : String) → Tainted dependencies dirty p → has p end.invalid ≡ true
  unfolding has
  Tainted-invalid p (Tainted.is_dirty _ m) = end-IsSpread.0.started p m
  Tainted-invalid p (Tainted.downstream x _ t e n) = ground (
    arith,
    end-IsSpread.0.closed x p (Tainted-invalid x t),
    downstream_lem compiled x p,
    ap (has x) end-IsSpread.1,
  )

  has-invalid :
      (p : String)
      → (has p (invalid_phases compiled dirty_phase_ids) ≡ true) ↔ Tainted dependencies dirty p
  unfolding invalid_phases
  has-invalid p = (end-IsSpread.0.sound p, Tainted-invalid p)

get-validity_of :
    (invalid ps : List String) (d : Dict Bool) (p : String)
    → get (validity_of invalid ps d) p ≡ (if has p ps then some (not (has p invalid)) else get d p)
unfolding validity_of has
get-validity_of invalid [] d p = refl
get-validity_of invalid (q ∷ ps) d p = elim (Bool-cases (q == p)) [
  | inl e ↦ ground (
    arith,
    get-validity_of invalid ps (put d q (not (has q invalid))) p,
    get-put d q p (not (has q invalid)),
    ap (λ u. has u invalid) (same_of_eq q p e),
  )
  | inr e ↦ ground (
    arith,
    get-validity_of invalid ps (put d q (not (has q invalid))) p,
    get-put d q p (not (has q invalid)),
  )
]

-- A phase of the order gets a verdict, which is that its checkpoint is invalid exactly where the
-- phase is dirty or depends, in one step or more, on a dirty phase.
pub checkpoint_validity_by_phase_lem :
    (compiled : Compiled) (dirty_phase_ids : List String) (p : String)
    → has p (phase_order compiled) ≡ true
    → let verdict = get (checkpoint_validity_by_phase compiled dirty_phase_ids) p in
      ((verdict ≡ some true) ⊎ (verdict ≡ some false))
      × ((verdict ≡ some false)
          ↔ Tainted (phase_dependencies compiled) (dirty_set dirty_phase_ids) p)
unfolding checkpoint_validity_by_phase get
checkpoint_validity_by_phase_lem compiled ids p m =
    let invalid = invalid_phases compiled ids in
    let verdict = get-validity_of invalid (phase_order compiled) [] p in
    let both = has-invalid compiled ids p in
    (
      ground (arith, verdict),
      (λ e. both.0 (ground (arith, verdict)), λ t. ground (arith, verdict, both.1 t)),
    )
