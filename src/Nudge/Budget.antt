-- ===== src/Nudge/Budget.antt =====
-- The budgets over any sequence of gate consultations.
use graph_skill_runtime.Common.{
  ℕ, suc, ◌+◌, ◌*◌, ◌≤◌, String, Bool, true, false, List, [], ◌∷◌, Option, some, ◌≡◌, ◌&&◌, refl,
  arith, if◌then◌else◌, Bool-cases, inl, inr, ◌||◌, ◌==◌,
}
use graph_skill_runtime.Nudge.{
  NudgeKind, planning, selfcheck, standard, NudgeText, NudgeDecision, NudgePolicy, FinishPayload,
  consume, spend, try_selfcheck, try_planning, try_standard, no_nudge, echoed,
  has_structured_selfcheck, status_is, selfcheck_nudge, planning_nudge, build_standard_nudge_text,
}

-- One consultation of the policy, with the arguments that its adapter passes.
pub data Gate : Type 0 where
  selfcheck_gate : FinishPayload → Gate
  planning_gate : (latest_content : String) (has_tool_calls has_plan : Bool) → Gate
  standard_gate : (latest_content : String) (has_tool_calls : Bool) → Gate

unfoldable pub consult : Gate → NudgePolicy → NudgePolicy × NudgeDecision
consult (selfcheck_gate f) p = try_selfcheck f p
consult (planning_gate c t k) p = try_planning c t k p
consult (standard_gate c t) p = try_standard c t p

unfoldable pub decisions : List Gate → NudgePolicy → List NudgeDecision
decisions [] p = []
decisions (g ∷ gs) p = let (p', d) = consult g p in d ∷ decisions gs p'

unfoldable pub after : List Gate → NudgePolicy → NudgePolicy
after [] p = p
after (g ∷ gs) p = after gs (consult g p).0

abbrev kind_is : NudgeKind → Option NudgeKind → Bool
kind_is planning (some planning) = true
kind_is selfcheck (some selfcheck) = true
kind_is standard (some standard) = true
kind_is _ _ = false

-- The decisions of one kind that cost a unit of budget.
abbrev pub spent : NudgeKind → List NudgeDecision → ℕ
spent kind [] = 0
spent kind (d ∷ ds) =
    let rest = spent kind ds in if d.counted && kind_is kind d.kind then suc rest else rest

pub record IsWithin (p : NudgePolicy) : Type 0 where
  pub total_is : p.total ≡ p.planning_count + p.selfcheck_count + p.standard_count
  pub planning_le : p.planning_count ≤ p.max_nudges
  pub selfcheck_le : p.selfcheck_count ≤ p.max_nudges
  pub standard_le : p.standard_count ≤ p.max_nudges
  pub total_le : p.total ≤ p.max_nudges * 2

spend-IsWithin :
    (kind : NudgeKind) (text : ℕ → NudgeText) (p : NudgePolicy)
    → IsWithin p
    → IsWithin (spend kind text p).0
unfolding spend consume
spend-IsWithin planning text p w = ground arith
spend-IsWithin _ text p w = ground arith

spend-max_nudges :
    (kind : NudgeKind) (text : ℕ → NudgeText) (p : NudgePolicy)
    → (spend kind text p).0.max_nudges ≡ p.max_nudges
unfolding spend consume
spend-max_nudges planning text p = ground arith
spend-max_nudges _ text p = ground arith

spend-uncounted :
    (kind : NudgeKind) (text : ℕ → NudgeText) (p : NudgePolicy)
    → (spend kind text p).1.counted ≡ false
    → (spend kind text p).0 ≡ p
unfolding spend consume
spend-uncounted kind text p h = ground arith

-- A consultation either leaves the policy alone and costs nothing, or is a spending gate.
pub data Consulted (p : NudgePolicy) (r : NudgePolicy × NudgeDecision) : Type 0 where
  silent : (d : NudgeDecision) → d.counted ≡ false → r ≡ (p, d) → Consulted p r
  spending : (kind : NudgeKind) (text : ℕ → NudgeText) → r ≡ spend kind text p → Consulted p r

pub consult-Consulted : (g : Gate) (p : NudgePolicy) → Consulted p (consult g p)
unfolding consult try_selfcheck try_planning try_standard
consult-Consulted (selfcheck_gate f) p =
    elim (Bool-cases (status_is "failed" f.schema_validation)) [
      | inl failed ↦ silent (echoed f p) refl (ground arith)
      | inr unfailed ↦ elim (Bool-cases (has_structured_selfcheck f)) [
        | inl clear ↦ silent no_nudge refl (ground arith)
        | inr unclear ↦ spending selfcheck (λ _. selfcheck_nudge) (ground arith)
      ]
    ]
consult-Consulted (planning_gate c t k) p = elim (Bool-cases (c == "" || t || k)) [
  | inl off ↦ silent no_nudge refl (ground arith)
  | inr on ↦ spending planning (λ _. planning_nudge) (ground arith)
]
consult-Consulted (standard_gate c t) p = elim (Bool-cases (c == "" || t)) [
  | inl off ↦ silent no_nudge refl (ground arith)
  | inr on ↦ spending standard (λ count. build_standard_nudge_text count c) (ground arith)
]

pub consult-IsWithin : (g : Gate) (p : NudgePolicy) → IsWithin p → IsWithin (consult g p).0
consult-IsWithin g p w = elim (consult-Consulted g p) [
  | silent d free e ↦ rw e w
  | spending kind text e ↦ rw e (spend-IsWithin kind text p w)
]

pub consult-max_nudges : (g : Gate) (p : NudgePolicy) → (consult g p).0.max_nudges ≡ p.max_nudges
consult-max_nudges g p = elim (consult-Consulted g p) [
  | silent d free e ↦ rw e
  | spending kind text e ↦ rw e (spend-max_nudges kind text p)
]

-- A consultation that does not count leaves the policy as it was; so a gate that finds its budget
-- spent takes nothing from the others.
pub consult-uncounted :
    (g : Gate) (p : NudgePolicy) → (consult g p).1.counted ≡ false → (consult g p).0 ≡ p
consult-uncounted g p free = elim (consult-Consulted g p) [
  | silent d _ e ↦ rw e
  | spending kind text e ↦ rw e (spend-uncounted kind text p (rw e at free))
]
