-- ===== src/HostNative/Ordered.antt =====
-- An Agent phase that is supported is ordered with every other phase.
use graph_skill_runtime.Common.{
  String, true, false, not, ◌&&◌, ◌||◌, none, List, [], ◌∷◌, map, ◌≡◌, ◌≢◌, refl, sym, ap, ◌∙◌,
  arith, ◌==◌, eq_iff, if◌then◌else◌, is_some, is_empty, keep, inl, inr, ◌⊎◌, Bool-cases,
  Option-cases, same_of_eq, eq_of_ne,
}
use graph_skill_runtime.Common.Dict.{Dict, get, put}
use graph_skill_runtime.Common.Names.{has, add_all, has-keep, has-reverse, entries}
use graph_skill_runtime.Common.Walk.{From, has-closure}
use mathlib.Core.List.{reverse}
use graph_skill_runtime.HostNative.{
  GraphNode, PhaseDeclaration, CompiledSkill, supported, agent_nodes, dependencies_of, pending_walk,
  ancestors, ancestor_map, incomparable, check_agents, host_native_agent_phases,
}

-- The phase u precedes p by declared dependencies.
pub data Precedes (dependencies : Dict (List String)) (p : String) : String → Type 0 where
  direct : (u : String) → has u (entries dependencies p) ≡ true → Precedes dependencies p u
  further :
      (v u : String)
      → Precedes dependencies p v
      → has u (entries dependencies v) ≡ true
      → Precedes dependencies p u

module _ (dependencies : Dict (List String)) where
  Precedes-From :
      (p u : String)
      → From (pending_walk dependencies) (reverse (entries dependencies p)) u
      → Precedes dependencies p u
  unfolding pending_walk
  Precedes-From p u (From.start _ m s) =
      Precedes.direct u (sym (has-reverse u (entries dependencies p)) ∙ m)
  Precedes-From p u (From.step v _ t e s) = Precedes.further v u (Precedes-From p v t) e

  entries-map :
      (pairs : Dict (List String)) (p u : String)
      → has u (entries (ancestor_map dependencies pairs) p) ≡ true
      → has u (ancestors dependencies p) ≡ true
  unfolding ancestor_map get has
  entries-map [] p u h = absurd (ground arith)
  entries-map ((q, deps) ∷ rest) p u h = elim (Bool-cases (q == p)) [
    | inl e ↦ ground (arith, ap (λ v. has u (ancestors dependencies v)) (same_of_eq q p e))
    | inr e ↦ entries-map rest p u (ground arith)
  ]

  Precedes-map :
      (p u : String)
      → has u (entries (ancestor_map dependencies dependencies) p) ≡ true
      → Precedes dependencies p u
  unfolding ancestors
  Precedes-map p u h = Precedes-From p u (
      (has-closure (pending_walk dependencies) (reverse (entries dependencies p)) u).0
        (entries-map dependencies p u h))

none_kept : (p : String) (xs : List String) → is_empty xs ≡ true → has p xs ≡ false
unfolding has
none_kept p [] h = refl
none_kept p (x ∷ xs) h = absurd (ground arith)

checked :
    (upstream : Dict (List String)) (names agents : List String) (agent p : String)
    → check_agents upstream names agents ≡ none
    → has agent agents ≡ true
    → has p names ≡ true
    → (p == agent) ≡ false
    → (has p (entries upstream agent) || has agent (entries upstream p)) ≡ true
unfolding check_agents incomparable has
checked upstream names [] agent p q m n d = absurd (ground arith)
checked upstream names (a ∷ agents) agent p q m n d =
    let test = λ (a : String) (p : String).
      not (p == a) && not (has p (entries upstream a)) && not (has a (entries upstream p)) in
    elim (Bool-cases (is_empty (incomparable upstream a names))) [
      | inr f ↦ absurd (ground arith)
      | inl f ↦ elim (Bool-cases (a == agent)) [
        | inr e ↦ checked upstream names agents agent p (ground arith) (ground arith) n d
        | inl e ↦
            let kept = none_kept p (incomparable upstream a names) f in
            let none_parallel : has p (incomparable upstream agent names) ≡ false =
              ap (λ v. has p (incomparable upstream v names)) (sym (same_of_eq a agent e)) ∙ kept in
            ground (arith, none_parallel, has-keep (test agent) p names)
      ]
    ]

has-keys_put {ℓ} :
    {A : Type ℓ} (d : Dict A) (k x : String) (v : A)
    → has x (map (λ e. e.0) (put d k v)) ≡ (k == x || has x (map (λ e. e.0) d))
unfolding put has
has-keys_put [] k x v = refl
has-keys_put ((j, w) ∷ d) k x v =
    ground (arith, has-keys_put d k x v, eq_iff j k, eq_iff j x, eq_iff k x)

declared_phases :
    (ps : List PhaseDeclaration) (d : Dict (List String)) (p : String)
    → (has p (map (λ q. q.id) ps) || has p (map (λ e. e.0) d)) ≡ true
    → has p (map (λ e. e.0) (dependencies_of ps d)) ≡ true
unfolding dependencies_of has
declared_phases [] d p h = ground arith
declared_phases (q ∷ ps) d p h =
    declared_phases ps (put d q.id (add_all (keep (λ n. not (n == "input")) q.depends_on) [])) p (
      ground
        (arith, has-keys_put d q.id p (add_all (keep (λ n. not (n == "input")) q.depends_on) [])))

agent_phases :
    (nodes : List GraphNode) (d : Dict GraphNode) (a : String)
    → (has a (map (λ n. n.phase_name) (keep (λ n. is_some n.ast) nodes))
        || has a (map (λ e. e.0) d))
      ≡ true
    → has a (map (λ e. e.0) (agent_nodes nodes d)) ≡ true
unfolding agent_nodes has
agent_phases [] d a h = ground arith
agent_phases (n ∷ nodes) d a h =
    agent_phases nodes (if is_some n.ast then put d n.phase_name n else d) a
      (ground (arith, has-keys_put d n.phase_name a n))

filled {ℓ} :
    {A : Type ℓ} (d : Dict A) (a : String) → has a (map (λ e. e.0) d) ≡ true → is_empty d ≡ false
unfolding has
filled [] a h = absurd (ground arith)
filled (e ∷ d) a h = refl

-- In a supported graph every other phase of the root graph precedes an Agent phase or follows it by
-- declared dependencies, so that no other branch runs while the host answers.
pub host_native_agent_phases_lem :
    (compiled : CompiledSkill) (phases : Dict GraphNode) (agent p : String)
    → host_native_agent_phases compiled ≡ supported phases
    → has agent (map (λ n. n.phase_name) (keep (λ n. is_some n.ast) compiled.nodes)) ≡ true
    → has p (map (λ q. q.id) compiled.phases) ≡ true
    → p ≢ agent
    → let dependencies = dependencies_of compiled.phases [] in
      Precedes dependencies agent p ⊎ Precedes dependencies p agent
unfolding host_native_agent_phases has
host_native_agent_phases_lem compiled phases agent p q ha hp n =
    let dependencies = dependencies_of compiled.phases [] in
    let upstream = ancestor_map dependencies dependencies in
    let names = map (λ e. e.0) dependencies in
    let agents = map (λ e. e.0) (agent_nodes compiled.nodes []) in
    let agent_in : has agent agents ≡ true =
      agent_phases compiled.nodes [] agent (ground (arith, ha)) in
    let p_in : has p names ≡ true = declared_phases compiled.phases [] p (ground (arith, hp)) in
    let some_agent = filled (agent_nodes compiled.nodes []) agent agent_in in
    let quiet : check_agents upstream names agents ≡ none =
      elim (Option-cases (check_agents upstream names agents)) [
        | inl e ↦ e
        | inr (x, e) ↦ absurd (ground (arith, q, some_agent))
      ] in
    let ordered = checked upstream names agents agent p quiet agent_in p_in (eq_of_ne p agent n) in
    elim (Bool-cases (has p (entries upstream agent))) [
      | inl e ↦ inl (Precedes-map dependencies agent p e)
      | inr e ↦ inr (Precedes-map dependencies p agent (ground arith))
    ]
