-- ===== src/Checkpoint/Downstream.antt =====
-- The downstream map has the dependencies turned round.
use graph_skill_runtime.Common.{
  String, Bool, true, false, not, ◌&&◌, ◌||◌, List, [], ◌∷◌, ◌≡◌, refl, ◌∙◌, ap, arith, ◌==◌,
  eq_iff, if◌then◌else◌, or_else, is_some, inl, inr, Bool-cases, Option-cases, same_of_eq,
}
use graph_skill_runtime.Common.Dict.{Dict, get, put, get-put}
use graph_skill_runtime.Common.Names.{has, has-add, add, entries}
use graph_skill_runtime.Checkpoint.{
  Compiled, TopologyRow, phase_order, phase_dependencies, row_dependencies, set_defaults,
  add_children, add_all_children, blank_children, downstream_map,
}

-- No key stands twice.
unfoldable pub is_keyed {ℓ} : {A : Type ℓ} → Dict A → Bool
unfolding get
is_keyed [] = true
is_keyed ((k, v) ∷ d) = not (is_some (get d k)) && is_keyed d

is_keyed-put {ℓ} :
    {A : Type ℓ} (d : Dict A) (k : String) (v : A) → is_keyed d ≡ true → is_keyed (put d k v) ≡ true
unfolding is_keyed put get
is_keyed-put [] k v h = refl
is_keyed-put ((j, w) ∷ d) k v h =
    ground (arith, is_keyed-put d k v, get-put d k j v, eq_iff k j, eq_iff j k)

is_keyed-row_dependencies :
    (rows : List TopologyRow) (d : Dict (List String))
    → is_keyed d ≡ true
    → is_keyed (row_dependencies rows d) ≡ true
unfolding row_dependencies
is_keyed-row_dependencies [] d h = h
is_keyed-row_dependencies (row ∷ rows) d h =
    is_keyed-row_dependencies rows _ (elim (Option-cases row.name) [
      | inl e ↦ rw e h
      | inr (name, e) ↦ elim (Option-cases row.depends_on) [
        | inl f ↦ rw (e, f) h
        | inr (deps, f) ↦ rw (e, f) (is_keyed-put d name deps h)
      ]
    ])

is_keyed-set_defaults :
    (ps : List String) (d : Dict (List String))
    → is_keyed d ≡ true
    → is_keyed (set_defaults ps d) ≡ true
unfolding set_defaults
is_keyed-set_defaults [] d h = h
is_keyed-set_defaults (p ∷ ps) d h =
    is_keyed-set_defaults ps _ (ground (arith, is_keyed-put d p []))

-- The pairs of the dict declare that p depends on x, which is not the input.
unfoldable pub declares : Dict (List String) → String → String → Bool
unfolding has
declares [] p x = false
declares ((phase, deps) ∷ rest) p x =
    (phase == p && has x deps && not (x == "input")) || declares rest p x

children-add :
    (phase : String) (deps : List String) (d : Dict (List String)) (x p : String)
    → has p (entries (add_children phase deps d) x)
      ≡ (has p (entries d x) || (phase == p && has x deps && not (x == "input")))
unfolding add_children has
children-add phase [] d x p = ground arith
children-add phase (dep ∷ deps) d x p =
    let old = entries d dep in
    let next = if dep == "input" then d else put d dep (add phase old) in
    ground (
      arith,
      children-add phase deps next x p,
      get-put d dep x (add phase old),
      has-add p phase old,
      eq_iff dep x,
      eq_iff dep "input",
      eq_iff x "input",
    )

children-add_all :
    (pairs d : Dict (List String)) (x p : String)
    → has p (entries (add_all_children pairs d) x) ≡ (has p (entries d x) || declares pairs p x)
unfolding add_all_children declares
children-add_all [] d x p = ground arith
children-add_all ((phase, deps) ∷ rest) d x p =
    ground
      (arith, children-add_all rest (add_children phase deps d) x p, children-add phase deps d x p)

children-blank :
    (pairs : Dict (List String)) (x p : String) → has p (entries (blank_children pairs) x) ≡ false
unfolding blank_children has get
children-blank [] x p = refl
children-blank ((k, deps) ∷ rest) x p = ground (arith, children-blank rest x p)

declares-keyed :
    (d : Dict (List String)) (x p : String)
    → is_keyed d ≡ true
    → declares d p x ≡ (has x (entries d p) && not (x == "input"))
unfolding declares is_keyed get has
declares-keyed [] x p h = refl
declares-keyed ((k, deps) ∷ rest) x p h = elim (Bool-cases (k == p)) [
  | inl e ↦ ground (arith, declares-keyed rest x p, ap (λ u. get rest u) (same_of_eq k p e))
  | inr e ↦ ground (arith, declares-keyed rest x p)
]

pub downstream_lem :
    (compiled : Compiled) (x p : String)
    → has p (entries (downstream_map (phase_dependencies compiled)) x)
      ≡ (has x (entries (phase_dependencies compiled) p) && not (x == "input"))
unfolding downstream_map phase_dependencies is_keyed
downstream_lem compiled x p =
    let d = phase_dependencies compiled in
    let rows = row_dependencies (or_else [] compiled.phases) [] in
    let keyed : is_keyed d ≡ true =
      is_keyed-set_defaults (phase_order compiled) rows
        (is_keyed-row_dependencies (or_else [] compiled.phases) [] refl) in
    children-add_all d (blank_children d) x p
    ∙ ground (arith, children-blank d x p, declares-keyed d x p keyed)
