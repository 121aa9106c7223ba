-- ===== src/Writers/Quiet.antt =====
-- What a check of the writers that reports nothing says of one pair of phases.
use graph_skill_runtime.Common.{
  String, true, false, not, ◌&&◌, ◌||◌, Option, none, some, List, [], ◌∷◌, map, ◌≡◌, ◌≢◌, refl, sym,
  ◌∙◌, ap, arith, ◌==◌, eq_iff, if◌then◌else◌, or_else, is_empty, keep, Bool-cases, inl, inr, ◌⊎◌,
  same_of_eq,
}
use mathlib.Core.Path.{subst}
use graph_skill_runtime.Common.Lists.{append_left, append_right, map_empty}
use graph_skill_runtime.Common.Dict.{Dict, get, put, get-put}
use graph_skill_runtime.Common.Names.{has, has-keep, has-sorted, sorted, entries}
use graph_skill_runtime.Writers.{
  PhaseDocument, WriteDiag, by_name, output_keys, overlap, report_doc, pair_conflicts, conflicts_of,
  all_conflicts, overwrites_of, all_overwrites, phase_declared_output_keys, write_conflict,
  overwrite_unauthorized,
}

has-overlap : (k : String) (xs ys : List String) → has k (overlap xs ys) ≡ (has k ys && has k xs)
unfolding overlap
has-overlap k xs ys = has-keep (λ n. has n ys) k xs

abbrev lift {ℓ} : {A : Type ℓ} → (PhaseDocument → A) → Option PhaseDocument → Option A
lift value none = none
lift value (some doc) = some (value doc)

-- Two dictionaries by name agree on which document is the last of its name.
get-by_name {ℓ} :
    {A : Type ℓ} (value : PhaseDocument → A) (docs : List PhaseDocument) (d : Dict A)
    (d' : Dict PhaseDocument) (n : String)
    → get d n ≡ lift value (get d' n)
    → get (by_name value docs d) n ≡ lift value (get (by_name (λ doc. doc) docs d') n)
unfolding by_name
get-by_name value [] d d' n h = h
get-by_name value (doc ∷ docs) d d' n h =
    get-by_name value docs (put d doc.phase_name (value doc)) (put d' doc.phase_name doc) n
      (ground (arith, h, get-put d doc.phase_name n (value doc), get-put d' doc.phase_name n doc))

-- docs_by_name
abbrev pub docs_by_name : List PhaseDocument → Dict PhaseDocument
docs_by_name docs = by_name (λ doc. doc) docs []

pub declared_keys :
    (docs : List PhaseDocument) (doc : PhaseDocument) (n : String)
    → get (docs_by_name docs) n ≡ some doc
    → entries (phase_declared_output_keys docs) n ≡ output_keys doc
unfolding phase_declared_output_keys get
declared_keys docs doc n h =
    ap (or_else []) (get-by_name output_keys docs [] [] n refl ∙ ap (lift output_keys) h)

some_injective {ℓ} : {A : Type ℓ} {x y : A} → some x ≡ some y → x ≡ y
some_injective {A} {x} {y} h = ap (or_else x) h

has_some : (k : String) (xs : List String) → has k xs ≡ true → is_empty xs ≡ false
unfolding has
has_some k [] h = absurd (ground arith)
has_some k (x ∷ xs) h = refl

module _ (conflicts : String → String → List WriteDiag) where
  conflicts_empty :
      (first y : String) (names : List String)
      → conflicts_of conflicts first names ≡ []
      → has y names ≡ true
      → conflicts first y ≡ []
  unfolding conflicts_of has
  conflicts_empty first y [] q h = absurd (ground arith)
  conflicts_empty first y (n ∷ names) q h =
      let rest = conflicts_of conflicts first names in
      elim (Bool-cases (n == y)) [
        | inl e ↦
            ap (conflicts first) (sym (same_of_eq n y e)) ∙ append_left (conflicts first n) rest q
        | inr e ↦
            conflicts_empty first y names (append_right (conflicts first n) rest q) (ground arith)
      ]

  pub all_conflicts_empty :
      (x y : String) (names : List String)
      → all_conflicts conflicts names ≡ []
      → x ≢ y
      → has x names ≡ true
      → has y names ≡ true
      → (conflicts x y ≡ []) ⊎ (conflicts y x ≡ [])
  unfolding all_conflicts has
  all_conflicts_empty x y [] q n hx hy = absurd (ground arith)
  all_conflicts_empty x y (z ∷ names) q n hx hy =
      let here = append_left (conflicts_of conflicts z names) (all_conflicts conflicts names) q in
      let later = append_right (conflicts_of conflicts z names) (all_conflicts conflicts names) q in
      elim (Bool-cases (z == x)) [
        | inl e ↦
            let same = same_of_eq z x e in
            let other : has y names ≡ true = ground (arith, eq_iff z y) in
            inl (ap (λ u. conflicts u y) (sym same) ∙ conflicts_empty z y names here other)
        | inr e ↦ elim (Bool-cases (z == y)) [
          | inl f ↦
              let same = same_of_eq z y f in
              inr
                (ap (λ u. conflicts u x) (sym same) ∙ conflicts_empty z x names here (ground arith))
          | inr f ↦ all_conflicts_empty x y names later n (ground arith) (ground arith)
        ]
      ]

module _ (ancestors keys : Dict (List String)) where
  pub pair_ordered :
      (docs : Dict PhaseDocument) (x y k : String) (doc : PhaseDocument)
      → pair_conflicts ancestors keys docs x y ≡ []
      → get docs y ≡ some doc
      → has k (entries keys x) ≡ true
      → has k (entries keys y) ≡ true
      → (has x (entries ancestors y) || has y (entries ancestors x)) ≡ true
  unfolding pair_conflicts report_doc has
  pair_ordered docs x y k doc q g hx hy =
      elim (Bool-cases (has x (entries ancestors y) || has y (entries ancestors x))) [
        | inl h ↦ h
        | inr h ↦
            let both = overlap (entries keys x) (entries keys y) in
            let listed : map (λ key. write_conflict doc.path x y key) (sorted both) ≡ [] =
              ground arith in
            let no_keys = map_empty (λ key. write_conflict doc.path x y key) (sorted both) listed in
            absurd (
              ground (
                arith,
                has-overlap k (entries keys x) (entries keys y),
                has-sorted k both,
                ap (has k) no_keys,
              ))
      ]

  overwrite_allowed :
      (doc : PhaseDocument) (names : List String) (x k : String)
      → overwrites_of keys doc names ≡ []
      → has x names ≡ true
      → has k (entries keys doc.phase_name) ≡ true
      → has k (entries keys x) ≡ true
      → has k doc.ast.allow_sequential_overwrite ≡ true
  unfolding overwrites_of has
  overwrite_allowed doc [] x k q m hd hx = absurd (ground arith)
  overwrite_allowed doc (a ∷ names) x k q m hd hx =
      let both = overlap (entries keys doc.phase_name) (entries keys a) in
      let banned = keep (λ key. not (has key doc.ast.allow_sequential_overwrite)) both in
      let found = map (λ key. overwrite_unauthorized doc.path doc.phase_name key a) banned in
      elim (Bool-cases (a == x)) [
        | inl e ↦
            let no_keys = map_empty _ banned (append_left found (overwrites_of keys doc names) q) in
            ground (
              arith,
              has-keep (λ key. not (has key doc.ast.allow_sequential_overwrite)) k both,
              has-overlap k (entries keys doc.phase_name) (entries keys a),
              ap (has k) no_keys,
              ap (λ u. has k (entries keys u)) (same_of_eq a x e),
            )
        | inr e ↦
            overwrite_allowed doc names x k (append_right found (overwrites_of keys doc names) q)
              (ground arith) hd hx
      ]

  -- What the document writes over the phase x it may write over.
  abbrev pub IsAllowed : String → String → PhaseDocument → String → Type 0
  IsAllowed x k doc n =
      has x (entries ancestors n) ≡ true
      → has k (entries keys n) ≡ true
      → has k (entries keys x) ≡ true
      → has k doc.ast.allow_sequential_overwrite ≡ true

  IsAllowed-here :
      (doc : PhaseDocument) (docs : List PhaseDocument) (x k : String)
      → all_overwrites ancestors keys (doc ∷ docs) ≡ []
      → IsAllowed x k doc doc.phase_name
  unfolding all_overwrites has
  IsAllowed-here doc docs x k q ha hn hx =
      let found = overwrites_of keys doc (entries ancestors doc.phase_name) in
      let written = entries keys doc.phase_name in
      let quiet =
        append_left (if is_empty written then [] else found) (all_overwrites ancestors keys docs)
          q in
      let full : is_empty written ≡ false = has_some k written hn in
      overwrite_allowed doc (entries ancestors doc.phase_name) x k (ground (arith, quiet, full)) ha
        hn hx

  pub all_overwrites_empty :
      (docs : List PhaseDocument) (d : Dict PhaseDocument) (doc : PhaseDocument) (n x k : String)
      → all_overwrites ancestors keys docs ≡ []
      → get (by_name (λ e. e) docs d) n ≡ some doc
      → (get d n ≡ some doc) ⊎ IsAllowed x k doc n
  unfolding all_overwrites by_name
  all_overwrites_empty [] d doc n x k q g = inl g
  all_overwrites_empty (e ∷ docs) d doc n x k q g =
      let rest = all_overwrites ancestors keys docs in
      let later =
        all_overwrites_empty docs (put d e.phase_name e) doc n x k (append_right _ rest q) g in
      elim later [
        | inr h ↦ inr h
        | inl h ↦ elim (Bool-cases (e.phase_name == n)) [
          | inr f ↦ inl (ground (arith, h, get-put d e.phase_name n e))
          | inl f ↦
              let same : e ≡ doc = some_injective (ground (arith, h, get-put d e.phase_name n e)) in
              let named = same_of_eq e.phase_name n f in
              let here = IsAllowed-here e docs x k q in
              inr (
                subst (IsAllowed x k doc) named
                  (subst (λ u. IsAllowed x k u e.phase_name) same here))
        ]
      ]
