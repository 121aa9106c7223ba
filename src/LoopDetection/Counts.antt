-- ===== src/LoopDetection/Counts.antt =====
-- What the sliding window counts, and when a diagnostic is given.
use graph_skill_runtime.Common.{
  ℕ, suc, ◌+◌, ◌≤◌, ◌<◌, String, true, false, List, [], ◌∷◌, Option, none, some, ◌≡◌, arith, leb,
  eq_iff, eq_refl, All, ◌∙◌, ap, sym, if◌then◌else◌, Option-cases, Bool-cases, inl, inr,
}
use graph_skill_runtime.Json.{Json}
use graph_skill_runtime.LoopDetection.{
  Message, Signature, same, Counts, count_of, bump, signature_counts, first_at_least,
  find_repeated_signature, LoopDetection, repeated, after_model, is_last,
}

-- How often a signature stands in a list.
pub occurrences : Signature → List Signature → ℕ
occurrences s [] = 0
occurrences s (t ∷ ts) = if same t s then suc (occurrences s ts) else occurrences s ts

count_of-bump :
    (counts : Counts) (s t : Signature)
    → count_of (bump s counts) t ≡ (if same s t then suc (count_of counts t) else count_of counts t)
unfolding count_of bump
count_of-bump [] (a, b) (c, d) = ground (arith, eq_iff a c, eq_iff b d)
count_of-bump (((x, y), n) ∷ counts) (a, b) (c, d) = ground (
  arith,
  eq_iff a c,
  eq_iff b d,
  eq_iff x a,
  eq_iff y b,
  eq_iff x c,
  eq_iff y d,
  count_of-bump counts (a, b) (c, d),
)

count_of-signature_counts :
    (ss : List Signature) (counts : Counts) (t : Signature)
    → count_of (signature_counts ss counts) t ≡ occurrences t ss + count_of counts t
unfolding signature_counts occurrences
count_of-signature_counts [] counts t = omega arith
count_of-signature_counts (s ∷ ss) counts t =
    ground (arith, count_of-signature_counts ss (bump s counts) t, count_of-bump counts s t)

same_sym : (s t : Signature) → same s t ≡ false → same t s ≡ false
same_sym (a, b) (c, d) h = ground (arith, h, eq_iff a c, eq_iff b d, eq_iff c a, eq_iff d b)

same_trans : (s t u : Signature) → same s t ≡ true → same t u ≡ false → same s u ≡ false
same_trans (a, b) (c, d) (x, y) h k =
    ground (arith, h, k, eq_iff a c, eq_iff b d, eq_iff c x, eq_iff d y, eq_iff a x, eq_iff b y)

some_first :
    (u s : Signature) (m n : ℕ)
    → ◌≡◌ {A = Option (Signature × ℕ)} (some (u, m)) (some (s, n))
    → u ≡ s
some_first u s m n h = ap (λ x. elim x [ some y ↦ y.0 | none ↦ u ]) h

some_second :
    (u s : Signature) (m n : ℕ)
    → ◌≡◌ {A = Option (Signature × ℕ)} (some (u, m)) (some (s, n))
    → m ≡ n
some_second u s m n h = ap (λ x. elim x [ some y ↦ y.1 | none ↦ m ]) h

same_refl : (s : Signature) → same s s ≡ true
same_refl (a, b) = ground (arith, eq_refl a, eq_refl b)

Fresh : Signature → Counts → Type 0
Fresh t = All (λ e. same e.0 t ≡ false)

Distinct : Counts → Type 0
Distinct [] = Unit
Distinct (e ∷ counts) = Fresh e.0 counts × Distinct counts

nothing-Distinct : Distinct []
unfolding Distinct
nothing-Distinct = tt

bump-Fresh :
    (counts : Counts) (s t : Signature)
    → Fresh t counts
    → same s t ≡ false
    → Fresh t (bump s counts)
unfolding bump Fresh
bump-Fresh [] s t fresh h = (h, tt)
bump-Fresh ((u, n) ∷ counts) s t (here, rest) h = elim (Bool-cases (same u s)) [
  | inl e ↦ rw (e, bump) (here, rest)
  | inr e ↦ rw (e, bump) (here, bump-Fresh counts s t rest h)
]

bump-Distinct : (counts : Counts) (s : Signature) → Distinct counts → Distinct (bump s counts)
unfolding bump Distinct Fresh
bump-Distinct [] s d = (tt, tt)
bump-Distinct ((u, n) ∷ counts) s (fresh, d) = elim (Bool-cases (same u s)) [
  | inl e ↦ rw (e, bump) (fresh, d)
  | inr e ↦ rw (e, bump) (bump-Fresh counts s u fresh (same_sym u s e), bump-Distinct counts s d)
]

signature_counts-Distinct :
    (ss : List Signature) (counts : Counts)
    → Distinct counts
    → Distinct (signature_counts ss counts)
unfolding signature_counts
signature_counts-Distinct [] counts d = d
signature_counts-Distinct (s ∷ ss) counts d =
    signature_counts-Distinct ss (bump s counts) (bump-Distinct counts s d)

first_at_least-ne :
    (k : ℕ) (counts : Counts) (t s : Signature) (n : ℕ)
    → Fresh t counts
    → first_at_least k counts ≡ some (s, n)
    → same s t ≡ false
unfolding first_at_least Fresh
first_at_least-ne k [] t s n fresh h = absurd (ground (arith, h))
first_at_least-ne k ((u, m) ∷ counts) t s n (here, rest) h = elim (Bool-cases (leb k m)) [
  | inl e ↦
      let found : ◌≡◌ {A = Option (Signature × ℕ)} (some (u, m)) (some (s, n)) =
        ground (arith, h, e) in
      sym (ap (λ x. same x t) (some_first u s m n found)) ∙ here
  | inr e ↦ first_at_least-ne k counts t s n rest (ground (arith, h, e))
]

-- The entry that is found has its signature's count.
first_at_least-some :
    (k : ℕ) (counts : Counts) (s : Signature) (n : ℕ)
    → Distinct counts
    → first_at_least k counts ≡ some (s, n)
    → (count_of counts s ≡ n) × (k ≤ n)
unfolding first_at_least count_of Distinct
first_at_least-some k [] s n d h = absurd (ground (arith, h))
first_at_least-some k ((u, m) ∷ counts) s n (fresh, d) h = elim (Bool-cases (leb k m)) [
  | inl e ↦
      let found : ◌≡◌ {A = Option (Signature × ℕ)} (some (u, m)) (some (s, n)) =
        ground (arith, h, e) in
      let at = ap (λ x. same x s) (some_first u s m n found) ∙ same_refl s in
      let m_is = some_second u s m n found in (ground (arith, at, m_is), ground (arith, e, m_is))
  | inr e ↦
      let found : first_at_least k counts ≡ some (s, n) = ground (arith, h, e) in
      let differs = same_sym s u (first_at_least-ne k counts u s n fresh found) in
      let (count, enough) = first_at_least-some k counts s n d found in
      (ground (arith, differs, count), enough)
]

first_at_least-none :
    (k : ℕ) (counts : Counts) (s : Signature)
    → 0 < k
    → first_at_least k counts ≡ none
    → count_of counts s < k
unfolding first_at_least count_of
first_at_least-none k [] s pos h = omega arith
first_at_least-none k ((u, m) ∷ counts) s pos h = elim (Bool-cases (leb k m)) [
  | inl e ↦ absurd (ground (arith, h, e))
  | inr e ↦ ground (arith, h, e, first_at_least-none k counts s pos)
]

-- With a positive threshold: a signature that is found stands in the window as often as is said, and at
-- least as often as the threshold; where none is found, every signature stands there less often.
pub find_repeated_signature_lem :
    (ss : List Signature) (k : ℕ)
    → 0 < k
    → ((s : Signature) (n : ℕ)
        → find_repeated_signature ss k ≡ some (s, n)
        → (occurrences s ss ≡ n) × (k ≤ n))
      × (find_repeated_signature ss k ≡ none → (s : Signature) → occurrences s ss < k)
unfolding find_repeated_signature count_of
find_repeated_signature_lem ss k pos = (
  λ s n h.
      let (count, enough) =
        first_at_least-some k (signature_counts ss []) s n
          (signature_counts-Distinct ss [] nothing-Distinct) h in
      (omega (arith, count_of-signature_counts ss [] s, count), enough),
  λ h s.
      let below = first_at_least-none k (signature_counts ss []) s pos h in
      omega (arith, count_of-signature_counts ss [] s, below),
)

module _ (dumps : Json → String) where
  -- A diagnostic that was given for a history is not given for it again: the same call on the middleware
  -- that the first one leaves gives none and changes nothing.
  pub after_model_idem :
      (messages : List Message) (m : LoopDetection)
      → after_model dumps messages (after_model dumps messages m).0
        ≡ ((after_model dumps messages m).0, none)
  unfolding after_model
  after_model_idem messages m = elim (Option-cases (repeated dumps messages m)) [
    | inl n ↦ ground (arith, n)
    | inr ((s, k), e) ↦ elim (Bool-cases (is_last m.last_diagnostic_signature s)) [
      | inl l ↦ ground (arith, e, l)
      | inr l ↦ ground (arith, e, l, same_refl s)
    ]
  ]
