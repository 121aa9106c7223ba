-- ===== src/Installer/Rollback.antt =====
-- What an aborted, a rolled back and a completed operation leave in the file system.
use std.Path.{fun_ext}
use graph_skill_runtime.Common.{
  ℕ, String, true, List, [], ◌∷◌, ◌++◌, Option, none, some, ◌≡◌, ◌⊎◌, inl, inr, refl, arith, sym,
  ap, ◌∙◌, eq_iff, Bool-cases,
}
use graph_skill_runtime.Installer.Disk.{
  Bytes, Node, file, Files, World, Disk, Error, Result, ok, err, store, content_node, bounded,
  read_bounded, write_or_remove, max_config_bytes,
}
use graph_skill_runtime.Installer.Apply.{
  Touch, confirm, replace, assert_unchanged, Step, write, check, run_steps, restore_read,
  restore_one, restore, raised_by, content_eq, bytes_eq,
}

-- No other process writes files. The operating system may still refuse any call.
abbrev pub IsQuiet : World → Type 0
IsQuiet w = (call : ℕ) (f : Files) → w.interfere call f ≡ f

bytes_eq_lem : (a b : Bytes) → bytes_eq a b ≡ true → a ≡ b
bytes_eq_lem [] [] h = refl
bytes_eq_lem [] (y ∷ b) h = ground arith
bytes_eq_lem (x ∷ a) [] h = ground arith
bytes_eq_lem (x ∷ a) (y ∷ b) h = ground (arith, bytes_eq_lem a b)

pub content_eq_lem : (a b : Option Bytes) → content_eq a b ≡ true → a ≡ b
content_eq_lem none none h = refl
content_eq_lem none (some b) h = ground arith
content_eq_lem (some a) none h = ground arith
content_eq_lem (some a) (some b) h = ground (arith, bytes_eq_lem a b)

bounded_lem :
    (path : String) (limit : ℕ) (node : Option Node) (c : Option Bytes)
    → bounded path limit node ≡ ok c
    → node ≡ content_node c
unfolding bounded
bounded_lem path limit none c h = ground arith
bounded_lem path limit (some Node.irregular) c h = ground arith
bounded_lem path limit (some (file bytes)) c h = ground arith

store_twice :
    (f : Files) (path : String) (a b : Option Node)
    → f path ≡ b
    → (p : String) → store (store f path a) path b p ≡ f p
store_twice f path a b h p = ground (arith, eq_iff path p)

pub Result-cases :
    {A : Type 0} (r : Result A) → ((a : A) × (r ≡ ok a)) ⊎ ((e : Error) × (r ≡ err e))
Result-cases (ok a) = inl (a, refl)
Result-cases (err e) = inr (e, refl)

append_empty : {A : Type 0} (xs ys : List A) → xs ++ ys ≡ [] → (xs ≡ []) × (ys ≡ [])
append_empty [] ys h = (refl, h)
append_empty (x ∷ xs) ys h = absurd (ground arith)

-- The writes taken back, from the last one.
unfoldable pub undo : List Touch → Files → Files
undo [] f = f
undo (t ∷ ts) f = undo ts (store f t.path (content_node t.before))

-- The writes of the steps, in order.
unfoldable pub redo : List Step → Files → Files
redo [] f = f
redo (write t ∷ rest) f = redo rest (store f t.path (content_node t.after))
redo (check path expected ∷ rest) f = redo rest f

-- What a read answers is what stands there at the call.
pub read_seen :
    (w : World) (path : String) (limit : ℕ) (d : Disk) (c : Option Bytes)
    → (read_bounded w path limit d).0 ≡ ok c
    → w.interfere d.calls d.files path ≡ content_node c
unfolding read_bounded
read_seen w path limit d c h = elim (Bool-cases (w.refuses d.calls)) [
  | inl r ↦ absurd (ground arith)
  | inr r ↦ bounded_lem path limit (w.interfere d.calls d.files path) c (ground arith)
]

module _ (w : World) (quiet : IsQuiet w) where
  pub read_keeps :
      (path : String) (limit : ℕ) (d : Disk) → (read_bounded w path limit d).1.files ≡ d.files
  unfolding read_bounded
  read_keeps path limit d = quiet d.calls d.files

  read_ok :
      (path : String) (limit : ℕ) (d : Disk) (c : Option Bytes)
      → (read_bounded w path limit d).0 ≡ ok c
      → d.files path ≡ content_node c
  read_ok path limit d c h =
      sym (ap (λ f. f path) (quiet d.calls d.files)) ∙ read_seen w path limit d c h

  write_ok :
      (path : String) (c : Option Bytes) (d : Disk)
      → (write_or_remove w path c d).0 ≡ ok tt
      → (write_or_remove w path c d).1.files ≡ store d.files path (content_node c)
  unfolding write_or_remove
  write_ok path c d h =
      ground (arith, ap (λ f. store f path (content_node c)) (quiet d.calls d.files))

  write_err :
      (path : String) (c : Option Bytes) (d : Disk) (e : Error)
      → (write_or_remove w path c d).0 ≡ err e
      → (write_or_remove w path c d).1.files ≡ d.files
  unfolding write_or_remove
  write_err path c d e h = ground (arith, quiet d.calls d.files)

  confirm_ok :
      (path : String) (expected : Option Bytes) (r : Result (Option Bytes))
      → confirm w path expected r ≡ ok tt
      → r ≡ ok expected
  unfolding confirm
  confirm_ok path expected (err e) h = ground arith
  confirm_ok path expected (ok current) h = ground (arith, content_eq_lem current expected)

  abbrev confirmed : Touch → Disk → Result (Unit {0})
  confirmed t d = confirm w t.path t.before (read_bounded w t.path max_config_bytes d).0

  confirmed_read :
      (t : Touch) (d : Disk)
      → confirmed t d ≡ ok tt
      → (read_bounded w t.path max_config_bytes d).0 ≡ ok t.before
  confirmed_read t d c = confirm_ok t.path t.before (read_bounded w t.path max_config_bytes d).0 c

  replace_refused :
      (t : Touch) (d : Disk) (e : Error)
      → confirmed t d ≡ err e
      → replace w t d ≡ (err e, (read_bounded w t.path max_config_bytes d).1)
  unfolding replace
  replace_refused t d e h = rw (h, replace) refl

  replace-confirmed :
      (t : Touch) (d : Disk)
      → confirmed t d ≡ ok tt
      → replace w t d
        ≡ write_or_remove w t.path t.after (read_bounded w t.path max_config_bytes d).1
  unfolding replace
  replace-confirmed t d h = rw (h, replace) refl

  pub replace_err :
      (t : Touch) (d : Disk) (e : Error)
      → (replace w t d).0 ≡ err e
      → (replace w t d).1.files ≡ d.files
  replace_err t d e h = elim (Result-cases (confirmed t d)) [
    | inl (x, c) ↦
        let d' = (read_bounded w t.path max_config_bytes d).1 in
        let q = replace-confirmed t d c in
        ap (λ y. y.1.files) q
        ∙ write_err t.path t.after d' e (sym (ap (λ y. y.0) q) ∙ h)
        ∙ read_keeps t.path max_config_bytes d
    | inr (e', c) ↦
        ap (λ y. y.1.files) (replace_refused t d e' c) ∙ read_keeps t.path max_config_bytes d
  ]

  pub replace_ok :
      (t : Touch) (d : Disk)
      → (replace w t d).0 ≡ ok tt
      → (d.files t.path ≡ content_node t.before)
        × ((replace w t d).1.files ≡ store d.files t.path (content_node t.after))
  replace_ok t d h = elim (Result-cases (confirmed t d)) [
    | inl (x, c) ↦
        let d' = (read_bounded w t.path max_config_bytes d).1 in
        let q = replace-confirmed t d c in
        (
          read_ok t.path max_config_bytes d t.before (confirmed_read t d c),
          ap (λ y. y.1.files) q
              ∙ write_ok t.path t.after d' (sym (ap (λ y. y.0) q) ∙ h)
              ∙ ap (λ f. store f t.path (content_node t.after))
                  (read_keeps t.path max_config_bytes d),
        )
    | inr (e', c) ↦
        let q = ap (λ y. y.0) (replace_refused t d e' c) in absurd (ground (arith, q, h))
  ]

  pub assert_unchanged_keeps :
      (path : String) (expected : Option Bytes) (d : Disk)
      → (assert_unchanged w path expected d).1.files ≡ d.files
  unfolding assert_unchanged
  assert_unchanged_keeps path expected d = read_keeps path max_config_bytes d

  raised_by_ok :
      (q : Result (Unit {0}) × Disk)
      → (raised_by w q).0 ≡ []
      → (q.0 ≡ ok tt) × ((raised_by w q).1 ≡ q.1)
  unfolding raised_by
  raised_by_ok (ok u, d) h = (refl, refl)
  raised_by_ok (err e, d) h = absurd (ground arith)

  restore_read_ok :
      (t : Touch) (r : Result (Option Bytes)) (d : Disk)
      → (restore_read w t r d).0 ≡ []
      → (restore_read w t r d).1.files ≡ store d.files t.path (content_node t.before)
  unfolding restore_read
  restore_read_ok t (err e) d h = absurd (ground arith)
  restore_read_ok t (ok c) d h =
      let q = write_or_remove w t.path t.before d in
      elim (Bool-cases (content_eq c t.after)) [
        | inl same ↦
            let back : restore_read w t (ok c) d ≡ raised_by w q = ground arith in
            let (done, at) = raised_by_ok q (sym (ap (λ y. y.0) back) ∙ h) in
            ap (λ y. y.1.files) back ∙ ap (λ y. y.files) at ∙ write_ok t.path t.before d done
        | inr differs ↦ absurd (ground arith)
      ]

  pub restore_one_ok :
      (t : Touch) (d : Disk)
      → (restore_one w t d).0 ≡ []
      → (restore_one w t d).1.files ≡ store d.files t.path (content_node t.before)
  unfolding restore_one
  restore_one_ok t d h =
      let (r, d') = read_bounded w t.path max_config_bytes d in
      restore_read_ok t r d' h
      ∙ ap (λ f. store f t.path (content_node t.before)) (read_keeps t.path max_config_bytes d)

  -- Where a rollback reports no failure, the writes are taken back.
  pub restore_ok :
      (ts : List Touch) (d : Disk)
      → (restore w ts d).0 ≡ []
      → (restore w ts d).1.files ≡ undo ts d.files
  unfolding restore undo
  restore_ok [] d h = refl
  restore_ok (t ∷ ts) d h =
      let (first, d') = restore_one w t d in
      let (more, d'') = restore w ts d' in
      let (a, b) = append_empty first more h in
      restore_ok ts d' b ∙ ap (undo ts) (restore_one_ok t d a)

  pub undo_replaced :
      (t : Touch) (d : Disk)
      → (replace w t d).0 ≡ ok tt
      → store (replace w t d).1.files t.path (content_node t.before) ≡ d.files
  undo_replaced t d h =
      let (before, after) = replace_ok t d h in
      ap (λ f. store f t.path (content_node t.before)) after
      ∙ fun_ext (store_twice d.files t.path (content_node t.after) (content_node t.before) before)

  -- What was touched can be taken back, at every step.
  pub run_steps-undo :
      (steps : List Step) (touched : List Touch) (d : Disk)
      → undo (run_steps w steps touched d).1 (run_steps w steps touched d).2.files
        ≡ undo touched d.files
  unfolding run_steps undo
  run_steps-undo [] touched d = refl
  run_steps-undo (write t ∷ rest) touched d = elim (Result-cases (replace w t d).0) [
    | inl (x, h) ↦
        rw (h, run_steps)
          (run_steps-undo rest (t ∷ touched) (replace w t d).1
            ∙ ap (undo touched) (undo_replaced t d h))
    | inr (e, h) ↦ rw (h, run_steps) (ap (undo touched) (replace_err t d e h))
  ]
  run_steps-undo (check path expected ∷ rest) touched d =
      let kept = assert_unchanged_keeps path expected d in
      elim (Result-cases (assert_unchanged w path expected d).0) [
        | inl (x, h) ↦
            rw (h, run_steps)
              (run_steps-undo rest touched (assert_unchanged w path expected d).1
                ∙ ap (undo touched) kept)
        | inr (e, h) ↦ rw (h, run_steps) (ap (undo touched) kept)
      ]

  -- The steps that end well leave what they write.
  pub run_steps-redo :
      (steps : List Step) (touched : List Touch) (d : Disk)
      → (run_steps w steps touched d).0 ≡ ok tt
      → (run_steps w steps touched d).2.files ≡ redo steps d.files
  unfolding run_steps redo
  run_steps-redo [] touched d h = refl
  run_steps-redo (write t ∷ rest) touched d h = elim (Result-cases (replace w t d).0) [
    | inl (x, r) ↦
        rw (r, run_steps)
          (run_steps-redo rest (t ∷ touched) (replace w t d).1 (ground (arith, h, r))
            ∙ ap (redo rest) (replace_ok t d r).1)
    | inr (e, r) ↦ absurd (ground (arith, h, r))
  ]
  run_steps-redo (check path expected ∷ rest) touched d h =
      let kept = assert_unchanged_keeps path expected d in
      elim (Result-cases (assert_unchanged w path expected d).0) [
        | inl (x, r) ↦
            rw (r, run_steps)
              (run_steps-redo rest touched (assert_unchanged w path expected d).1
                  (ground (arith, h, r))
                ∙ ap (redo rest) kept)
        | inr (e, r) ↦ absurd (ground (arith, h, r))
      ]
