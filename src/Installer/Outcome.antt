-- ===== src/Installer/Outcome.antt =====
-- What an installer's operation leaves behind, by how it ends.
use graph_skill_runtime.Common.{
  ℕ, String, Bool, false, List, [], ◌∷◌, Option, ◌≡◌, ◌≢◌, inl, inr, refl, arith, ap, ◌∙◌,
  Bool-cases, length, true, ◌++◌, ◌==◌, ◌||◌, sym, same_of_eq, All,
}
use graph_skill_runtime.Installer.Disk.{
  Bytes, World, Disk, Error, Result, ok, err, content_node, read_bounded, max_config_bytes, Node,
  Files, write_or_remove, replaceable,
}
use graph_skill_runtime.Installer.Apply.{
  Touch, PreparedTarget, run_steps, Failure, restore_read, restore_one, restore, applied, aborted,
  rolled_back, conclude, apply, content_eq, steps_of, mutation_steps,
}
use graph_skill_runtime.Installer.Rollback.{
  IsQuiet, undo, redo, restore_ok, run_steps-undo, run_steps-redo, content_eq_lem, read_seen,
}

read_files :
    (w : World) (path : String) (limit : ℕ) (d : Disk)
    → (read_bounded w path limit d).1.files ≡ w.interfere d.calls d.files
unfolding read_bounded
read_files w path limit d = refl

module _ (w : World) where
  rolled_back_aborted :
      (e e' : Error) (q : List Failure × Disk)
      → (rolled_back w e q).0 ≡ aborted e'
      → (q.0 ≡ []) × ((rolled_back w e q).1 ≡ q.1)
  unfolding rolled_back
  rolled_back_aborted e e' ([], d) h = (refl, refl)
  rolled_back_aborted e e' (f ∷ fs, d) h = absurd (ground arith)

  rolled_back_unapplied :
      (e : Error) (q : List Failure × Disk) (m : ℕ) (c : Bool) → (rolled_back w e q).0 ≢ applied m c
  unfolding rolled_back
  rolled_back_unapplied e ([], d) m c h = ground arith
  rolled_back_unapplied e (f ∷ fs, d) m c h = ground arith

  conclude_aborted :
      (n : ℕ) (r : Result (Unit {0})) (touched : List Touch) (d : Disk) (e : Error)
      → IsQuiet w
      → (conclude w n r touched d).0 ≡ aborted e
      → (conclude w n r touched d).1.files ≡ undo touched d.files
  unfolding conclude
  conclude_aborted n (ok u) touched d e quiet h = absurd (ground arith)
  conclude_aborted n (err x) touched d e quiet h =
      let (a, b) = rolled_back_aborted x e (restore w touched d) h in
      ap (λ y. y.files) b ∙ restore_ok w quiet touched d a

  conclude_applied :
      (n m : ℕ) (c : Bool) (r : Result (Unit {0})) (touched : List Touch) (d : Disk)
      → (conclude w n r touched d).0 ≡ applied m c
      → (r ≡ ok tt) × ((conclude w n r touched d).1 ≡ d)
  unfolding conclude rolled_back
  conclude_applied n m c (ok u) touched d h = (refl, refl)
  conclude_applied n m c (err x) touched d h =
      absurd (rolled_back_unapplied x (restore w touched d) m c h)

-- When no other process writes files and `_apply` raises the error that stopped it, every file is as
-- it was before, whatever calls the operating system refused.
pub aborted_is_undone :
    (w : World) (targets : List PreparedTarget) (d : Disk) (e : Error)
    → IsQuiet w
    → (apply w targets d).0 ≡ aborted e
    → (apply w targets d).1.files ≡ d.files
unfolding apply undo
aborted_is_undone w targets d e quiet h =
    let (r, touched, d') = run_steps w (steps_of targets) [] d in
    conclude_aborted w (length (mutation_steps targets)) r touched d' e quiet h
    ∙ run_steps-undo w quiet (steps_of targets) [] d

-- When no other process writes files and `_apply` returns, the files are those before with every
-- write of the operation done, in its order, and nothing else changed.
pub applied_is_done :
    (w : World) (targets : List PreparedTarget) (d : Disk) (n : ℕ) (c : Bool)
    → IsQuiet w
    → (apply w targets d).0 ≡ applied n c
    → (apply w targets d).1.files ≡ redo (steps_of targets) d.files
unfolding apply
applied_is_done w targets d n c quiet h =
    let (r, touched, d') = run_steps w (steps_of targets) [] d in
    let (fine, at) = conclude_applied w (length (mutation_steps targets)) n c r touched d' h in
    ap (λ y. y.files) at ∙ run_steps-redo w quiet (steps_of targets) [] d fine

restore_read_foreign :
    (w : World) (t : Touch) (r : Result (Option Bytes)) (d : Disk)
    → ((c : Option Bytes) → r ≡ ok c → content_eq c t.after ≡ false)
    → ((restore_read w t r d).0 ≢ []) × ((restore_read w t r d).1 ≡ d)
unfolding restore_read
restore_read_foreign w t (err e) d h = (ground arith, refl)
restore_read_foreign w t (ok c) d h = let differs = h c refl in (ground arith, ground arith)

append_ne : (a b : List Failure) → a ≢ [] → a ++ b ≢ []
append_ne [] b h q = h refl
append_ne (y ∷ a) b h q = ground arith

append_ne_right : (a b : List Failure) → b ≢ [] → a ++ b ≢ []
append_ne_right [] b h q = h q
append_ne_right (y ∷ a) b h q = ground arith

-- A round of the rollback that reads something else than the operation wrote leaves every file as it
-- finds it and reports a failure.
pub foreign_content_is_kept :
    (w : World) (t : Touch) (d : Disk)
    → w.interfere d.calls d.files t.path ≢ content_node t.after
    → ((restore_one w t d).0 ≢ []) × ((restore_one w t d).1.files ≡ w.interfere d.calls d.files)
unfolding restore_one
foreign_content_is_kept w t d foreign =
    let (r, d') = read_bounded w t.path max_config_bytes d in
    let (reported, kept) = restore_read_foreign w t r d' (λ c h.
      elim (Bool-cases (content_eq c t.after)) [
        | inl same ↦ absurd (
            foreign (
              read_seen w t.path max_config_bytes d c h
              ∙ ap content_node (content_eq_lem c t.after same)))
        | inr differs ↦ differs
      ]) in
    (reported, ap (λ x. x.files) kept ∙ read_files w t.path max_config_bytes d)

-- Whether a rollback comes to a path.
abbrev pub comes_to : String → List Touch → Bool
comes_to path [] = false
comes_to path (t ∷ ts) = t.path == path || comes_to path ts

-- What other processes do leaves the content of a path.
abbrev pub LeavesAt : World → String → Option Node → Type 0
LeavesAt w path x = (n : ℕ) (f : Files) → f path ≡ x → w.interfere n f path ≡ x

module _ (w : World) (path : String) (x : Option Node) (leaves : LeavesAt w path x) where
  write_elsewhere :
      (p : String) (c : Option Bytes) (d : Disk)
      → (p == path) ≡ false
      → d.files path ≡ x
      → (write_or_remove w p c d).1.files path ≡ x
  unfolding write_or_remove
  write_elsewhere p c d elsewhere h =
      let after_others = leaves d.calls d.files h in
      elim (Bool-cases (w.refuses d.calls)) [
        | inl r ↦ ground (arith, after_others)
        | inr r ↦ elim (Bool-cases (replaceable (w.interfere d.calls d.files p))) [
          | inl q ↦ ground (arith, after_others)
          | inr q ↦ ground (arith, after_others)
        ]
      ]

  restore_elsewhere :
      (t : Touch) (d : Disk)
      → (t.path == path) ≡ false
      → d.files path ≡ x
      → (restore_one w t d).1.files path ≡ x
  unfolding restore_one restore_read
  restore_elsewhere t d elsewhere h =
      let (r, d') = read_bounded w t.path max_config_bytes d in
      let seen : d'.files path ≡ x =
        ap (λ (f : Files). f path) (read_files w t.path max_config_bytes d)
        ∙ leaves d.calls d.files h in
      let written = write_elsewhere t.path t.before d' elsewhere seen in
      ground (arith, seen, written)

  -- A file that holds something else than each of the operation's writes put there, and that no other
  -- process changes while the rollback runs, is kept by the whole rollback, whatever happens to the other
  -- files and whatever calls are refused; and a rollback that comes to it reports a failure.
  pub restore-keeps :
      (touched : List Touch)
      → All (λ t. t.path ≡ path → x ≢ content_node t.after) touched
      → (d : Disk) → d.files path ≡ x
      → ((restore w touched d).1.files path ≡ x)
        × (comes_to path touched ≡ true → (restore w touched d).0 ≢ [])
  unfolding restore
  restore-keeps [] f d h = (h, λ c. absurd (ground arith))
  restore-keeps (t ∷ ts) (foreign, fs) d h =
      let (failures, d') = restore_one w t d in
      elim (Bool-cases (t.path == path)) [
        | inl e ↦
            let same = same_of_eq t.path path e in
            let seen : w.interfere d.calls d.files path ≡ x = leaves d.calls d.files h in
            let (reported, kept) = foreign_content_is_kept w t d (λ q.
              foreign same
                (sym seen ∙ ap (λ (p : String). w.interfere d.calls d.files p) (sym same) ∙ q)) in
            let (rest, _) = restore-keeps ts fs d' (ap (λ (f : Files). f path) kept ∙ seen) in
            (rest, λ c. append_ne failures (restore w ts d').0 reported)
        | inr e ↦
            let (rest, more) = restore-keeps ts fs d' (restore_elsewhere t d e h) in
            (rest, λ c. append_ne_right failures (restore w ts d').0 (more (ground arith)))
      ]
