-- ===== src/Installer/Atomic.antt =====
-- An installer's operation does all of its writes or none.
use std.Path.{subst}
use graph_skill_runtime.Common.{
  ℕ, String, Bool, true, false, List, [], ◌∷◌, ◌++◌, Option, none, some, ◌≡◌, ◌⊎◌, inl, inr, refl,
  arith, sym, ap, ◌∙◌, length, ltb, All, eq_refl,
}
use graph_skill_runtime.Installer.Disk.{
  Bytes, Files, World, Disk, Error, Result, ok, err, store, content_node, bounded, read_bounded,
  write_or_remove, max_config_bytes, replaceable, Node,
}
use graph_skill_runtime.Installer.Apply.{
  Touch, PreparedTarget, replace, assert_unchanged, Step, write, check, run_steps, Failure,
  restore_read, restore_one, restore, raised_by, applied, aborted, rolled_back, conclude, apply,
  content_eq, bytes_eq, steps_of, mutation_steps,
}
use graph_skill_runtime.Installer.Rollback.{
  IsQuiet, redo, restore_one_ok, Result-cases, replace_ok, replace_err, assert_unchanged_keeps,
  read_keeps, undo_replaced,
}
use graph_skill_runtime.Installer.Outcome.{aborted_is_undone, applied_is_done}

-- The content is not over the size the installer reads.
abbrev pub IsReadable : Option Bytes → Type 0
IsReadable none = Unit
IsReadable (some bytes) = ltb max_config_bytes (length bytes) ≡ false

abbrev pub WritesReadable : Step → Type 0
WritesReadable (write t) = IsReadable t.after
WritesReadable (check path expected) = Unit

-- The operating system carries out every call.
abbrev pub IsPatient : World → Type 0
IsPatient w = (call : ℕ) → w.refuses call ≡ false

-- What was written stands where it was written, down to the first write.
pub Trail : List Touch → Files → Type 0
Trail [] f = Unit
Trail (t ∷ ts) f =
    (f t.path ≡ content_node t.after)
    × IsReadable t.after
    × Trail ts (store f t.path (content_node t.before))

bytes_eq_refl : (a : Bytes) → bytes_eq a a ≡ true
bytes_eq_refl [] = refl
bytes_eq_refl (x ∷ a) = ground (arith, bytes_eq_refl a)

content_eq_refl : (c : Option Bytes) → content_eq c c ≡ true
content_eq_refl none = refl
content_eq_refl (some a) = bytes_eq_refl a

bounded_fits :
    (path : String) (c : Option Bytes)
    → IsReadable c
    → bounded path max_config_bytes (content_node c) ≡ ok c
unfolding bounded
bounded_fits path none h = refl
bounded_fits path (some bytes) h = rw (h, bounded) refl

content_node-replaceable : (c : Option Bytes) → replaceable (content_node c) ≡ true
unfolding replaceable
content_node-replaceable none = refl
content_node-replaceable (some bytes) = refl

store_here :
    (f : Files) (path : String) (content : Option Node) → store f path content path ≡ content
store_here f path content = rw eq_refl refl

module _ (w : World) (quiet : IsQuiet w) (patient : IsPatient w) where
  read_fits :
      (path : String) (c : Option Bytes) (d : Disk)
      → d.files path ≡ content_node c
      → IsReadable c
      → (read_bounded w path max_config_bytes d).0 ≡ ok c
  unfolding read_bounded
  read_fits path c d h fits =
      let at = ap (λ f. f path) (quiet d.calls d.files) ∙ h in
      let fine = ap (bounded path max_config_bytes) at ∙ bounded_fits path c fits in
      ground (arith, patient d.calls, fine)

  write_goes :
      (path : String) (b c : Option Bytes) (d : Disk)
      → d.files path ≡ content_node b
      → (write_or_remove w path c d).0 ≡ ok tt
  unfolding write_or_remove
  write_goes path b c d h =
      let at = ap (λ f. f path) (quiet d.calls d.files) ∙ h in
      let fine = ap replaceable at ∙ content_node-replaceable b in
      ground (arith, patient d.calls, fine)

  raised_by_goes : (q : Result (Unit {0}) × Disk) → q.0 ≡ ok tt → (raised_by w q).0 ≡ []
  unfolding raised_by
  raised_by_goes (ok u, d) h = refl
  raised_by_goes (err e, d) h = absurd (ground arith)

  restore_read_goes :
      (t : Touch) (d : Disk)
      → d.files t.path ≡ content_node t.after
      → (restore_read w t (ok t.after) d).0 ≡ []
  unfolding restore_read raised_by
  restore_read_goes t d h =
      let done = write_goes t.path t.after t.before d h in
      ground
        (arith, content_eq_refl t.after, raised_by_goes (write_or_remove w t.path t.before d) done)

  restore_one_goes :
      (t : Touch) (d : Disk)
      → d.files t.path ≡ content_node t.after
      → IsReadable t.after
      → (restore_one w t d).0 ≡ []
  unfolding restore_one
  restore_one_goes t d h fits =
      let d' = (read_bounded w t.path max_config_bytes d).1 in
      let kept = ap (λ f. f t.path) (read_keeps w quiet t.path max_config_bytes d) in
      ap (λ r. (restore_read w t r d').0) (read_fits t.path t.after d h fits)
      ∙ restore_read_goes t d' (kept ∙ h)

  -- A trail is taken back without a failure.
  restore_goes : (ts : List Touch) (d : Disk) → Trail ts d.files → (restore w ts d).0 ≡ []
  unfolding restore Trail
  restore_goes [] d trail = refl
  restore_goes (t ∷ ts) d (at, fits, rest) =
      let (first, d') = restore_one w t d in
      let one = restore_one_goes t d at fits in
      let more =
        restore_goes ts d' (subst (Trail ts) (sym (restore_one_ok w quiet t d one)) rest) in
      ap (λ xs. xs ++ (restore w ts d').0) one ∙ more

  replaced-Trail :
      (t : Touch) (touched : List Touch) (d : Disk)
      → (replace w t d).0 ≡ ok tt
      → IsReadable t.after
      → Trail touched d.files
      → Trail (t ∷ touched) (replace w t d).1.files
  unfolding Trail
  replaced-Trail t touched d h fits trail = (
    ap (λ f. f t.path) (replace_ok w quiet t d h).1
        ∙ store_here d.files t.path (content_node t.after),
    fits,
    subst (Trail touched) (sym (undo_replaced w quiet t d h)) trail,
  )

  run_steps-Trail :
      (steps : List Step) (touched : List Touch) (d : Disk)
      → All WritesReadable steps
      → Trail touched d.files
      → Trail (run_steps w steps touched d).1 (run_steps w steps touched d).2.files
  unfolding run_steps
  run_steps-Trail [] touched d fits trail = trail
  run_steps-Trail (write t ∷ rest) touched d (fits, more) trail =
      elim (Result-cases (replace w t d).0) [
        | inl (x, h) ↦
            rw (h, run_steps)
              (run_steps-Trail rest (t ∷ touched) (replace w t d).1 more
                (replaced-Trail t touched d h fits trail))
        | inr (e, h) ↦
            rw (h, run_steps) (subst (Trail touched) (sym (replace_err w quiet t d e h)) trail)
      ]
  run_steps-Trail (check path expected ∷ rest) touched d (fits, more) trail =
      let d' = (assert_unchanged w path expected d).1 in
      let kept =
        subst (Trail touched) (sym (assert_unchanged_keeps w quiet path expected d)) trail in
      elim (Result-cases (assert_unchanged w path expected d).0) [
        | inl (x, h) ↦ rw (h, run_steps) (run_steps-Trail rest touched d' more kept)
        | inr (e, h) ↦ rw (h, run_steps) kept
      ]

rolled_back_clean :
    (w : World) (e : Error) (q : List Failure × Disk) → q.0 ≡ [] → (rolled_back w e q).0 ≡ aborted e
unfolding rolled_back
rolled_back_clean w e ([], d) h = refl
rolled_back_clean w e (f ∷ fs, d) h = absurd (ground arith)

conclude_clean :
    (w : World) (n : ℕ) (r : Result (Unit {0})) (touched : List Touch) (d : Disk)
    → (restore w touched d).0 ≡ []
    → ((c : Bool) × ((conclude w n r touched d).0 ≡ applied n c))
      ⊎ ((e : Error) × ((conclude w n r touched d).0 ≡ aborted e))
unfolding conclude
conclude_clean w n (ok u) touched d h = inl (_, refl)
conclude_clean w n (err e) touched d h = inr (e, rolled_back_clean w e (restore w touched d) h)

-- When no other process writes files, the operating system carries out every call, and no content to be
-- written is over the size limit of a read, `_apply` never ends with an incomplete rollback: it answers
-- and all of its writes are done, or it raises an error and no file differs from before.
pub apply_atomic :
    (w : World) (targets : List PreparedTarget) (d : Disk)
    → IsQuiet w
    → IsPatient w
    → All WritesReadable (steps_of targets)
    → ((c : Bool) × ((apply w targets d).0 ≡ applied (length (mutation_steps targets)) c)
        × ((apply w targets d).1.files ≡ redo (steps_of targets) d.files))
      ⊎ ((e : Error) × ((apply w targets d).0 ≡ aborted e)
          × ((apply w targets d).1.files ≡ d.files))
unfolding apply Trail
apply_atomic w targets d quiet patient fits =
    let n = length (mutation_steps targets) in
    let (r, touched, d') = run_steps w (steps_of targets) [] d in
    let clean =
      restore_goes w quiet patient touched d'
        (run_steps-Trail w quiet patient (steps_of targets) [] d fits tt) in
    elim (conclude_clean w n r touched d' clean) [
      | inl (c, h) ↦ inl (c, h, applied_is_done w targets d n c quiet h)
      | inr (e, h) ↦ inr (e, h, aborted_is_undone w targets d e quiet h)
    ]
