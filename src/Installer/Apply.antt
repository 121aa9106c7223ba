-- ===== src/Installer/Apply.antt =====
-- integrations/installer.py: applying a prepared operation, and taking it back.
use graph_skill_runtime.Common.{
  ℕ, String, Bool, true, false, List, [], ◌∷◌, ◌++◌, Option, none, some, length, if◌then◌else◌,
  ◌&&◌, nat_eq,
}
use graph_skill_runtime.Installer.Disk.{
  Bytes, World, Disk, Error, changed_after_planning, Result, ok, err, max_config_bytes,
  read_bounded, write_or_remove,
}

pub data IntegrationTarget : Type 0 where
  claude codex copilot cursor gemini opencode : IntegrationTarget

pub data IntegrationAction : Type 0 where
  create update unchanged remove : IntegrationAction

pub data IntegrationResourceKind : Type 0 where
  file json_entry text_block : IntegrationResourceKind

-- _ManifestEntry
pub record ManifestEntry : Type 0 where
  pub resource_id : String
  pub resource_kind : IntegrationResourceKind
  pub path : String
  pub selector : List String
  pub content_sha256 : String
  pub container_created : Bool
  pub created_json_parents : List (List String)

-- _Mutation
pub record Mutation : Type 0 where
  pub target : IntegrationTarget
  pub resource_id : String
  pub resource_kind : IntegrationResourceKind
  pub path : String
  pub selector : List String
  pub action : IntegrationAction
  pub content_sha256 : Option String
  pub before : Option Bytes
  pub after : Option Bytes
  pub manifest_entry : Option ManifestEntry

-- _PreparedTarget
pub record PreparedTarget : Type 0 where
  pub target : IntegrationTarget
  pub manifest_path : String
  pub manifest_before : Option Bytes
  pub manifest_after : Option Bytes
  pub mutations : List Mutation

abbrev pub bytes_eq : Bytes → Bytes → Bool
bytes_eq [] [] = true
bytes_eq (x ∷ xs) (y ∷ ys) = nat_eq x y && bytes_eq xs ys
bytes_eq _ _ = false

abbrev pub content_eq : Option Bytes → Option Bytes → Bool
content_eq none none = true
content_eq (some a) (some b) = bytes_eq a b
content_eq _ _ = false

abbrev pub is_unchanged : IntegrationAction → Bool
is_unchanged unchanged = true
is_unchanged _ = false

-- One write: the path, what it held, and what it was given.
pub record Touch : Type 0 where
  pub path : String
  pub before : Option Bytes
  pub after : Option Bytes

-- The writes of an operation, in order: a step writes, or only asserts.
pub data Step : Type 0 where
  write : Touch → Step
  check : (path : String) (expected : Option Bytes) → Step

pub data Failure : Type 0 where
  changed_concurrently : (path : String) → Failure
  raised : Error → Failure

pub data Applied : Type 0 where
  applied : (changes : ℕ) (changed : Bool) → Applied
  aborted : Error → Applied
  incomplete : Error → List Failure → Applied

unfoldable pub touch_of : Mutation → Touch
touch_of m = record { path = m.path; before = m.before; after = m.after }

unfoldable pub changed_of : List Mutation → List Step
unfolding touch_of
changed_of [] = []
changed_of (m ∷ ms) =
    let rest = changed_of ms in if is_unchanged m.action then rest else write (touch_of m) ∷ rest

-- the mutations that change something, over all targets
unfoldable pub mutation_steps : List PreparedTarget → List Step
unfolding changed_of
mutation_steps [] = []
mutation_steps (t ∷ ts) = changed_of t.mutations ++ mutation_steps ts

-- the manifests, each asserted, and written where it changes
unfoldable pub manifest_steps : List PreparedTarget → List Step
manifest_steps [] = []
manifest_steps (t ∷ ts) =
    let rest = manifest_steps ts in
    if content_eq t.manifest_after t.manifest_before
    then check t.manifest_path t.manifest_before ∷ rest
    else write
        (record { path = t.manifest_path; before = t.manifest_before; after = t.manifest_after })
      ∷ rest

abbrev pub steps_of : List PreparedTarget → List Step
steps_of targets = mutation_steps targets ++ manifest_steps targets

module _ (w : World) where
  -- _assert_unchanged, on what was read
  unfoldable pub confirm : String → Option Bytes → Result (Option Bytes) → Result (Unit {0})
  confirm path expected (err e) = err e
  confirm path expected (ok current) =
      if content_eq current expected then ok tt else err (changed_after_planning path)

  -- _assert_unchanged, then _write_or_remove
  unfoldable pub replace : Touch → Disk → Result (Unit {0}) × Disk
  unfolding confirm
  replace t d =
      let (current, d') = read_bounded w t.path max_config_bytes d in
      elim (confirm t.path t.before current) [
        | err e ↦ (err e, d')
        | ok _ ↦ write_or_remove w t.path t.after d'
      ]

  -- _assert_unchanged alone
  unfoldable pub assert_unchanged : String → Option Bytes → Disk → Result (Unit {0}) × Disk
  unfolding confirm
  assert_unchanged path expected d =
      let (current, d') = read_bounded w path max_config_bytes d in
      (confirm path expected current, d')

  -- The loops of `_apply`. `touched` holds the writes so far, the last one first. An exception ends
  -- them with what was written.
  unfoldable pub run_steps : List Step → List Touch → Disk → Result (Unit {0}) × List Touch × Disk
  run_steps [] touched d = (ok tt, touched, d)
  run_steps (write t ∷ rest) touched d =
      let (r, d') = replace t d in
      elim r [ err e ↦ (err e, touched, d') | ok _ ↦ run_steps rest (t ∷ touched) d' ]
  run_steps (check path expected ∷ rest) touched d =
      let (r, d') = assert_unchanged path expected d in
      elim r [ err e ↦ (err e, touched, d') | ok _ ↦ run_steps rest touched d' ]

  unfoldable pub raised_by : Result (Unit {0}) × Disk → List Failure × Disk
  raised_by (err e, d) = (raised e ∷ [], d)
  raised_by (ok _, d) = ([], d)

  -- One round of `_restore`, on what was read.
  unfoldable pub restore_read : Touch → Result (Option Bytes) → Disk → List Failure × Disk
  unfolding raised_by
  restore_read t (err e) d = (raised e ∷ [], d)
  restore_read t (ok current) d =
      if content_eq current t.after
      then raised_by (write_or_remove w t.path t.before d)
      else (changed_concurrently t.path ∷ [], d)

  unfoldable pub restore_one : Touch → Disk → List Failure × Disk
  unfolding restore_read
  restore_one t d =
      let (current, d') = read_bounded w t.path max_config_bytes d in restore_read t current d'

  -- _restore, over the writes from the last to the first
  unfoldable pub restore : List Touch → Disk → List Failure × Disk
  restore [] d = ([], d)
  restore (t ∷ ts) d =
      let (failures, d') = restore_one t d in
      let (more, d'') = restore ts d' in (failures ++ more, d'')

  unfoldable pub some_touched : List Touch → Bool
  some_touched [] = false
  some_touched (t ∷ ts) = true

  unfoldable pub rolled_back : Error → List Failure × Disk → Applied × Disk
  rolled_back e ([], d) = (aborted e, d)
  rolled_back e (f ∷ fs, d) = (incomplete e (f ∷ fs), d)

  unfoldable pub conclude : ℕ → Result (Unit {0}) → List Touch → Disk → Applied × Disk
  unfolding some_touched rolled_back
  conclude changes (ok _) touched d = (applied changes (some_touched touched), d)
  conclude changes (err e) touched d = rolled_back e (restore touched d)

  -- _apply
  unfoldable pub apply : List PreparedTarget → Disk → Applied × Disk
  unfolding conclude
  apply targets d =
      let (r, touched, d') = run_steps (steps_of targets) [] d in
      conclude (length (mutation_steps targets)) r touched d'
