-- ===== src/Installer/Disk.antt =====
-- The file system as the installer uses it. Other processes may change any file before each of the
-- installer's calls, and the operating system may refuse any call: both are in `World`.
use graph_skill_runtime.Common.{
  ℕ, suc, ◌*◌, String, Bool, true, false, List, Option, none, some, ◌==◌, length, ltb,
  if◌then◌else◌,
}

abbrev pub Bytes : Type 0
Bytes = List ℕ

-- An irregular node is a directory.
pub data Node : Type 0 where
  file : Bytes → Node
  irregular : Node

abbrev pub Files : Type 0
Files = String → Option Node

pub record World : Type 0 where
  pub interfere : (call : ℕ) → Files → Files
  pub refuses : (call : ℕ) → Bool

pub record Disk : Type 0 where
  pub files : Files
  pub calls : ℕ

-- What the calls raise: OSError, and the ValueErrors of _read_bounded and _assert_unchanged.
pub data Error : Type 0 where
  os_error not_regular too_large changed_after_planning : (path : String) → Error

pub data Result (A : Type 0) : Type 0 where
  ok : A → Result A
  err : Error → Result A

abbrev pub max_config_bytes : ℕ
max_config_bytes = 4 * 1024 * 1024

abbrev pub max_manifest_bytes : ℕ
max_manifest_bytes = 1024 * 1024

-- What other processes did comes before the call.
abbrev pub tick : World → Disk → Disk
tick w d = record { files = w.interfere d.calls d.files; calls = suc d.calls }

abbrev pub store : Files → String → Option Node → Files
store f path node p = if path == p then node else f p

abbrev pub content_node : Option Bytes → Option Node
content_node none = none
content_node (some bytes) = some (file bytes)

unfoldable pub bounded : String → ℕ → Option Node → Result (Option Bytes)
bounded path limit none = ok none
bounded path limit (some irregular) = err (not_regular path)
bounded path limit (some (file bytes)) =
    if ltb limit (length bytes) then err (too_large path) else ok (some bytes)

-- _read_bounded, as one call: `none` where there is no file
unfoldable pub read_bounded : World → String → ℕ → Disk → Result (Option Bytes) × Disk
unfolding bounded
read_bounded w path limit d =
    let d' = tick w d in
    (if w.refuses d.calls then err (os_error path) else bounded path limit (d'.files path), d')

unfoldable pub replaceable : Option Node → Bool
replaceable (some irregular) = false
replaceable _ = true

-- _write_or_remove: an atomic replacement, or an unlink that a missing file does not fail
unfoldable pub write_or_remove : World → String → Option Bytes → Disk → Result (Unit {0}) × Disk
unfolding replaceable
write_or_remove w path content d =
    let d' = tick w d in
    if w.refuses d.calls
    then (err (os_error path), d')
    else if replaceable (d'.files path)
    then (ok tt, record d' { files = store d'.files path (content_node content) })
    else (err (os_error path), d')
