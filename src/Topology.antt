-- ===== src/Topology.antt =====
-- The phase graph of core/loader.py: its declaration and its dependencies. A check appends to one
-- list of diagnostics there; here each returns those it adds. A diagnostic is its rule with the
-- line and the names it is about. The names of the directories under phases/ are an argument.
pub mod Edges
pub mod Quiet
pub mod Cycles
pub mod Islands
pub mod Order
pub mod Check
pub mod Accepted
pub mod Tests
use graph_skill_runtime.Common.{
  ℕ, zero, suc, ◌+◌, ◌-◌, ◌≤◌, String, Bool, true, false, not, ◌&&◌, ◌||◌, Option, none, some, List,
  [], ◌∷◌, ◌++◌, map, ◌≡◌, ◌∙◌, arith, ◌==◌, eq_iff, if◌then◌else◌, or_else, nat_eq, is_some,
  is_empty, length, keep, length-append,
}
use graph_skill_runtime.Common.Dict.{Dict, get, put}
use graph_skill_runtime.Common.Names.{
  has, has-append, add, add_all, has-add_all, length-add_all, without, has-keep, length-keep,
  sorted, has-sorted, length-sorted, has-reverse, length-reverse, entries,
}
use graph_skill_runtime.Common.Walk.{Walk, closure}
use mathlib.Core.List.{reverse}

pub record PhaseTokenInfo : Type 0 where
  pub phase_id : String
  pub raw_text : String
  pub line_start : ℕ
  pub line_end : ℕ
  pub attrs : Dict String

pub record PhaseTopologyRef : Type 0 where
  pub name : String
  pub depends_on : List String
  pub output : Bool
  pub token : PhaseTokenInfo

pub data Diag : Type 0 where
  no_directory : String → Diag
  unregistered : String → Diag
  no_depends_on : ℕ → String → Diag
  depends_unknown : ℕ → String → String → Diag
  depends_on_self : ℕ → String → Diag
  cycle : ℕ → List String → Diag
  island : ℕ → String → Diag
  output_invalid : List String → Diag

unfoldable pub validate_phase_name_sets : List String → List String → List Diag
validate_phase_name_sets phases physical =
    map no_directory (sorted (without physical (add_all phases [])))
    ++ map unregistered (sorted (without phases (add_all physical [])))

pub record Dependencies : Type 0 where
  pub adjacency : Dict (List String)
  pub input_roots : List String
  pub flagged : List String
  pub diags : List Diag

unfoldable pub flag : PhaseTopologyRef → Diag → Dependencies → Dependencies
flag ref d s = record s { flagged = add ref.name s.flagged; diags = s.diags ++ d ∷ [] }

unfoldable pub link : List String → PhaseTopologyRef → String → Dependencies → Dependencies
unfolding flag
link phases ref dep s =
    if dep == "input"
    then record s { input_roots = s.input_roots ++ ref.name ∷ [] }
    else if not (has dep phases)
    then flag ref (depends_unknown ref.token.line_start ref.name dep) s
    else if dep == ref.name
    then flag ref (depends_on_self ref.token.line_start ref.name) s
    else record s { adjacency = put s.adjacency dep (entries s.adjacency dep ++ ref.name ∷ []) }

unfoldable pub link_all : List String → PhaseTopologyRef → List String → Dependencies → Dependencies
link_all phases ref [] s = s
link_all phases ref (dep ∷ deps) s = link_all phases ref deps (link phases ref dep s)

-- A phase must depend on something.
unfoldable pub demand : PhaseTopologyRef → Dependencies → Dependencies
unfolding flag
demand ref s =
    if is_empty ref.depends_on then flag ref (no_depends_on ref.token.line_start ref.name) s else s

unfoldable pub collect : List String → List PhaseTopologyRef → Dependencies → Dependencies
unfolding demand link_all
collect phases [] s = s
collect phases (ref ∷ refs) s =
    collect phases refs (link_all phases ref ref.depends_on (demand ref s))

-- {name: value for name in names}
unfoldable pub from_keys {ℓ} : {A : Type ℓ} → A → List String → Dict A → Dict A
from_keys a [] d = d
from_keys a (k ∷ ks) d = from_keys a ks (put d k a)

unfoldable pub collect_graph_dependencies : List String → List PhaseTopologyRef → Dependencies
unfolding collect from_keys
collect_graph_dependencies phases refs =
    collect phases refs
      (record { adjacency = from_keys [] phases []; input_roots = []; flagged = []; diags = [] })

unfoldable pub keys {ℓ} : {A : Type ℓ} → Dict A → List String
keys d = map (λ e. e.0) d

-- The line of a phase is its ref's, else 1.
unfoldable pub line_by_name : List PhaseTopologyRef → String → ℕ
line_by_name [] p = 1
line_by_name (ref ∷ refs) p =
    if ref.name == p && not (has p (map (λ r. r.name) refs))
    then ref.token.line_start
    else line_by_name refs p
