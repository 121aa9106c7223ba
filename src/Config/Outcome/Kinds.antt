-- ===== src/Config/Outcome/Kinds.antt =====
-- Executors of one kind, and the two tests on the fallbacks.
use graph_skill_runtime.Common.{false, List, [], ◌∷◌, ◌≡◌, arith, nat_eq, All}
use graph_skill_runtime.Domain.Profile.{ExecutorConfig, host_native, cli, embedded}
use graph_skill_runtime.Config.Resolve.{has_kind, kind, has_duplicate}

abbrev pub SameKind : ExecutorConfig → ExecutorConfig → Type 0
SameKind host_native host_native = Unit
SameKind (cli a) (cli b) = Unit
SameKind (embedded a) (embedded b) = Unit
SameKind _ _ = ⊥

abbrev pub IsNone : ExecutorConfig → List ExecutorConfig → Type 0
IsNone e es = All (λ x. ¬ SameKind x e) es

-- No two executors are of one kind.
abbrev pub AreDistinct : List ExecutorConfig → Type 0
AreDistinct [] = Unit
AreDistinct (e ∷ es) = IsNone e es × AreDistinct es

kinds_differ : (x e : ExecutorConfig) → nat_eq (kind x) (kind e) ≡ false → ¬ SameKind x e
kinds_differ host_native host_native h s = ground arith
kinds_differ (cli a) (cli b) h s = ground arith
kinds_differ (embedded a) (embedded b) h s = ground arith
kinds_differ _ _ h s = s

pub IsNone-of_has_kind :
    (e : ExecutorConfig) (es : List ExecutorConfig) → has_kind (kind e) es ≡ false → IsNone e es
IsNone-of_has_kind e [] h = tt
IsNone-of_has_kind e (x ∷ es) h =
    (kinds_differ x e (ground arith), IsNone-of_has_kind e es (ground arith))

pub AreDistinct-of_has_duplicate :
    (es : List ExecutorConfig) → has_duplicate es ≡ false → AreDistinct es
AreDistinct-of_has_duplicate [] h = tt
AreDistinct-of_has_duplicate (e ∷ es) h =
    (IsNone-of_has_kind e es (ground arith), AreDistinct-of_has_duplicate es (ground arith))
