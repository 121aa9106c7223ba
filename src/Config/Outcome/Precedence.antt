-- ===== src/Config/Outcome/Precedence.antt =====
-- The order of the layers of a profile, written out.
use graph_skill_runtime.Common.{String, Option, none, some, ◌≡◌, refl, or_else, ap, ◌∙◌}
use graph_skill_runtime.Domain.Profile.{RuntimeProfileOverlay}
use graph_skill_runtime.Domain.Run.{RunPreset, RunInvocation}
use graph_skill_runtime.Config.{
  ProjectConfigDocument, UserConfigDocument, Outside, ProfileAccumulator, Layer, defaults, apply,
}
use graph_skill_runtime.Config.Layers.{supplied, four_layers}
use graph_skill_runtime.Config.Resolve.{runtime_of_user, runtime_of_project, Documents, accumulated}

abbrev pub user_gives :
    {A : Type 0} → (RuntimeProfileOverlay → Option A) → Option UserConfigDocument → Option A
user_gives value none = none
user_gives value (some d) = value d.runtime

abbrev pub project_gives :
    {A : Type 0} → (RuntimeProfileOverlay → Option A) → Option ProjectConfigDocument → Option A
project_gives value none = none
project_gives value (some d) = value d.runtime

-- The invocation's value; else the project's, the user's, the skill's own, and last the default.
abbrev pub by_precedence :
    {A : Type 0}
    → (RuntimeProfileOverlay → Option A)
    → A
    → Option RuntimeProfileOverlay
    → Documents
    → RunInvocation
    → A
by_precedence value default portable d i =
    or_else
      (or_else
        (or_else (or_else default (supplied value portable)) (user_gives value d.user_document))
        (project_gives value d.project_document))
      (value i.runtime)

user_supplies :
    {A : Type 0} (value : RuntimeProfileOverlay → Option A) (o : Option UserConfigDocument)
    → supplied value (runtime_of_user o) ≡ user_gives value o
user_supplies value none = refl
user_supplies value (some d) = refl

project_supplies :
    {A : Type 0} (value : RuntimeProfileOverlay → Option A) (o : Option ProjectConfigDocument)
    → supplied value (runtime_of_project o) ≡ project_gives value o
project_supplies value none = refl
project_supplies value (some d) = refl

module _ {A : Type 0} (field : ProfileAccumulator → A) (value : RuntimeProfileOverlay → Option A)
    (steps : (l : Layer) (a : ProfileAccumulator)
      → field (apply l.overlay l.source l.source_path a)
        ≡ or_else (field a) (supplied value l.overlay)) where
  pub accumulated-by_precedence :
      (outside : Outside) (path : String) (i : RunInvocation)
      (portable : Option RuntimeProfileOverlay) (defaults_given : Option RunPreset) (d : Documents)
      → field (accumulated outside path i portable defaults_given d)
        ≡ by_precedence value (field defaults) portable d i
  accumulated-by_precedence outside path i portable defaults_given d =
      four_layers field value steps _ _ _ _ defaults
      ∙ ap
          (λ (o : Option A).
            or_else
              (or_else (or_else (or_else (field defaults) (supplied value portable)) o)
                (supplied value (runtime_of_project d.project_document)))
              (value i.runtime))
          (user_supplies value d.user_document)
      ∙ ap
          (λ (o : Option A).
            or_else
              (or_else
                (or_else (or_else (field defaults) (supplied value portable))
                  (user_gives value d.user_document))
                o)
              (value i.runtime))
          (project_supplies value d.project_document)
