-- ===== src/Config/Outcome/Checked.antt =====
-- What a resolved profile holds, and what was checked of it.
use graph_skill_runtime.Common.{true, false, Option, some, [], ◌≡◌}
use graph_skill_runtime.Domain.Profile.{
  host_native, sqlite, host_policy, skill_and_state, RuntimeProfileOverlay, ResolvedRuntimeProfile,
}
use graph_skill_runtime.Domain.Run.{RunInvocation}
use graph_skill_runtime.Config.{Outside, ProfileAccumulator}
use graph_skill_runtime.Config.Resolve.{has_kind, kind, has_duplicate, Documents, profile_of}
use graph_skill_runtime.Config.Outcome.Kinds.{IsNone, AreDistinct}
use graph_skill_runtime.Config.Outcome.Precedence.{by_precedence}

-- What a resolved profile holds, and what was checked of it.
pub record IsChecked (outside : Outside) (portable : Option RuntimeProfileOverlay) (d : Documents)
    (i : RunInvocation) (r : ResolvedRuntimeProfile) : Type 0 where
  pub executor : r.profile.executor ≡ by_precedence (λ o. o.executor) host_native portable d i
  pub checkpoint_store :
      r.profile.checkpoint_store
      ≡ by_precedence (λ o. o.checkpoint_store) (sqlite "checkpoints.sqlite3") portable d i
  pub permissions :
      r.profile.permissions
      ≡ by_precedence
          (λ o. o.permissions)
          (record { network = host_policy; filesystem = skill_and_state })
          portable
          d
          i
  pub required_capabilities :
      r.profile.required_capabilities ≡ by_precedence (λ o. o.required_capabilities) [] portable d i
  pub fallback_executors :
      r.profile.fallback_executors ≡ by_precedence (λ o. o.fallback_executors) [] portable d i
  pub state_dir : r.profile.state_dir ≡ some r.state_root
  pub skill_root_absolute : outside.is_absolute r.skill_root ≡ true
  pub state_root_absolute : outside.is_absolute r.state_root ≡ true
  pub no_primary_fallback : IsNone r.profile.executor r.profile.fallback_executors
  pub distinct_fallbacks : AreDistinct r.profile.fallback_executors

-- What the making of a resolved profile guarantees, over the profile of all layers.
record HasPassed (outside : Outside) (a : ProfileAccumulator) (r : ResolvedRuntimeProfile)
    : Type 0 where
  values : r.profile ≡ profile_of a r.state_root
  skill_root_absolute : outside.is_absolute r.skill_root ≡ true
  state_root_absolute : outside.is_absolute r.state_root ≡ true
  no_primary_fallback : has_kind (kind r.profile.executor) r.profile.fallback_executors ≡ false
  distinct_fallbacks : has_duplicate r.profile.fallback_executors ≡ false
