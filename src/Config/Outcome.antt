-- ===== src/Config/Outcome.antt =====
-- What a resolution that succeeds has gone through.
pub mod Values
pub mod Kinds
pub mod Precedence
pub mod Checked
use graph_skill_runtime.Common.{
  String, true, false, Option, ◌≡◌, refl, arith, or_else, ap, ◌∙◌, sym,
}
use graph_skill_runtime.Domain.Profile.{
  ConfigSource, RuntimeProfileOverlay, ResolvedRuntimeProfile, RuntimeProfile,
}
use graph_skill_runtime.Domain.Run.{RunPreset, RunInvocation, RunRequest}
use graph_skill_runtime.Config.{Result, ok, err, ◌>>=◌, Outside, ProfileAccumulator}
use graph_skill_runtime.Config.Request.{Selected, selected, request_of}
use graph_skill_runtime.Config.Resolve.{
  resolve, resolved_profile, runtime_profile, has_kind, kind, has_duplicate, select_preset,
  Documents, open_documents, resolve_documents, accumulated, resolved_state_root, profile_of,
  resolved_of,
}

pub bind-ok :
    {A B : Type 0} (m : Result A) (f : A → Result B) (b : B)
    → m >>= f ≡ ok b
    → (a : A) × (m ≡ ok a) × (f a ≡ ok b)
bind-ok (ok a) f b h = (a, refl, h)
bind-ok (err e) f b h = absurd (ground arith)

ok-injective : {A : Type 0} (a b : A) → ◌≡◌ {A = Result A} (ok a) (ok b) → a ≡ b
ok-injective a b h = ground (arith, h)

module _ (outside : Outside) (user_config_path : String) (i : RunInvocation)
    (portable_runtime : Option RuntimeProfileOverlay) (portable_defaults : Option RunPreset) where
  -- What a resolution went through.
  pub record Resolved (profile : ResolvedRuntimeProfile) (request : RunRequest) : Type 0 where
    pub documents : Documents
    pub chosen : Selected
    pub opened : open_documents outside user_config_path i ≡ ok documents
    pub chosen_is :
        select_preset outside i documents.project_document
          (outside.join documents.skill_root "gskill.toml")
          portable_defaults
        ≡ ok chosen
    pub profile_is :
        resolved_profile outside
          (accumulated outside user_config_path i portable_runtime portable_defaults documents)
          documents.skill_root
          (resolved_state_root outside
            (accumulated outside user_config_path i portable_runtime portable_defaults documents)
            documents.skill_root
            user_config_path)
        ≡ ok profile
    pub request_is : request ≡ request_of outside.uuid4 i chosen profile

  pub resolve-Resolved :
      (profile : ResolvedRuntimeProfile) (request : RunRequest)
      → resolve outside user_config_path i portable_runtime portable_defaults
        ≡ ok (profile, request)
      → Resolved profile request
  unfolding resolve resolve_documents
  resolve-Resolved profile request h =
      let (d, h1, k1) =
        bind-ok (open_documents outside user_config_path i)
          (resolve_documents outside user_config_path i portable_runtime portable_defaults)
          (profile, request) h in
      let a = accumulated outside user_config_path i portable_runtime portable_defaults d in
      let (p, h2, k2) =
        bind-ok
          (resolved_profile outside a d.skill_root
            (resolved_state_root outside a d.skill_root user_config_path))
          (λ p.
            select_preset outside i d.project_document (outside.join d.skill_root "gskill.toml")
              portable_defaults
            >>= (λ c. ok (p, request_of outside.uuid4 i c p)))
          (profile, request) k1 in
      let (c, h3, k3) =
        bind-ok
          (select_preset outside i d.project_document (outside.join d.skill_root "gskill.toml")
            portable_defaults)
          (λ c. ok (p, request_of outside.uuid4 i c p)) (profile, request) k2 in
      let e = ok-injective _ _ k3 in
      record {
        documents = d;
        chosen = c;
        opened = h1;
        chosen_is = h3;
        profile_is = h2 ∙ ap (λ x. ok x.0) e;
        request_is = sym (ap (λ x. x.1) e) ∙ ap (λ x. request_of outside.uuid4 i c x.0) e;
      }
