-- ===== src/Config/Outcome/Values.antt =====
-- Where the business values of a resolved request come from.
use graph_skill_runtime.Common.{
  String, [], Option, none, some, ◌≡◌, ◌≢◌, refl, arith, or_else, ap, ◌∙◌, sym, ◌==◌, Option-cases,
  Bool-cases, inl, inr, same_of_eq,
}
use graph_skill_runtime.Common.Dict.{get}
use graph_skill_runtime.Json.{JsonObject}
use graph_skill_runtime.Domain.Profile.{ConfigSource, RuntimeProfileOverlay, ResolvedRuntimeProfile}
use graph_skill_runtime.Domain.Run.{RunPreset, RunInvocation, RunRequest}
use graph_skill_runtime.Domain.Secrets.{find_in_object}
use graph_skill_runtime.Config.{PresetDocument, ProjectConfigDocument, ok, Outside}
use graph_skill_runtime.Config.Request.{
  Selected, selected, preset_of, default_preset, chosen_run_id, request_of,
}
use graph_skill_runtime.Config.Resolve.{
  resolve, presets_of, select_preset, Documents, open_documents,
}
use graph_skill_runtime.Config.Outcome.{resolve-Resolved}

-- The business values of a request: those of the preset, over which the invocation's go.
pub record IsLayered (i : RunInvocation) (p : RunPreset) (request : RunRequest) : Type 0 where
  pub inputs : request.inputs ≡ or_else p.inputs i.inputs
  pub secret_inputs : request.secret_inputs ≡ or_else p.secret_inputs i.secret_inputs
  pub bindings : request.bindings ≡ or_else p.bindings i.bindings
  pub breakpoints : request.breakpoints ≡ or_else p.breakpoints i.breakpoints
  pub node_overrides : request.node_overrides ≡ or_else p.node_overrides i.node_overrides
  pub compare_candidates :
      request.compare_candidates ≡ or_else p.compare_candidates i.compare_candidates
  pub artifact_requests :
      request.artifact_requests ≡ or_else p.artifact_requests i.artifact_requests
  pub preset_id : request.preset_id ≡ i.preset_id
  pub run_id : (id : String) → i.run_id ≡ some id → id ≢ "" → request.run_id ≡ id

given_run_id :
    (fresh : String) (o : Option String) (id : String)
    → o ≡ some id
    → id ≢ ""
    → chosen_run_id fresh o ≡ id
given_run_id fresh none id given filled = absurd (ground arith)
given_run_id fresh (some x) id given filled = elim (Bool-cases (x == "")) [
  | inl e ↦ absurd (filled (sym (ground arith) ∙ same_of_eq x "" e))
  | inr e ↦ ground arith
]

request_of-IsLayered :
    (i : RunInvocation) (p : RunPreset) (s : ConfigSource) (path : Option String) (fresh : String)
    (profile : ResolvedRuntimeProfile) (request : RunRequest)
    → request ≡ request_of fresh i (selected p s path) profile
    → (request.profile ≡ profile) × IsLayered i p request
request_of-IsLayered i p s path fresh profile request e = (
  ap (λ r. r.profile) e,
  record {
    inputs = ap (λ r. r.inputs) e;
    secret_inputs = ap (λ r. r.secret_inputs) e;
    bindings = ap (λ r. r.bindings) e;
    breakpoints = ap (λ r. r.breakpoints) e;
    node_overrides = ap (λ r. r.node_overrides) e;
    compare_candidates = ap (λ r. r.compare_candidates) e;
    artifact_requests = ap (λ r. r.artifact_requests) e;
    preset_id = ap (λ r. r.preset_id) e;
    run_id = λ id given filled. ap (λ r. r.run_id) e ∙ given_run_id fresh i.run_id id given filled;
  },
)

-- A preset with the values of a project's preset document.
pub record HasValues (d : PresetDocument) (p : RunPreset) : Type 0 where
  pub inputs : p.inputs ≡ d.inputs
  pub secret_inputs : p.secret_inputs ≡ d.secret_inputs
  pub bindings : p.bindings ≡ d.bindings
  pub breakpoints : p.breakpoints ≡ d.breakpoints
  pub node_overrides : p.node_overrides ≡ d.node_overrides
  pub compare_candidates : p.compare_candidates ≡ d.compare_candidates
  pub artifact_requests : p.artifact_requests ≡ d.artifact_requests

-- A preset without a value.
pub record HasNone (p : RunPreset) : Type 0 where
  pub inputs : p.inputs ≡ JsonObject.empty
  pub secret_inputs : p.secret_inputs ≡ []
  pub bindings : p.bindings ≡ []
  pub breakpoints : p.breakpoints ≡ []
  pub node_overrides : p.node_overrides ≡ []
  pub compare_candidates : p.compare_candidates ≡ []
  pub artifact_requests : p.artifact_requests ≡ []

-- Where the values under the invocation's come from: the project's preset that the invocation names; if
-- it names none, the caller's defaults; if there are none either, nothing.
pub data IsBase (i : RunInvocation) (project : Option ProjectConfigDocument)
    (portable_defaults : Option RunPreset) (p : RunPreset) : Type 0 where
  named :
      (id : String) (document : ProjectConfigDocument) (d : PresetDocument)
      → i.preset_id ≡ some id
      → project ≡ some document
      → get document.presets id ≡ some d
      → HasValues d p
      → IsBase i project portable_defaults p
  of_caller : i.preset_id ≡ none → portable_defaults ≡ some p → IsBase i project portable_defaults p
  nothing_given :
      i.preset_id ≡ none
      → portable_defaults ≡ none
      → HasNone p
      → IsBase i project portable_defaults p

presets_of-some :
    (project : Option ProjectConfigDocument) (id : String) (d : PresetDocument)
    → get (presets_of project) id ≡ some d
    → (document : ProjectConfigDocument) × (project ≡ some document)
      × (get document.presets id ≡ some d)
unfolding get
presets_of-some none id d h = absurd (ground arith)
presets_of-some (some document) id d h = (document, refl, h)

select_preset-IsBase :
    (outside : Outside) (i : RunInvocation) (project : Option ProjectConfigDocument) (path : String)
    (portable_defaults : Option RunPreset) (p : RunPreset) (s : ConfigSource)
    (source_path : Option String)
    → select_preset outside i project path portable_defaults ≡ ok (selected p s source_path)
    → IsBase i project portable_defaults p
unfolding select_preset
select_preset-IsBase outside i project path portable_defaults p s source_path h =
    elim (Option-cases i.preset_id) [
      | inr (id, n) ↦ elim (Option-cases (get (presets_of project) id)) [
        | inl g ↦ absurd (ground arith)
        | inr (d, g) ↦ elim (Option-cases (find_in_object outside.casefold d.inputs)) [
          | inr (_, x) ↦ absurd (ground arith)
          | inl x ↦
              let (document, there, found) = presets_of-some project id d g in
              let same : p ≡ preset_of id d = ground arith in
              named id document d n there found (record {
                inputs = ap (λ (q : RunPreset). q.inputs) same;
                secret_inputs = ap (λ (q : RunPreset). q.secret_inputs) same;
                bindings = ap (λ (q : RunPreset). q.bindings) same;
                breakpoints = ap (λ (q : RunPreset). q.breakpoints) same;
                node_overrides = ap (λ (q : RunPreset). q.node_overrides) same;
                compare_candidates = ap (λ (q : RunPreset). q.compare_candidates) same;
                artifact_requests = ap (λ (q : RunPreset). q.artifact_requests) same;
              })
        ]
      ]
      | inl n ↦ elim (Option-cases portable_defaults) [
        | inr (q, g) ↦ of_caller n (ground arith)
        | inl g ↦
            let same : p ≡ default_preset = ground arith in
            nothing_given n g (record {
              inputs = ap (λ (q : RunPreset). q.inputs) same;
              secret_inputs = ap (λ (q : RunPreset). q.secret_inputs) same;
              bindings = ap (λ (q : RunPreset). q.bindings) same;
              breakpoints = ap (λ (q : RunPreset). q.breakpoints) same;
              node_overrides = ap (λ (q : RunPreset). q.node_overrides) same;
              compare_candidates = ap (λ (q : RunPreset). q.compare_candidates) same;
              artifact_requests = ap (λ (q : RunPreset). q.artifact_requests) same;
            })
      ]
    ]

-- Where a resolution succeeds, the request holds the resolved profile and the invocation's preset id and
-- run id, where that is given and not empty, and each business value is the invocation's where it gives
-- one; else that of the project's preset which the invocation names, or, where it names none, of the
-- caller's defaults, or, without these, the empty one.
pub resolve-IsLayered :
    (outside : Outside) (user_config_path : String) (i : RunInvocation)
    (portable_runtime : Option RuntimeProfileOverlay) (portable_defaults : Option RunPreset)
    (profile : ResolvedRuntimeProfile) (request : RunRequest)
    → resolve outside user_config_path i portable_runtime portable_defaults ≡ ok (profile, request)
    → (d : Documents) × (p : RunPreset) × (open_documents outside user_config_path i ≡ ok d)
      × IsBase i d.project_document portable_defaults p
      × (request.profile ≡ profile)
      × IsLayered i p request
resolve-IsLayered outside user_config_path i portable_runtime portable_defaults profile request h =
    let r =
      resolve-Resolved outside user_config_path i portable_runtime portable_defaults profile request
        h in
    layered_of r.documents r.chosen r.opened r.chosen_is r.request_is
  where
    layered_of :
        (d : Documents) (c : Selected)
        → open_documents outside user_config_path i ≡ ok d
        → select_preset outside i d.project_document
            (outside.join d.skill_root "gskill.toml")
            portable_defaults
          ≡ ok c
        → request ≡ request_of outside.uuid4 i c profile
        → (d : Documents) × (p : RunPreset) × (open_documents outside user_config_path i ≡ ok d)
          × IsBase i d.project_document portable_defaults p
          × (request.profile ≡ profile)
          × IsLayered i p request
    layered_of d (selected p s path) opened chosen_is e =
        let (same, layered) = request_of-IsLayered i p s path outside.uuid4 profile request e in
        (
          d,
          p,
          opened,
          select_preset-IsBase outside i d.project_document
              (outside.join d.skill_root "gskill.toml") portable_defaults p s path chosen_is,
          same,
          layered,
        )
