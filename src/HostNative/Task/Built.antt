-- ===== src/HostNative/Task/Built.antt =====
-- What a handoff record that was built says of the pause, of the run and of the files.
use graph_skill_runtime.Common.{
  String, false, Option, none, some, [], ◌∷◌, ◌≡◌, ◌≢◌, refl, arith, ◌⊎◌, ◌==◌, or_else, inl, inr,
  Option-cases, eq_iff, ne_of_eq, All,
}
use mathlib.Core.Path.{subst}
use graph_skill_runtime.Common.Dict.{Dict, get}
use graph_skill_runtime.Common.Names.{add_all}
use graph_skill_runtime.Common.Outcome.{done, Outcome-cases}
use graph_skill_runtime.Manifest.{AgentNodeAst}
use graph_skill_runtime.Domain.Profile.{PhaseAddress, Filesystem, declared_only, skill_and_state}
use graph_skill_runtime.Domain.Run.{RunRequest}
use graph_skill_runtime.Domain.Agent.{AgentTask, RunMode}
use graph_skill_runtime.Engine.{CoreRunResult, PausedRunPoint, PauseReason}
use graph_skill_runtime.Handoff.{AgentHandoffRecord}
use graph_skill_runtime.HostNative.{GraphNode, CompiledSkill}
use graph_skill_runtime.HostNative.Platform.{Platform}
use graph_skill_runtime.HostNative.PhaseInputs.{phase_inputs}
use graph_skill_runtime.HostNative.Resources.{resources, allowed_paths}
use graph_skill_runtime.HostNative.Task.{Stop, stop_of, task_of, handoff_of, build_agent_handoff}
use graph_skill_runtime.HostNative.Task.Paths.{
  root_of, IsUnder, paths_of, resources-IsUnder, allowed-resources,
}

filesystem-cases : (f : Filesystem) → (f ≡ skill_and_state) ⊎ (f ≡ declared_only)
filesystem-cases skill_and_state = inl refl
filesystem-cases declared_only = inr refl

-- A stop before an Agent phase of `phases`, at a checkpoint that can be continued.
pub record IsStop (phases : Dict GraphNode) (o : Option PausedRunPoint) (s : Stop) : Type 0 where
  pub paused : PausedRunPoint
  pub phase : GraphNode
  pub stopped : o ≡ some paused
  pub at_breakpoint : paused.reason ≡ PauseReason.breakpoint
  pub found : get phases s.phase_name ≡ some phase
  pub is_agent : phase.ast ≡ some s.node
  pub named : s.phase_name ≡ paused.phase_name
  pub durable : paused.checkpoint_id ≡ some s.checkpoint_id
  pub continued : s.checkpoint_id ≢ ""
  pub in_namespace : s.checkpoint_ns ≡ or_else "" paused.checkpoint_ns

stop_of-IsStop :
    (phases : Dict GraphNode) (o : Option PausedRunPoint) (s : Stop)
    → stop_of phases o ≡ done s
    → IsStop phases o s
unfolding stop_of
stop_of-IsStop phases none s e = absurd (ground arith)
stop_of-IsStop phases (some paused) s e = elim (Option-cases (get phases paused.phase_name)) [
  | inl q ↦ absurd (ground arith)
  | inr (phase, q) ↦ elim (Option-cases phase.ast) [
    | inl t ↦ absurd (ground arith)
    | inr (node, t) ↦ elim (Option-cases paused.checkpoint_id) [
      | inl c ↦ absurd (ground (arith, eq_iff (or_else "" paused.checkpoint_id) ""))
      | inr (id, c) ↦
          let full : (id == "") ≡ false = ground arith in
          let named : s.phase_name ≡ paused.phase_name = ground arith in
          let same : s.checkpoint_id ≡ id = ground arith in
          record {
            paused = paused;
            phase = phase;
            stopped = refl;
            at_breakpoint = ground arith;
            found = ground arith;
            is_agent = ground arith;
            named = named;
            durable = ground arith;
            continued = λ z. ne_of_eq id "" full (ground arith);
            in_namespace = ground arith;
          }
    ]
  ]
]

module _ (host : Platform) (request : RunRequest) where
  -- The three parts of a task that may be refused.
  pub record HasParts (result : CoreRunResult) (node : AgentNodeAst) (address : PhaseAddress)
      (t : AgentTask) : Type 0 where
    pub inputs_given : phase_inputs host node.io.inputs result.context ≡ done t.inputs
    pub resources_given : resources host request node ≡ done t.resources
    pub paths_given : allowed_paths host request node ≡ done t.allowed_paths
    pub owned : t.run_id ≡ request.run_id
    pub addressed : t.address ≡ address
    pub output_asked : t.output_schema ≡ node.io.outputs
    pub network_allowed : t.network ≡ request.profile.profile.permissions.network
    pub capabilities_required :
        t.required_capabilities ≡ request.profile.profile.required_capabilities

  task_of-HasParts :
      (result : CoreRunResult) (node : AgentNodeAst) (address : PhaseAddress) (id ns : String)
      (t : AgentTask)
      → task_of host request result node address id ns ≡ done t
      → HasParts result node address t
  unfolding task_of
  task_of-HasParts result node address id ns t e =
      elim (Outcome-cases (phase_inputs host node.io.inputs result.context)) [
        | inr (_, q) ↦ absurd (ground arith)
        | inl (inputs, q) ↦ elim (Outcome-cases (resources host request node)) [
          | inr (_, r) ↦ absurd (ground arith)
          | inl (rs, r) ↦ elim (Outcome-cases (allowed_paths host request node)) [
            | inr (_, a) ↦ absurd (ground arith)
            | inl (paths, a) ↦ record {
              inputs_given = ground arith;
              resources_given = ground arith;
              paths_given = ground arith;
              owned = ground arith;
              addressed = ground arith;
              output_asked = ground arith;
              network_allowed = ground arith;
              capabilities_required = ground arith;
            }
          ]
        ]
      ]

  module _ (compiled : CompiledSkill) (phases : Dict GraphNode) (result : CoreRunResult) where
    -- A record that waits for the host: it continues the stop of `result` and announces its own task.
    pub record IsHandoffOf (mode : RunMode) (r : AgentHandoffRecord) : Type 0 where
      pub stop : Stop
      pub stops : IsStop phases result.paused_at stop
      pub parts :
          HasParts result stop.node
            (record { graph_id = compiled.graph_id; phase_id = stop.phase_name })
            r.task
      pub record_made :
          r ≡ handoff_of host request result mode r.task stop.checkpoint_id stop.checkpoint_ns

    -- A record that was built is the one of a stop of the engine before an Agent phase.
    pub build_agent_handoff-IsHandoffOf :
        (mode : RunMode) (r : AgentHandoffRecord)
        → build_agent_handoff host request compiled phases result mode ≡ done r
        → IsHandoffOf mode r
    unfolding build_agent_handoff
    build_agent_handoff-IsHandoffOf mode r e =
        elim (Outcome-cases (stop_of phases result.paused_at)) [
          | inr (_, q) ↦ absurd (ground arith)
          | inl (s, q) ↦
              let address : PhaseAddress = record {
                graph_id = compiled.graph_id;
                phase_id = s.phase_name;
              } in
              elim (Outcome-cases
                (task_of host request result s.node address s.checkpoint_id s.checkpoint_ns)) [
                  | inr (_, t) ↦ absurd (ground arith)
                  | inl (task, t) ↦
                      let same : handoff_of host request result mode task s.checkpoint_id
                            s.checkpoint_ns
                          ≡ r =
                        ground arith in
                      subst (IsHandoffOf mode) same (record {
                        stop = s;
                        stops = stop_of-IsStop phases result.paused_at s q;
                        parts =
                            task_of-HasParts result s.node address s.checkpoint_id s.checkpoint_ns
                              task t;
                        record_made = refl;
                      })
                ]
        ]

    -- The files of a task that was built: every resource lies under the skill root, and the allowed
    -- paths are, as the profile says, the skill root and the state root, or the resources' paths.
    pub build_agent_handoff-paths :
        (mode : RunMode) (r : AgentHandoffRecord)
        → build_agent_handoff host request compiled phases result mode ≡ done r
        → All (IsUnder host (root_of host request)) (paths_of host r.task.resources)
          × ((request.profile.profile.permissions.filesystem ≡ skill_and_state)
                × (r.task.allowed_paths
                    ≡ root_of host request ∷ host.resolve request.profile.state_root ∷ [])
              ⊎ (request.profile.profile.permissions.filesystem ≡ declared_only)
                × (r.task.allowed_paths ≡ add_all (paths_of host r.task.resources) []))
    unfolding allowed_paths
    build_agent_handoff-paths mode r e =
        let h = build_agent_handoff-IsHandoffOf mode r e in
        (
          resources-IsUnder host request h.stop.node r.task.resources h.parts.resources_given,
          elim (filesystem-cases request.profile.profile.permissions.filesystem) [
            | inl f ↦ inl (f, ground (arith, h.parts.paths_given))
            | inr f ↦ inr (
              f,
              allowed-resources host request h.stop.node r.task.resources r.task.allowed_paths f
                  h.parts.resources_given h.parts.paths_given,
            )
          ],
        )
