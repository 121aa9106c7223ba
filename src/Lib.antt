-- ===== src/Lib.antt =====
-- graph_skill_runtime: the parts of the graph skill runtime that keep state, and what makes them right.
--
-- The runtime runs skills: graphs of phases, some of which an agent answers. A run that reaches such a
-- phase stops and hands an AgentTask to the host, which later submits an AgentResult. Inside a phase
-- that the runtime drives itself, a chain of middleware decides when the model may stop. An installer
-- puts the runtime's assets into the configuration of the agent hosts.
--
-- Paths below are from the directory src/graph_skill_runtime of the repository.
-- Common and its children: names of the libraries, Boolean tests, lists, dictionaries, text.
-- Json: JSON documents as json.loads gives them, with the dict operations used.
-- Domain: the pydantic models of domain/models.py as records. schema_version fields, which are
-- constants, are left out, and so are the validators that no function here calls.
-- Domain/Secrets is the refusal of documents that hold a literal secret.
-- Config: application/config.py, ConfigResolver. Config has the accumulator that the layers are applied
-- to, Config/Request the request and its value origins, Config/Resolve the whole of resolve. What
-- pathlib, tomllib, pydantic's parsing and uuid do is the record Outside, with no law assumed.
-- Handoff: adapters/agent_handoffs.py, SqliteAgentHandoffStore. The table agent_handoffs is a list of
-- rows in the order of rowid; put_required, load, recover_run and submit are functions of the table,
-- each one transaction, since the store takes SQLite's write lock at its start. What pydantic does
-- with a model (dump, validate, ==) is the interface Pydantic, with the laws that a dumped model is
-- read back and that a model equals itself, which floats that JSON cannot hold would break. The
-- graph that `submit` drives on is a state of any type, and the continuation a function of it.
-- Nudge: middleware/nudge_policy.py, NudgePolicy. A method returns the policy and the decision.
-- ExitControl: middleware/exit_control.py, ExitControlMiddleware. A hook returns the middleware, its
-- events and its outcome; ExitControl/Budgets runs the hooks in any order and for any invocations, and
-- counts their nudges; ExitControl/Turns runs the hooks over a sequence of model turns, which
-- stands for the loop that langchain runs.
-- LoopDetection: middleware/loop_detection.py, LoopDetectionMiddleware: the window of tool results, its
-- counts and the diagnostic. json.dumps is a parameter.
-- Installer: integrations/installer.py. Installer/JsonPath has the functions on shared JSON documents,
-- Installer/Disk the file system, in which other processes may change files before any call and any
-- call may be refused, and Installer/Apply the application of a prepared operation with its rollback.
-- Installer/Plan has what an install or an uninstall is to do with one file or JSON entry, where hashlib
-- and json are the record Codec.
--
-- Topology: the check of the phase graph in core/loader.py. Topology has the declaration and its
-- dependencies, Topology/Cycles the depth-first search, Topology/Islands the walk from the input,
-- Topology/Order Kahn's algorithm and Topology/Check the whole. A set is a list without repetition.
-- Common/Walk is the worklist walk that the graph checks share.
-- Writers: which phases may write a field, in core/loader.py: the ancestors of a phase, the refusal of
-- parallel writers and of unannounced overwrites.
-- State: the blackboard of core/state.py. State has the business data, a JSON object, its reducer and
-- the helpers that route fields, State/Messages the reducer of the messages and State/Flow that of the
-- framework state. FrameworkState's validation, convert_to_messages and the id of a full reset are
-- parameters. State/FanOut folds the deltas of parallel phases, as langgraph does.
-- Checkpoint: core/checkpoint_validity.py, which checkpoints stay valid after a change (Checkpoint) and
-- the choice of a checkpoint before a phase (Checkpoint/Before).
-- Engine: core/result.py, what the engine answers, and adapters/result_mapping.py, which makes an
-- answer of the application of it; Engine/Payload is the validator of that answer.
-- Manifest: the part of an Agent's node in core/manifest.py that a task is built from.
-- HostNative: adapters/host_native.py. HostNative has host_native_agent_phases, which Agent phases a host
-- can answer; HostNative/Task the construction of a handoff record from a stop of the engine, with
-- HostNative/PhaseInputs, Instructions and Resources, and the check of a result. pathlib, jsonschema,
-- json.dumps, uuid5 and the clock are the record Platform, with no law assumed.
-- HostRuntime: adapters/host_native_runtime.py, HostNativeRuntimeAdapter. A call takes the state under a
-- state root, which is the handoff table, the handoff events of the traces and the graph's own state,
-- and leaves another. HostRuntime/Run is run, HostRuntime/Resume is resume, and submit_agent_result is
-- HostRuntime/Prepare (the checks before the store), Continue (what the store's transaction runs) and
-- Submit (the transaction and what follows). HostRuntime/Trace has append_run_event_once of
-- callbacks/emit.py, which raises where the sink cannot be opened and loses the event where it cannot be
-- written; each of the three places of a call that write meets the trace as the call's Moment says. The runner and the compiler (core/runner.py,
-- core/compiler.py) are the interface Runner in HostRuntime/Services: functions of the graph's state
-- that return or raise, and compile_skill gives the same for a skill root in every call. The texts of
-- exceptions, the equality of requests and the hash of a result are the interface Python, with the
-- law that a request equals itself.
--
-- A number is a natural number, since no counter here is of a fixed width. Loops over a worklist
-- run on fuel, as many rounds as the graph has names and edges, and the depth-first search goes as
-- deep as it has names; the theorems about them show that this is enough; every other function is
-- by recursion on its data. Not modelled: parsing and compilation of skills, the assembly of
-- langgraph graphs, the runner, vendor command lines, tracing, and everything that
-- only formats text, which do their work in third-party libraries or in files; nor, of the
-- installer, text blocks and the loop over targets; of the loader, static data flow; of the
-- blackboard, the mapping facade of BusinessData.
pub mod Common
pub mod Json
pub mod Domain
pub mod Engine
pub mod Handoff
pub mod Nudge
pub mod ExitControl
pub mod Installer
pub mod Config
pub mod LoopDetection
pub mod Manifest
pub mod Topology
pub mod Writers
pub mod State
pub mod Checkpoint
pub mod HostNative
pub mod HostRuntime
