-- ===== src/HostRuntime/Submit/Retry.antt =====
-- What a submission that was answered meets when the host sends it again, and what a resume is given.
use graph_skill_runtime.Common.{String, or_else, true, Option, some, ◌≡◌, arith, ap, sym, ◌∙◌}
use mathlib.Core.Path.{subst}
use graph_skill_runtime.Common.Outcome.{Outcome, done, raised}
use graph_skill_runtime.Json.{JsonObject}
use graph_skill_runtime.Domain.Run.{RunRequest}
use graph_skill_runtime.Domain.Agent.{RunResult}
use graph_skill_runtime.Handoff.{AgentHandoffRecord, Pydantic, Exception}
use graph_skill_runtime.Handoff.Settled.{Steps}
use graph_skill_runtime.HostRuntime.Trace.{Trace, writable, is_logged, terminal_id}
use graph_skill_runtime.HostRuntime.Services.{Runner, Python, Moment, HostState, opens}
use graph_skill_runtime.HostRuntime.Prepare.{SubmitAgentResultRequest, prepare}
use graph_skill_runtime.HostRuntime.Resume.{resume}
use graph_skill_runtime.HostRuntime.Submit.{
  announce, conclude_submit, submit_body, submit_agent_result,
}
use graph_skill_runtime.HostRuntime.Submit.Announce.{IsAnnounced, announce-answers, announce-logs}
use graph_skill_runtime.HostRuntime.Submit.Replay.{submit_body-IsReplayed}

pub conclude_submit-done :
    (p : Pydantic) (py : Python) {W : Type 0} (runner : Runner W) (m : Moment)
    (request : SubmitAgentResultRequest) (run_request : RunRequest)
    (entry : Option AgentHandoffRecord) (response : RunResult)
    (b : Outcome Exception RunResult × HostState p W)
    → b.0 ≡ done response
    → conclude_submit p py runner m request run_request entry b ≡ (done response, b.1)
conclude_submit-done p py runner m request run_request entry response (done r, s) e = ground arith
conclude_submit-done p py runner m request run_request entry response (raised x, s) e =
    absurd (ground arith)

module _ (p : Pydantic) (py : Python) {W : Type 0} (runner : Runner W)
    (request : SubmitAgentResultRequest) (run_request : RunRequest) where
  module _ (s : HostState p W) (m : Moment) (attempt_id : Option String) (response : RunResult)
      (answered : (submit_body p py runner m attempt_id request run_request s).0 ≡ done response)
      (u : HostState p W)
      (steps : Steps
        (Trace × W)
        p
        (submit_body p py runner m attempt_id request run_request s).1.table
        u.table)
      (m' : Moment) (attempt' : Option String) where
    replayed_whole :
        opens m' ≡ true
        → submit_agent_result p py runner m' attempt' request run_request u ≡ (
          done response,
          (announce p py runner m' attempt' request run_request
              (submit_body-IsReplayed p py runner request run_request s m attempt_id response
                answered u steps m' attempt').entry
              response
              u).1,
        )
    unfolding submit_agent_result
    replayed_whole opened =
        let h =
          submit_body-IsReplayed p py runner request run_request s m attempt_id response answered u
            steps m' attempt' in
        let (answered', _, _) =
          announce-answers p py runner m' attempt' request run_request h.entry response u h.told
            h.found opened in
        let entry = (prepare p py runner request run_request u.table).0 in
        ap (conclude_submit p py runner m' request run_request entry) h.replayed
        ∙ conclude_submit-done p py runner m' request run_request entry response _ answered'

    -- Once the body of a submission returned an answer, the same submission is answered the same
    -- and leaves the table and the graph's state as they are, whatever the store served in between,
    -- provided that the trace can be opened.
    pub submit_agent_result-again :
        opens m' ≡ true
        → ((submit_agent_result p py runner m' attempt' request run_request u).0 ≡ done response)
          × ((submit_agent_result p py runner m' attempt' request run_request u).1.table ≡ u.table)
          × ((submit_agent_result p py runner m' attempt' request run_request u).1.graph ≡ u.graph)
    submit_agent_result-again opened =
        let h =
          submit_body-IsReplayed p py runner request run_request s m attempt_id response answered u
            steps m' attempt' in
        let (_, table, graph) =
          announce-answers p py runner m' attempt' request run_request h.entry response u h.told
            h.found opened in
        (
          ap (λ (x : Outcome Exception RunResult × HostState p W). x.0) (replayed_whole opened),
          ap (λ (x : Outcome Exception RunResult × HostState p W). x.1.table)
                (replayed_whole opened)
              ∙ table,
          ap (λ (x : Outcome Exception RunResult × HostState p W). x.1.graph)
                (replayed_whole opened)
              ∙ graph,
        )

    -- Once the body of a submission returned an answer, the same submission, where the trace can be
    -- written, leaves the result's event in the trace and the event of the wait point that the answer
    -- announces, whatever the store served and the trace lost in between.
    pub submit_agent_result-repairs :
        m'.after ≡ writable
        → m'.last ≡ writable
        → (is_logged run_request.run_id
              (terminal_id request.result.task_id (py.result_hash request.result))
              (submit_agent_result p py runner m' attempt' request run_request u).1.trace
            ≡ true)
          × IsAnnounced p run_request.run_id response.agent_required u.table
              (submit_agent_result p py runner m' attempt' request run_request u).1.trace
    submit_agent_result-repairs after_writes last_writes =
        let h =
          submit_body-IsReplayed p py runner request run_request s m attempt_id response answered u
            steps m' attempt' in
        let (logged, next) =
          announce-logs p py runner m' attempt' request run_request h.entry response u h.told
            h.found after_writes last_writes in
        subst
          (λ (x : Outcome Exception RunResult × HostState p W).
            (is_logged run_request.run_id
                (terminal_id request.result.task_id (py.result_hash request.result)) x.1.trace
              ≡ true)
            × IsAnnounced p run_request.run_id response.agent_required u.table x.1.trace)
          (sym (replayed_whole (ground arith)))
          (
            subst
                (λ (id : String).
                  is_logged run_request.run_id (terminal_id id (py.result_hash request.result))
                    (announce p py runner m' attempt' request run_request h.entry response
                      u).1.trace
                  ≡ true)
                h.same_task logged,
            next,
          )

    -- Once the body of a submission returned an answer, and whatever the store served since, a resume
    -- with its run id and checkpoint_ref, for the same run request, is given that answer.
    pub resume-submitted :
        (skill_root : String) (human_response : Option JsonObject)
        → resume p py
            (record {
              run_id = request.run_id;
              skill_root = skill_root;
              state_root = request.state_root;
              checkpoint_ref = some request.checkpoint_ref;
              human_response = human_response;
            })
            run_request
            u.table
          ≡ response
    unfolding resume
    resume-submitted skill_root human_response =
        let h =
          submit_body-IsReplayed p py runner request run_request s m attempt_id response answered u
            steps m' attempt' in
        rw (h.loaded, resume, h.owned)
          (ap (λ (o : Option RunResult). or_else h.entry.required_response o) h.responded)
