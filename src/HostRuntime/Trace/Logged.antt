-- ===== src/HostRuntime/Trace/Logged.antt =====
-- When a write of a handoff event returns, and what it does to the trace.
use graph_skill_runtime.Common.{
  String, true, [], ◌∷◌, ◌++◌, ◌≡◌, refl, arith, ◌==◌, ◌&&◌, ◌||◌, eq_iff,
}
use graph_skill_runtime.Common.Outcome.{done}
use graph_skill_runtime.HostRuntime.Trace.{
  HandoffEvent, Trace, Sink, unopened, unwritable, writable, is_open, is_logged,
  append_run_event_once,
}

is_logged-snoc :
    (run_id id : String) (trace : Trace) (e : HandoffEvent)
    → is_logged run_id id (trace ++ e ∷ [])
      ≡ (is_logged run_id id trace || e.run_id == run_id && e.handoff_event_id == id)
unfolding is_logged
is_logged-snoc run_id id [] e = ground arith
is_logged-snoc run_id id (x ∷ trace) e = ground (arith, is_logged-snoc run_id id trace e)

-- A call that finds the trace open returns.
pub append_run_event_once-returns :
    (sink : Sink) (e : HandoffEvent) (trace : Trace)
    → is_open sink ≡ true
    → (t : Trace) × (append_run_event_once sink e trace ≡ done t)
unfolding append_run_event_once
append_run_event_once-returns (unopened x) e trace h = absurd (ground arith)
append_run_event_once-returns unwritable e trace h = (trace, refl)
append_run_event_once-returns writable e trace h = (_, refl)

-- A write that succeeds leaves the event logged.
pub append_run_event_once-logs :
    (e : HandoffEvent) (trace t : Trace) (run_id id : String)
    → append_run_event_once writable e trace ≡ done t
    → e.run_id ≡ run_id
    → e.handoff_event_id ≡ id
    → is_logged run_id id t ≡ true
unfolding append_run_event_once
append_run_event_once-logs e trace t run_id id h same_run same_id =
    ground (arith, is_logged-snoc run_id id trace e, eq_iff run_id run_id, eq_iff id id)

-- No write takes an event away.
pub append_run_event_once-keeps :
    (run_id id : String) (sink : Sink) (e : HandoffEvent) (trace t : Trace)
    → append_run_event_once sink e trace ≡ done t
    → is_logged run_id id trace ≡ true
    → is_logged run_id id t ≡ true
unfolding append_run_event_once
append_run_event_once-keeps run_id id (unopened x) e trace t q h = absurd (ground arith)
append_run_event_once-keeps run_id id unwritable e trace t q h = ground arith
append_run_event_once-keeps run_id id writable e trace t q h =
    ground (arith, is_logged-snoc run_id id trace e)
