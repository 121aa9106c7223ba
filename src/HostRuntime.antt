-- ===== src/HostRuntime.antt =====
-- adapters/host_native_runtime.py: runs whose Agent phases the host itself executes, over the handoff
-- store. A call answers and leaves the state under the request's state root: the handoff table, the
-- handoff events of the traces, and the graph's own state, which a failed transaction does not take
-- back.
pub mod Trace
pub mod Services
pub mod Run
pub mod Resume
pub mod Prepare
pub mod Continue
pub mod Submit
pub mod Stored
pub mod Valid
pub mod Answers
mod Tests
