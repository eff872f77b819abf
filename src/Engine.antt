-- ===== src/Engine.antt =====
-- collaboration_engine_v2/agent.py: two tracks of model calls, each repairing its own candidate,
-- with packets between them and a single verification at a time.
-- `State` holds the records, `Packets` their delivery, `Schedule` the start of a call, `Verify` the
-- verification queue, `Decompose` the restarts, `Salvaging` the search for a skeleton that compiles,
-- `Observe` and `Finish` what follows a finished call, `Create` the constructor, `Retry` the tries of
-- a call.
pub mod State
pub mod Packets
pub mod Schedule
pub mod Verify
pub mod Decompose
pub mod Salvaging
pub mod Observe
pub mod Finish
pub mod Create
pub mod Retry
mod Tests
