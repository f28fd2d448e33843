-- ===== src/Monitor.antt =====
-- internal/adapter/monitor: the backends of the configuration as a map of specs, and the assignments that
-- other nodes send.
pub mod Specs
pub mod SpecList
pub mod Assignments
mod Tests
