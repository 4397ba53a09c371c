-- ===== src/Monitor.antt =====
-- The watch over the operational monitor: scripts/stale-monitor.ts, which judges from the run
-- history whether the monitor is alive, scripts/monitor-artifact-state.ts, which selects the
-- checkpoint that a run may continue from, scripts/monitor-heartbeat.ts, which reports a run to an
-- outside watch, and scripts/monitor-external-trigger.ts, which starts one.
pub mod Instant
pub mod Body
pub mod Transport
pub mod Schedule
pub mod Artifact
pub mod Tick
pub mod Heartbeat
pub mod Trigger
mod Examples
