-- ===== src/Executions.antt =====
-- src/executions.ts: commands run for a driver, as processes of the page's own. `Capture` is the
-- bounded output capture, `Signals` the signal names, `Line` the shell line of a command, `Registry`
-- the registry of executions, with the run loop of each.
pub mod Capture
pub mod Line
pub mod Signals
pub mod Registry
mod Tests
