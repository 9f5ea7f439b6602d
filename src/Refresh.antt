-- ===== src/Refresh.antt =====
-- The refresh control loop (fd_open_data_mcp/refresh).
pub mod Runs
pub mod Policy
pub mod Reconciler
pub mod Events
pub mod Fleet
mod Tests
mod TickTests
mod FleetTests
