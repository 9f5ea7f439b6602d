-- ===== src/Fetch.antt =====
-- The fetch layer (fd_open_data_mcp/fetch): what is missing of a series, and which paths are skipped.
pub mod Settings
pub mod Coverage
pub mod Suppress
pub mod Demote
pub mod ActivePool
mod Tests
