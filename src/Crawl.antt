-- ===== src/Crawl.antt =====
-- Crawl plans (fd_open_data_mcp/crawl): the plan's record and its splitting into work items.
pub mod Plan
pub mod Split
pub mod Estimate
mod Tests
