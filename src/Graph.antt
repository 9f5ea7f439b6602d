-- ===== src/Graph.antt =====
-- The entity graph (fd_open_data_mcp/graph/manager.py).
pub mod Manager
pub mod Traversal
pub mod Depth
pub mod Cache
mod Tests
