-- ===== src/Stream.antt =====
-- fd_open_data_mcp/stream: the lease queue of work items and the in-memory event stream.
pub mod Lease
pub mod RedisLease
pub mod Replay
pub mod Envelope
pub mod Memory
mod Tests
mod MemoryTests
mod RedisTests
mod EnvelopeTests
