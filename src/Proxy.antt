-- ===== src/Proxy.antt =====
-- fd_open_data_mcp/proxy: the proxy pool, the health of the routes through it, and their selection.
pub mod Circuit
pub mod BanRules
pub mod Pool
pub mod RateLimit
pub mod Selector
pub mod Probe
mod Tests
mod RouteTests
