-- ===== src/Mcp.antt =====
-- chainweaver/mcp/security.py
mod Tests
pub mod RateLimit
pub mod Gate
pub mod Readiness
pub mod Exposure
pub mod Server
