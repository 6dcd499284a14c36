-- ===== src/Httpapi.antt =====
-- internal/httpapi: what stands before the MCP server.
pub mod Usage
pub mod Router
pub mod Webhook
pub mod Denials
pub mod Access
