-- ===== src/Mcpserver.antt =====
-- internal/mcpserver: the tools of the MCP server, and internal/platform/audit, their audit.
pub mod Audit
pub mod Errors
pub mod Call
pub mod Tools
