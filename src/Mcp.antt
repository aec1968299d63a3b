-- ===== src/Mcp.antt =====
-- src/gptlink/mcp: the tools of the MCP server and the authentication of its callers.
pub mod Tools
pub mod Auth
mod Tests
