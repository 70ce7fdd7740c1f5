-- ===== src/Mcp.antt =====
-- internal/mcp/manager.go: what the manager of the MCP servers keeps.
pub mod RingBuf
