-- ===== src/Mcp.antt =====
-- src/mewcode/mcp: the client of servers of the Model Context Protocol.
pub mod Peer
mod Tests
