-- ===== src/Mcp.antt =====
-- app/mcp/ and app/admin/mcp.py: the servers whose tools an agent may use.
pub mod Names
pub mod Server
pub mod Manager
pub mod Catalogue
pub mod Registry
