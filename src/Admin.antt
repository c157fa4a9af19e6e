-- ===== src/Admin.antt =====
-- app/admin/service.py: the administration that the console and the Admin API share.
pub mod Events
pub mod Requests
pub mod Settings
pub mod Agents
pub mod Logs
pub mod Users
pub mod Routing
pub mod Deletion
pub mod Jobs
