-- ===== src/Api.antt =====
-- app/api: what stands in front of the routes of the Admin API.
pub mod Keys
pub mod Scopes
pub mod Protect
