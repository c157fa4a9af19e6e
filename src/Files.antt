-- ===== src/Files.antt =====
-- What the application does to its files: the rotation of the key, backups and restoring, and the
-- model files.
pub mod Models
pub mod Backups
pub mod Rekey
pub mod Restore
