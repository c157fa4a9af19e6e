-- ===== src/Channels.antt =====
-- app/channels: the pipeline that every message passes.
pub mod World
pub mod Dispatch
pub mod Command
pub mod Email
