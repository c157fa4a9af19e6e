-- ===== src/Examples.antt =====
-- Runs on concrete data: the theorems at inputs where their hypotheses hold.
mod Fixture
mod Access
mod Messages
mod Gateway
mod People
mod Turns
mod Trail
mod Renaming
mod Disk
mod Mailbox
mod Deployment
mod Servers
mod Conversations
mod Declarations
