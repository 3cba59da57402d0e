-- ===== src/Tests.antt =====
-- The theorems applied to concrete states, and runs of the code on them.
pub mod Wire
pub mod Server
pub mod Content
pub mod Threads
pub mod Lines
pub mod Lives
pub mod Console
pub mod Outside
pub mod Bots
