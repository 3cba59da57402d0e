-- ===== src/LanServer.antt =====
-- myIOCP/CLanServer.h and CLanServer.cpp: sessions, their send queue, their I/O and its lifetime.
pub mod State
pub mod Close
pub mod Send
pub mod Receive
pub mod Server
pub mod Lifetime
pub mod Work
pub mod Settle
pub mod Slots
pub mod Steps
pub mod Reach
pub mod Leaving
pub mod Aside
pub mod Wire
pub mod Stream
pub mod Framing
pub mod Rejecting
pub mod Holding
pub mod Stopping
pub mod Refusing
pub mod Racing
pub mod Starting
pub mod Restart
pub mod Queue
pub mod SendOrder
