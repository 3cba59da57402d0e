-- ===== src/Chat.antt =====
-- myIOCP/CChatServer.h, CChatServer.cpp, CContentQueue.h and CContentQueue.cpp: the content thread,
-- its state in Chat/State and its handlers in Chat/Handlers.
pub mod State
pub mod Handlers
pub mod Invariant
pub mod Moves
pub mod Safety
pub mod Requests
pub mod Posting
pub mod Life
pub mod Loop
pub mod Reach
pub mod Replies
