-- ===== src/Server.antt =====
-- server/QueueServer.cpp: the HTTP handlers over the queue.
pub mod Defs
pub mod Handler
pub mod Turns
pub mod Answers
pub mod Tests
pub mod Start
pub mod Launching
