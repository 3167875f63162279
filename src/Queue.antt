-- ===== src/Queue.antt =====
-- server/Queue.hpp and server/Queue.cpp: the message queue.
pub mod State
pub mod Buckets
pub mod Delays
pub mod Defs
pub mod Threads
pub mod Invariant
pub mod History
pub mod Monitoring
pub mod Tests
pub mod Pushes
pub mod Moves
pub mod Lifecycle
pub mod Wakeups
pub mod Places
pub mod Retries
pub mod Memory
pub mod Failed
pub mod Acks
pub mod View
pub mod Service
pub mod Delaying
