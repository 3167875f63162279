-- ===== src/Client.antt =====
-- server/mqclient.cpp: the test client of the HTTP server.
pub mod Defs
pub mod Calls
pub mod Main
pub mod Bodies
pub mod Effects
pub mod Alone
pub mod Numbers
pub mod Exchange
pub mod Items
pub mod Pushes
pub mod Counts
pub mod Leases
pub mod Rounds
pub mod Pops
pub mod Passing
pub mod Whole
pub mod Erased
pub mod Erasing
mod Tests
