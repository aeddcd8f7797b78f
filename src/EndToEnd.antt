-- ===== src/EndToEnd.antt =====
-- A client of client/client.c and a thread of server/thread_manager.c on the two ends of a connection, on
-- which the first message of each side arrives in a block of its own.
pub mod Putting
pub mod Replacing
pub mod Getting
pub mod Removing
