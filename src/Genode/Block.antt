-- ===== src/Genode/Block.antt =====
-- The block sessions for Genode.
pub mod Server
pub mod Dispatcher
pub mod Client
pub mod Exchange
