-- ===== src/Genode.antt =====
-- The platform code for Genode, in C++.
pub mod Factory
pub mod Root
pub mod Log
pub mod Message
pub mod Memory
pub mod Block
pub mod Timer
pub mod Rom
pub mod Start
