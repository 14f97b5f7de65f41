-- ===== src/Linux.antt =====
-- The Linux platform: the C files under src/platform/linux and the linux folders of the sessions.
pub mod Descriptor
pub mod Memfile
pub mod Timer
pub mod Epoll
pub mod Socket
pub mod Message
pub mod Packet
pub mod Client
pub mod Broker
pub mod Linker
pub mod Block
