-- ===== src/Tests.antt =====
-- Concrete kernels that meet the laws, runs of the code on them, and the theorems at their inputs.
mod Factories
mod Descriptors
mod Memfiles
mod Timers
mod Polls
mod Messages
mod Sockets
mod Blocks
mod Logs
mod Letters
mod Memories
mod Streams
mod Buffers
mod Sessions
mod Regions
mod Pairs
mod Packets
mod Requests
mod Brokers
mod Platform
