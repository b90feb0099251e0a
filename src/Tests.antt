-- ===== src/Tests.antt =====
-- Concrete states on which the theorems are applied.
mod Files
mod Kernel
mod Buffers
mod Children
mod Rings
mod Server
mod Refresh
mod Services
mod Main
mod Strings
mod Threads
mod Timers
mod Entries
mod Events
mod Master
