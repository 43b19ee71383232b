-- ===== src/Tests.antt =====
-- The theorems at concrete inputs, and runs of the code.
mod Rings
mod Slots
mod Threads
mod Consumers
mod Producer
mod Crash
mod Waits
mod Channels
