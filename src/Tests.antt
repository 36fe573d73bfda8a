-- ===== src/Tests.antt =====
-- Runs of the code on concrete inputs, and instances of the theorems.
mod World
mod Wire
mod Streams
mod Program
mod Run
mod Answers
mod Gone
mod Locks
mod Relay
mod Ending
mod Uplink
mod Drain
mod Files
mod Capture
