-- ===== src/Examples.antt =====
-- The theorems at concrete inputs, and tests of the definitions.
mod Gate
mod Threads
mod Refreshing
mod Queueing
mod Reminders
mod Replies
mod Commands
mod Contexts
mod Intervals
mod Heat
mod Streams
mod Limits
