-- ===== src/Delivery.antt =====
-- src/core/stream-delivery.js: the replies of the runtime's runs, from the pieces that are streamed to
-- the messages that the channel takes. `Texts` has the streamed text, `State` the state, `Targets` where
-- a reply goes, `Runs` a run and its items, `Sending` the channel, `Flush` and `Events` put them
-- together; the others prove.
pub mod Texts
pub mod Overlap
pub mod State
pub mod Targets
pub mod Runs
pub mod Failures
pub mod Sending
pub mod Retry
pub mod Actions
pub mod Collect
pub mod Flush
pub mod Events
pub mod Attempts
pub mod Items
pub mod Marks
pub mod Fates
pub mod Same
pub mod Steps
pub mod Progress
pub mod Flushed
pub mod Consistent
pub mod Kept
pub mod Invariant
pub mod Late
pub mod Suppression
pub mod Silent
pub mod Waiting
