-- ===== src/Refresh.antt =====
-- src/core/session-refresh-request-store.js: requests to move a conversation to a new runtime thread,
-- from the request over the successor's start and outcome to the turns of grace after it.
-- `Request` has an entry and its patches, `Store` the operations; the others prove.
pub mod Request
pub mod Store
pub mod Pending
pub mod Startup
pub mod Grace
pub mod Outcome
pub mod Early
