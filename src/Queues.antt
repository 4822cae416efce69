-- ===== src/Queues.antt =====
-- The queues that the program keeps in JSON files: system messages
-- (src/core/system-message-queue-store.js), reminders
-- (src/adapters/channel/weixin/reminder-queue-store.js), deferred replies
-- (src/core/deferred-system-reply-store.js) and screenshots
-- (src/core/timeline-screenshot-queue-store.js).
pub mod Shape
pub mod Stored
pub mod System
pub mod Reminder
pub mod Screenshot
pub mod Deferred
