-- ===== src/Lib.antt =====
-- Mossbridge connects a chat channel to a coding agent's runtime. This library models the stores
-- that decide when a turn may start, what a thread waits for, how a session is refreshed without
-- losing or repeating a turn, and what is queued for delivery.
--
-- The parts. The application takes an inbound message to the turn gate, which holds a scope (a
-- binding key and a workspace) until its turn ends. The runtime's events update the thread state,
-- which keeps the approvals that wait for an answer. A refresh request moves a scope to a successor
-- thread: pending, applied, successor started, first turn started, then completed or failed;
-- reports of the successor's turn may come before its id does, and are kept until then. Messages
-- that the system sends to itself wait in a queue on disk until the account's next poll, reminders
-- until they are due, and replies that could not be delivered until the sender writes again. A
-- command that needs approval is compared, word by word, with the prefixes that the user allowed. A
-- range of minutes says how often the system checks in, and the activity of the last minutes
-- whether a conversation is hot. The delivery gathers the pieces of a reply by run, sends them to
-- the target of the run, and hands what the channel does not take to the deferred replies.
--
-- The files.
--   Prelude and its children: texts, lists, dictionaries, sorting, searches that keep both sides.
--   Js: a JavaScript value as the code tests it, a string or something else, and `normalizeText`.
--   TurnGate: src/core/turn-gate-store.js (begin, attach_thread, release_scope, release_thread,
--     is_pending); TurnGate/Keys and TurnGate/Lifecycle: its keys, and what a turn does to the gate.
--   ThreadState: src/core/thread-state-store.js (apply_runtime_event, resolve_approval,
--     mark_stale_turn_recovered, mark_runtime_thread_unhealthy); Approvals, Outstanding, Events and
--     Runs below it: the queue of approvals as a list of ids, and every sequence of operations.
--   Refresh/Request and Refresh/Store: src/core/session-refresh-request-store.js, the entries and the
--     operations, with the latter's children Entries, Reports, Replay, Restart and Grace; beside them
--     Pending, Startup, Grace, Outcome and Early: what the operations do.
--   Queues/System: src/core/system-message-queue-store.js; Queues/Shape: what the queues share;
--     Queues/System/Laws: the list of messages that the file stands for.
--   Queues/Stored: a file that stands for a sorted list, for the queues without an expiry at load.
--   Queues/Reminder: src/adapters/channel/weixin/reminder-queue-store.js (enqueue, list_due,
--     peek_next_due_at_ms, list_pending, cancel); Queues/Reminder/Laws: what it hands over and keeps.
--   Queues/Deferred: src/core/deferred-system-reply-store.js (enqueue, drain_for_sender_with_expiry,
--     discard_for_superseded_run, count_for_sender); below it Merge, the merged text; Fields, entries
--     that are read back as written; Slots, at most one reply to merge with; Laws, the operations.
--   Queues/Screenshot: src/core/timeline-screenshot-queue-store.js.
--   Approval: src/adapters/runtime/shared/approval-command.js (split_command_line,
--     canonicalize_command_tokens, matches_command_prefix); Approval/Input and
--     Tools: what a tool's input asks for; Paths: its paths; Approval/Words: splitting and joining;
--     Approval/Canonical: taking off the shells; Approval/Plain and
--     Allowed: which commands of plain words a list allows.
--   Checkin: src/core/checkin-config-store.js (get_range, set_range, parse_checkin_range_minutes);
--     Checkin/Bounds: its ranges.
--   Activity: src/core/activity-tracker.js (record_activity_event, prune_activity_events,
--     get_conversation_heat); Activity/Bounds: what is kept, and when a conversation is hot.
--   RuntimeNotices: src/core/runtime-notices.js (classify_runtime_notice,
--     shield_runtime_notice_for_delivery): the runtime's words about its limits.
--   Queues/System/Dispatcher: the calls that src/core/system-message-dispatcher.js makes of the queue.
--   Queues/System/Dispatch: flushPendingSystemMessages of src/core/app.js; Kept: what it keeps.
--   ContextUsage: src/core/runtime-context-usage-store.js (record_context, get_context,
--     record_auto_compact); ContextUsage/Usage: when a thread's usage is known.
--   Cooldown: src/core/runtime-cooldown-store.js (set_cooldown, get_active_cooldown); Cooldown/Clock:
--     reading the time of a reset; Laws and Future: what is kept, and when a limit resets.
--   Delivery: src/core/stream-delivery.js, the class StreamDelivery. Delivery/Texts: appending pieces;
--     State and Targets: its maps and where replies go; Runs: a run and its items; Actions: what a reply
--     asks for; Failures, Sending and Retry: the channel, its retries and the deferral; Collect and
--     Flush: what is pending and its delivery; Events: handle_runtime_event. The others prove: Overlap,
--     Attempts, Fates, Items, Marks, Same, Steps, Progress, Flushed, Consistent, Kept, Invariant, Late,
--     Suppression, Silent, Waiting.
--   Examples: the theorems at concrete inputs.
--
-- How the code is read. A method of a store takes the state (or the file) and returns it with the
-- method's result; `none` is `null` or a thrown error. A clock, `Date.now()` or `new Date()`, is
-- the argument `now` in milliseconds; a time that is saved as ISO text is an optional number, none
-- where the text is empty or not a date. The random id of a request is an argument. A text is the
-- list of its UTF-16 units, so that `trim`, `===` and the empty test are defined and not assumed.
-- `toLowerCase`, `localeCompare` and `toISOString` are parameters: of the second it is assumed that
-- it orders the ids, of the third that its texts are trimmed and not empty. JSON written and read
-- back is the same entry; objects that are only passed on are their JSON text. A status that the
-- program never writes is `unknown`. Every loop is recursion on a list but one: taking the shells
-- off a command has a bound, one more than the size of its tokens, and any bound over that size
-- gives the same result.
--
-- Not modelled: file locks and files that are corrupted, the application's wiring (src/core/app.js)
-- but for the round of the dispatch, the texts that the dispatcher prepares, channels, runtimes,
-- memory stores and tools.
pub mod Prelude
pub mod Js
pub mod TurnGate
pub mod ThreadState
pub mod Refresh
pub mod Queues
pub mod Approval
pub mod Checkin
pub mod Activity
pub mod RuntimeNotices
pub mod ContextUsage
pub mod Cooldown
pub mod Delivery
mod Examples
