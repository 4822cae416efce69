-- ===== src/Refresh/Store.antt =====
-- src/core/session-refresh-request-store.js: the operations of the store, each over its saved state.
mod Entries
mod Reports
mod Replay
mod Restart
mod Grace
pub use Entries.{EarlyStart, EarlyOutcome, State}
unfoldable pub use Entries.{
  create_empty_state, fresh_request, enqueue_request, request_refresh, found_entry,
  get_pending_request, has_id, update_where, last_updated, update_request, mark_applied,
  mark_skipped, with_grace, mark_completed,
}
pub use Reports.{Outcome}
unfoldable pub use Reports.{
  is_live_successor, find_live_successor, record_early_runtime_start, has_applied, start_found,
  mark_first_turn_started, record_early_runtime_outcome, says_completed, says_present, has_evidence,
  failure_code_of, failed_request, completed_request, finished_request, outcome_found,
  complete_from_runtime_outcome,
}
unfoldable pub use Replay.{
  reports, consume_early_runtime_start, consume_early_runtime_outcome, outcome_of, started_request,
  replay_start, replay_outcome, replay_early, mark_successor_started, list_requests,
  record_superseded_run, list_superseded_runs,
}
unfoldable pub use Restart.{
  can_requeue, requeued_request, requeues, saved_if_updated, requeue_after_pre_start_failure,
  is_interrupted, interrupted_request, reconcile_startup,
}
unfoldable pub use Grace.{
  default_post_refresh_grace_max_age_ms, grants_grace, grace_expired, use_grace,
  consume_post_refresh_grace,
}
