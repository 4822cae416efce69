-- ===== src/Refresh/Store/Restart.antt =====
-- src/core/session-refresh-request-store.js. A failure before the start queues a request again, and a restart fails what was under way.
use mossbridge.Prelude.{
  ℕ, ◌+◌, Text, is_empty, codes, [], Option, none, some, Bool, true, false, ◌&&◌, ◌||◌,
  if◌then◌else◌, ltb, first_some,
}
use mossbridge.Js.{Value, normalize_text}
use mossbridge.Refresh.Request.{
  Status, pending, completed, terminal_failed, Run, Request, Patch, normalize_patch, spread,
  is_pending, is_first_turn_started, is_in_flight, normalize_superseded_run, merge_superseded_runs,
}
use mossbridge.Refresh.Store.Entries.{State, has_id, update_where, last_updated}

-- `["applied", "successor_started", "first_turn_started", "completed"].includes(status)`.
unfoldable pub can_requeue : Status → Bool
can_requeue completed = true
can_requeue s = is_in_flight s

unfoldable pub requeued_request : Patch → Run → ℕ → Request → Request
requeued_request p run now e =
    let r = normalize_superseded_run run now in
    record (spread e (normalize_patch p)) {
      superseded_runs =
          if is_empty r.thread_id
          then e.superseded_runs
          else merge_superseded_runs e.superseded_runs r now;
      status = pending;
      applied_at = none;
      last_applied_at = first_some e.applied_at e.last_applied_at;
      last_completed_at = first_some e.completed_at e.last_completed_at;
      requeued_at = some now;
      last_pre_start_failure_at = some now;
      pre_start_recovery_count = e.pre_start_recovery_count + 1;
      completed_at = none;
      new_thread_id = [];
      new_turn_id = [];
      successor_started_at = none;
      first_turn_started_at = none;
      terminal_at = none;
      terminal_status = [];
      writeback_settled = false;
      redispatch_generation = e.redispatch_generation + 1;
      grace_thread_id = [];
      grace_remaining = 0;
      grace_started_at = none;
      grace_last_used_at = none;
    }

abbrev pub requeues : Text → Request → Bool
requeues i e = has_id i e && can_requeue e.status

-- A result only, and a save only, where an entry was changed.
unfoldable pub saved_if_updated : State → State → Option Request → State × Option Request
saved_if_updated st st' none = (st, none)
saved_if_updated st st' (some e) = (st', some e)

unfoldable pub requeue_after_pre_start_failure :
    State → Value → Patch → Run → ℕ → State × Option Request
unfolding saved_if_updated
requeue_after_pre_start_failure st id p run now =
    let i = normalize_text id in
    let f = requeued_request p run now in
    if is_empty i
    then (st, none)
    else saved_if_updated st (record st { requests = update_where (requeues i) f st.requests })
        (last_updated (requeues i) f st.requests)

-- What a restart cannot resume: a transition under way, or a retry whose message body is lost.
unfoldable pub is_interrupted : Request → Bool
is_interrupted e = is_in_flight e.status || is_pending e.status && ltb 0 e.redispatch_generation

unfoldable pub interrupted_request : ℕ → Request → Request
interrupted_request now e = record e {
  status = terminal_failed;
  terminal_at = some now;
  terminal_status = codes "restart_incomplete";
  failure_code =
      if is_first_turn_started e.status
      then codes "restart_after_runtime_started_without_terminal_receipt"
      else codes "restart_pre_start_retry_body_unavailable";
}

unfoldable pub reconcile_startup : State → ℕ → State
reconcile_startup st now = record st {
  requests = update_where is_interrupted (interrupted_request now) st.requests;
}
