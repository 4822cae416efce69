-- ===== src/Examples/Refreshing.antt =====
-- src/core/session-refresh-request-store.js at concrete requests.
use mossbridge.Prelude.{
  ℕ, codes, ◌≡◌, refl, true, false, trim, is_empty, eq_text, or_text, [], ◌∷◌, none, some, Found,
  ◌≤◌, ◌+◌, keep, length, map, split_last, All, ◌&&◌, ltb, IsLast, ◌++◌,
}
use mossbridge.Js.{Value, str, other, normalize_text}
use mossbridge.Refresh.Request.{
  Run, Scope, Request, Patch, empty_patch, normalize_scope, scope_missing, same_scope, is_pending,
  is_applied, is_completed, is_first_turn_started, is_successor, is_in_flight,
  is_same_pending_scope, is_same_completed_scope, pending_request_matches_current_thread,
  resolve_completion_grace_turns, applied, completed, first_turn_started,
}
use mossbridge.Refresh.Store.{
  State, fresh_request, request_refresh, get_pending_request, is_live_successor,
  find_live_successor, Outcome, says_completed, says_present, has_evidence, completed_request,
  finished_request, complete_from_runtime_outcome, requeued_request, requeues,
  requeue_after_pre_start_failure, reconcile_startup, default_post_refresh_grace_max_age_ms,
  grants_grace, grace_expired, consume_post_refresh_grace,
}
use mossbridge.Refresh.Pending.{get_pending_request-request_refresh, request_refresh_only}
use mossbridge.Refresh.Startup.{
  reconcile_startup-settled, is_kept, keep-reconcile_startup, restarted, reconcile_startup-requeue,
}
use mossbridge.Refresh.Grace.{
  total_grace, Use, scope_of, granted, granted-le-total_grace, consume_post_refresh_grace-grants,
  used, use_once,
}
use mossbridge.Refresh.Outcome.{awaiting, complete_only_with_evidence, live, complete_settles_one}
use mossbridge.Refresh.Early.{EndSame, NoReport, in_order, reports_first, reports_first-eq-in_order}

abbrev scope : Scope
scope = record {
  binding_key = codes "w:a:s";
  workspace_root = codes "/srv";
  runtime_id = codes "codex";
}

abbrev no_run : Run
no_run = record {
  thread_id = [];
  turn_id = [];
  causal_message_id = [];
  redispatch_generation = 0;
  superseded_at = none;
}

abbrev first_request : Request
first_request = record {
  id = codes "r1";
  scope = scope;
  old_thread_id = codes "t0";
  new_thread_id = [];
  new_turn_id = [];
  causal_message_id = [];
  redispatch_generation = 0;
  superseded_runs = [];
  reason = codes "manual_maintenance";
  requested_by = codes "codex_maintenance";
  requested_at = some 1;
  applied_at = some 2;
  completed_at = none;
  skipped_at = none;
  skip_reason = [];
  status = applied;
  successor_started_at = none;
  first_turn_started_at = none;
  terminal_at = none;
  terminal_status = [];
  writeback_settled = false;
  assistant_outcome = [];
  failure_code = [];
  grace_turns = none;
  grace_thread_id = [];
  grace_remaining = 0;
  grace_started_at = none;
  grace_last_used_at = none;
  grace_expired_at = none;
  last_applied_at = none;
  last_completed_at = none;
  requeued_at = none;
  last_pre_start_failure_at = none;
  pre_start_recovery_count = 0;
}

abbrev holding : Request → State
holding e = record { requests = e ∷ []; early_runtime_starts = []; early_runtime_outcomes = [] }

abbrev successor : Patch
unfolding empty_patch
successor = record empty_patch {
  new_thread_id = some (codes "t1");
  new_turn_id = some (codes "u1");
}

abbrev good : Outcome
good = record {
  thread_id = str (codes "t1");
  turn_id = str (codes "u1");
  runtime_status = str (codes "completed");
  writeback_settled = true;
  assistant_outcome = str (codes "present");
}

nothing_reported : NoReport (codes "t1") (codes "u1") (holding first_request)
nothing_reported = record { no_start = refl; no_outcome = refl }

-- The start is reported without a time, and no two calls have the same clock.
reports_first-eq-in_order_example :
    EndSame [] []
      (reports_first
        (holding first_request)
        (str (codes "r1"))
        successor
        (codes "t1")
        (codes "u1")
        good
        none
        5
        6
        7)
      (in_order
        (holding first_request)
        (str (codes "r1"))
        successor
        (codes "t1")
        (codes "u1")
        good
        none
        8
        9
        10)
unfolding normalize_text trim is_empty eq_text is_applied empty_patch
reports_first-eq-in_order_example =
    reports_first-eq-in_order [] first_request [] (codes "t1") (codes "u1") refl refl refl refl refl
      successor refl refl (str (codes "r1")) refl refl refl refl good refl refl
      (holding first_request) none 5 6 7 8 9 10 refl refl nothing_reported refl

-- The outcome completes the request: the turn had started and all the evidence is there.
abbrev running_request : Request
running_request = record first_request {
  status = first_turn_started;
  new_thread_id = codes "t1";
  new_turn_id = codes "u1";
}

completes :
    (complete_from_runtime_outcome (holding running_request) good 9).1
    ≡ some (completed_request running_request good 9)
unfolding complete_from_runtime_outcome normalize_text trim is_empty eq_text find_live_successor
    split_last is_live_successor is_successor finished_request has_evidence is_first_turn_started
    says_completed says_present
completes = refl

complete_only_with_evidence_example :
    (f : Found Request) × (awaiting (holding running_request) good ≡ some f)
    × (is_first_turn_started f.entry.status ≡ true)
    × (says_completed good ≡ true)
    × (good.writeback_settled ≡ true)
    × (says_present good ≡ true)
    × ((completed_request running_request good 9).grace_thread_id ≡ normalize_text good.thread_id)
    × ((completed_request running_request good 9).grace_remaining
        ≡ resolve_completion_grace_turns f.entry)
unfolding completed_request is_completed
complete_only_with_evidence_example =
    complete_only_with_evidence (holding running_request) good 9
      (completed_request running_request good 9) completes refl

complete_settles_one_example :
    length (live (complete_from_runtime_outcome (holding running_request) good 9).0.requests) + 1
    ≡ length (live (holding running_request).requests)
complete_settles_one_example =
    complete_settles_one (holding running_request) good 9 (completed_request running_request good 9)
      completes

abbrev graced_request : Request
graced_request = record running_request {
  status = completed;
  grace_thread_id = codes "t1";
  grace_remaining = 2;
  grace_started_at = some 10;
}

abbrev use_at : ℕ → Use
use_at now = record {
  binding = str (codes "w:a:s");
  workspace = str (codes "/srv");
  runtime = str (codes "codex");
  thread = str (codes "t1");
  max_age = default_post_refresh_grace_max_age_ms;
  now = now;
}

-- Two of three uses are granted.
grants_two : granted (holding graced_request) (use_at 11 ∷ use_at 12 ∷ use_at 13 ∷ []) ≡ 2
unfolding consume_post_refresh_grace normalize_text trim is_empty eq_text split_last grants_grace
    is_same_completed_scope is_completed same_scope normalize_scope scope_missing or_text
    grace_expired
grants_two = refl

granted-le-total_grace_example :
    granted (holding graced_request) (use_at 11 ∷ use_at 12 ∷ use_at 13 ∷ [])
    ≤ total_grace (holding graced_request).requests
granted-le-total_grace_example =
    granted-le-total_grace (holding graced_request) (use_at 11 ∷ use_at 12 ∷ use_at 13 ∷ [])

abbrev used_request : Request
used_request = record graced_request { grace_remaining = 1; grace_last_used_at = some 11 }

consume_post_refresh_grace-grants_example :
    (f : Found Request) × IsLast
      (grants_grace (scope_of (use_at 11)) (normalize_text (use_at 11).thread))
      (holding graced_request).requests
      f
    × (f.entry.grace_remaining ≡ 2)
    × (1 ≤ 2)
    × (grace_expired f.entry (use_at 11).max_age (use_at 11).now ≡ false)
    × (used_request ≡ used f.entry (use_at 11).now)
    × ((use_once (holding graced_request) (use_at 11)).0 ≡ record (holding graced_request) {
      requests = f.before ++ used f.entry (use_at 11).now ∷ f.after;
    })
unfolding consume_post_refresh_grace normalize_text trim is_empty eq_text split_last grants_grace
    is_same_completed_scope is_completed same_scope normalize_scope scope_missing or_text
    grace_expired
consume_post_refresh_grace-grants_example =
    consume_post_refresh_grace-grants (holding graced_request) (use_at 11) used_request 2 refl

reconcile_startup-requeue_example :
    (reconcile_startup
      (requeue_after_pre_start_failure
        (holding first_request)
        (str (codes "r1"))
        successor
        no_run
        3).0
      4).requests
    ≡ map
        (restarted
          (requeues (normalize_text (str (codes "r1"))))
          (requeued_request successor no_run 3)
          4)
        (holding first_request).requests
unfolding normalize_text trim is_empty
reconcile_startup-requeue_example =
    reconcile_startup-requeue (holding first_request) (str (codes "r1")) successor no_run 3 4 refl

reconcile_startup-settled_example :
    All
      (λ e.
        (is_in_flight e.status ≡ false)
        × (is_pending e.status && ltb 0 e.redispatch_generation ≡ false))
      (reconcile_startup (holding first_request) 4).requests
reconcile_startup-settled_example = reconcile_startup-settled (holding first_request) 4

keep-reconcile_startup_example :
    keep is_kept (reconcile_startup (holding graced_request) 4).requests
    ≡ keep is_kept (holding graced_request).requests
keep-reconcile_startup_example = keep-reconcile_startup (holding graced_request) 4

abbrev w : Value
w = str (codes "w:a:s")

abbrev srv : Value
srv = str (codes "/srv")

abbrev codex : Value
codex = str (codes "codex")

get_pending_request-request_refresh_example :
    get_pending_request
      (request_refresh
        (holding first_request)
        (codes "r2")
        w
        srv
        codex
        (str (codes "t0"))
        other
        other
        other
        0
        no_run
        3).0
      w
      srv
      codex
      (str (codes "t0"))
    ≡ some (
        fresh_request
          (codes "r2")
          (normalize_scope w srv codex)
          (str (codes "t0"))
          other
          other
          other
          0
          no_run
          3)
unfolding scope_missing normalize_scope normalize_text trim is_empty or_text
    pending_request_matches_current_thread fresh_request eq_text
get_pending_request-request_refresh_example =
    get_pending_request-request_refresh (holding first_request) (codes "r2") w srv codex
      (str (codes "t0")) other other other 0 no_run 3 refl (str (codes "t0")) refl

request_refresh_only_example :
    (keep
        (λ e. is_same_pending_scope e (normalize_scope w srv codex))
        (request_refresh
          (holding first_request)
          (codes "r2")
          w
          srv
          codex
          (str (codes "t0"))
          other
          other
          other
          0
          no_run
          3).0.requests
      ≡ fresh_request
          (codes "r2")
          (normalize_scope w srv codex)
          (str (codes "t0"))
          other
          other
          other
          0
          no_run
          3
        ∷ [])
    × (length
          (request_refresh
            (holding first_request)
            (codes "r2")
            w
            srv
            codex
            (str (codes "t0"))
            other
            other
            other
            0
            no_run
            3).0.requests
        ≤ 100)
unfolding scope_missing normalize_scope normalize_text trim is_empty or_text
request_refresh_only_example =
    request_refresh_only (holding first_request) (codes "r2") w srv codex (str (codes "t0")) other
      other other 0 no_run 3 refl
