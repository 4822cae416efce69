-- ===== src/Refresh/Store/Entries.antt =====
-- src/core/session-refresh-request-store.js. The requests of the store, and the operations that add or change one by its id.
use mossbridge.Prelude.{
  ℕ, Text, eq_text, trim, is_empty, or_text, codes, List, [], ◌∷◌, ◌++◌, Option, none, some, Bool,
  false, not, ◌&&◌, ◌||◌, if◌then◌else◌, keep, last_n, Found, split_last, ◌==◌, or_else, first_some,
}
use mossbridge.Js.{Value, normalize_text}
use mossbridge.Refresh.Request.{
  pending, applied, completed, skipped, Run, Scope, Request, Patch, normalize_patch, spread,
  normalize_scope, scope_missing, is_same_pending_scope, pending_request_matches_current_thread,
  normalize_superseded_run, resolve_grace_turns,
}

pub record EarlyStart : Type 0 where
  pub thread_id : Text
  pub turn_id : Text
  pub observed_at : ℕ

pub record EarlyOutcome : Type 0 where
  pub thread_id : Text
  pub turn_id : Text
  pub runtime_status : Text
  pub writeback_settled : Bool
  pub assistant_outcome : Text
  pub observed_at : ℕ

pub record State : Type 0 where
  pub requests : List Request
  pub early_runtime_starts : List EarlyStart
  pub early_runtime_outcomes : List EarlyOutcome

unfoldable pub create_empty_state : State
create_empty_state = record {
  requests = [];
  early_runtime_starts = [];
  early_runtime_outcomes = [];
}

-- The new entry of `requestRefresh`, under the id that the clock and the random bytes give it.
unfoldable pub fresh_request : Text → Scope → Value → Value → Value → Value → ℕ → Run → ℕ → Request
fresh_request id scope old_thread reason requested_by causal generation run now =
    let initial = normalize_superseded_run run now in
    record {
      id = id;
      scope = scope;
      old_thread_id = normalize_text old_thread;
      new_thread_id = [];
      new_turn_id = [];
      causal_message_id = normalize_text causal;
      redispatch_generation = generation;
      superseded_runs = if is_empty initial.thread_id then [] else initial ∷ [];
      reason = or_text (normalize_text reason) (codes "manual_maintenance");
      requested_by = or_text (normalize_text requested_by) (codes "codex_maintenance");
      requested_at = some now;
      applied_at = none;
      completed_at = none;
      skipped_at = none;
      skip_reason = [];
      status = pending;
      successor_started_at = none;
      first_turn_started_at = none;
      terminal_at = none;
      terminal_status = [];
      writeback_settled = false;
      assistant_outcome = [];
      failure_code = [];
      grace_turns = none;
      grace_thread_id = [];
      grace_remaining = 0;
      grace_started_at = none;
      grace_last_used_at = none;
      grace_expired_at = none;
      last_applied_at = none;
      last_completed_at = none;
      requeued_at = none;
      last_pre_start_failure_at = none;
      pre_start_recovery_count = 0;
    }

-- The list that a new entry is saved in: earlier pending ones of its scope are dropped, and the
-- oldest beyond a hundred.
unfoldable pub enqueue_request : List Request → Request → List Request
enqueue_request requests next =
    last_n 100 (keep (λ e. not (is_same_pending_scope e next.scope)) requests ++ next ∷ [])

-- `none` is the error that the scope is incomplete.
unfoldable pub request_refresh :
    State
    → Text
    → Value
    → Value
    → Value
    → Value
    → Value
    → Value
    → Value
    → ℕ
    → Run
    → ℕ
    → State × Option Request
request_refresh st id binding workspace runtime old_thread reason requested_by causal generation run
      now =
    let scope = normalize_scope binding workspace runtime in
    let next = fresh_request id scope old_thread reason requested_by causal generation run now in
    if scope_missing scope
    then (st, none)
    else (record st { requests = enqueue_request st.requests next }, some next)

abbrev pub found_entry {ℓ} : {A : Type ℓ} → Option (Found A) → Option A
found_entry none = none
found_entry (some f) = some f.entry

unfoldable pub get_pending_request : State → Value → Value → Value → Value → Option Request
get_pending_request st binding workspace runtime current =
    let scope = normalize_scope binding workspace runtime in
    let current_thread = normalize_text current in
    if scope_missing scope
    then none
    else found_entry (
        split_last
          (λ e.
            is_same_pending_scope e scope
            && pending_request_matches_current_thread e current_thread)
          st.requests)

abbrev pub has_id : Text → Request → Bool
has_id i e = eq_text (trim e.id) i

-- The `map` of an update, over the entries that pass a test.
unfoldable pub update_where : (Request → Bool) → (Request → Request) → List Request → List Request
update_where p f [] = []
update_where p f (e ∷ es) = (if p e then f e else e) ∷ update_where p f es

-- What the closure's variable `updated` holds after that `map`.
unfoldable pub last_updated : (Request → Bool) → (Request → Request) → List Request → Option Request
last_updated p f [] = none
last_updated p f (e ∷ es) = first_some (last_updated p f es) (if p e then some (f e) else none)

-- `updateRequest`, with the patch as the change that it makes to an entry.
unfoldable pub update_request : State → Value → (Request → Request) → State × Option Request
update_request st id f =
    let i = normalize_text id in
    if is_empty i then (st, none) else (
      record st { requests = update_where (has_id i) f st.requests },
      last_updated (has_id i) f st.requests,
    )

unfoldable pub mark_applied : State → Value → Patch → ℕ → State × Option Request
mark_applied st id p now = update_request st id λ e. record (spread e (normalize_patch p)) {
  status = applied;
  applied_at = some now;
  skipped_at = none;
  skip_reason = [];
}

unfoldable pub mark_skipped : State → Value → Value → Patch → ℕ → State × Option Request
mark_skipped st id reason p now = update_request st id λ e. record (spread e (normalize_patch p)) {
  status = skipped;
  skipped_at = some now;
  skip_reason = or_text (normalize_text reason) (codes "skipped");
}

-- The grace fields that `markCompleted` adds to its patch.
unfoldable pub with_grace : Patch → ℕ → Request → Request
with_grace p now e =
    let t = trim (or_else p.new_thread_id []) in
    let turns = resolve_grace_turns p in
    if is_empty t || turns == 0 then e else record e {
      grace_thread_id = t;
      grace_remaining = turns;
      grace_started_at = some now;
      grace_last_used_at = none;
    }

unfoldable pub mark_completed : State → Value → Patch → ℕ → State × Option Request
unfolding with_grace
mark_completed st id p now =
    let q = normalize_patch p in
    update_request st id λ e.
      with_grace q now
        (record (spread e (normalize_patch q)) { status = completed; completed_at = some now })
