-- ===== src/Refresh/Store/Replay.antt =====
-- src/core/session-refresh-request-store.js. Early reports are replayed when the successor is known, and runs that were superseded are listed.
use mossbridge.Prelude.{
  ℕ, Text, eq_text, trim, is_empty, List, [], ◌∷◌, ◌++◌, Option, none, some, Bool, ◌&&◌, ◌||◌,
  if◌then◌else◌, Found, split_first, taken_out,
}
use mossbridge.Js.{Value, str, normalize_text}
use mossbridge.Refresh.Request.{
  successor_started, Run, Request, Patch, normalize_patch, spread, normalize_superseded_run,
  merge_superseded_runs,
}
use mossbridge.Refresh.Store.Entries.{EarlyStart, EarlyOutcome, State, has_id, update_request}
use mossbridge.Refresh.Store.Reports.{
  Outcome, mark_first_turn_started, complete_from_runtime_outcome,
}

-- Whether an early report is of the thread, and of the turn if both are known.
unfoldable pub reports : Text → Text → Text → Text → Bool
reports thread turn entry_thread entry_turn =
    eq_text (trim entry_thread) thread
    && (is_empty turn || is_empty (trim entry_turn) || eq_text (trim entry_turn) turn)

take_start : State → Option (Found EarlyStart) → State × Option EarlyStart
take_start st none = (st, none)
take_start st (some f) = (record st { early_runtime_starts = taken_out f }, some f.entry)

unfoldable pub consume_early_runtime_start : State → Text → Text → State × Option EarlyStart
unfolding take_start
consume_early_runtime_start st thread turn = take_start st (
    split_first (λ s. reports (trim thread) (trim turn) s.thread_id s.turn_id)
      st.early_runtime_starts)

take_outcome : State → Option (Found EarlyOutcome) → State × Option EarlyOutcome
take_outcome st none = (st, none)
take_outcome st (some f) = (record st { early_runtime_outcomes = taken_out f }, some f.entry)

unfoldable pub consume_early_runtime_outcome : State → Text → Text → State × Option EarlyOutcome
unfolding take_outcome
consume_early_runtime_outcome st thread turn = take_outcome st (
    split_first (λ s. reports (trim thread) (trim turn) s.thread_id s.turn_id)
      st.early_runtime_outcomes)

unfoldable pub outcome_of : EarlyOutcome → Outcome
outcome_of e = record {
  thread_id = str e.thread_id;
  turn_id = str e.turn_id;
  runtime_status = str e.runtime_status;
  writeback_settled = e.writeback_settled;
  assistant_outcome = str e.assistant_outcome;
}

-- The entry that `markSuccessorStarted` writes.
unfoldable pub started_request : Patch → ℕ → Request → Request
started_request p now e = record (spread e (normalize_patch (normalize_patch p))) {
  status = successor_started;
  successor_started_at = some now;
  completed_at = none;
}

unfoldable pub replay_start : State × Option EarlyStart → Request → ℕ → State × Option Request
replay_start (st, none) next now = (st, some next)
replay_start (st, some s) next now =
    mark_first_turn_started st (str next.new_thread_id) (str next.new_turn_id) (some s.observed_at)
      now

unfoldable pub replay_outcome :
    State × Option EarlyOutcome → Option Request → ℕ → State × Option Request
replay_outcome (st, none) reconciled now = (st, reconciled)
replay_outcome (st, some o) reconciled now = complete_from_runtime_outcome st (outcome_of o) now

unfoldable pub replay_early : State × Option Request → ℕ → State × Option Request
unfolding replay_start replay_outcome
replay_early (st, none) now = (st, none)
replay_early (st, some next) now =
    let (st', reconciled) =
      replay_start (consume_early_runtime_start st next.new_thread_id next.new_turn_id) next now in
    replay_outcome (consume_early_runtime_outcome st' next.new_thread_id next.new_turn_id)
      reconciled now

unfoldable pub mark_successor_started : State → Value → Patch → ℕ → State × Option Request
unfolding replay_early
mark_successor_started st id p now = replay_early (update_request st id (started_request p now)) now

unfoldable pub list_requests : State → List Request
list_requests st = st.requests

unfoldable pub record_superseded_run : State → Value → Run → ℕ → State × Option Request
record_superseded_run st id run now =
    let i = normalize_text id in
    if is_empty i || is_empty (trim run.thread_id)
    then (st, none)
    else elim (split_first (has_id i) st.requests) [
      | none ↦ (st, none)
      | some f ↦ update_request st (str i) λ e. record e {
        superseded_runs =
            merge_superseded_runs f.entry.superseded_runs (normalize_superseded_run run now) now;
      }
    ]

unfoldable pub list_superseded_runs : State → List Run
list_superseded_runs st = flat_runs st.requests
  where
    flat_runs : List Request → List Run
    flat_runs es = elim es [ [] ↦ [] | e ∷ (r → rest) ↦ e.superseded_runs ++ rest ]
