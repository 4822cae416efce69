-- ===== src/Refresh/Store/Reports.antt =====
-- src/core/session-refresh-request-store.js. What the runtime reports of a successor's turn: its start and its outcome, also those that come before the request knows its successor.
use mossbridge.Prelude.{
  ℕ, Text, eq_text, trim, is_empty, or_text, codes, List, [], ◌∷◌, ◌++◌, Option, none, some, Bool,
  true, not, ◌&&◌, if◌then◌else◌, any, last_n, Found, split_last, replaced, or_else,
}
use mossbridge.Js.{Value, normalize_text}
use mossbridge.Refresh.Request.{
  first_turn_started, completed, terminal_failed, Request, is_applied, is_first_turn_started,
  is_successor, resolve_completion_grace_turns,
}
use mossbridge.Refresh.Store.Entries.{State}

-- The search of `findLiveSuccessorIndex`.
unfoldable pub is_live_successor : Text → Text → Request → Bool
is_live_successor thread turn e =
    is_successor e.status
    && eq_text (trim e.new_thread_id) thread
    && not (
        not (is_empty turn)
        && not (is_empty (trim e.new_turn_id))
        && not (eq_text turn (trim e.new_turn_id)))

unfoldable pub find_live_successor : List Request → Text → Text → Option (Found Request)
find_live_successor requests thread turn = split_last (is_live_successor thread turn) requests

unfoldable pub record_early_runtime_start : State → Text → Text → Option ℕ → ℕ → State
record_early_runtime_start st thread turn observed_at now =
    if is_empty thread then st else record st {
      early_runtime_starts = last_n 50 (
          st.early_runtime_starts
          ++ record { thread_id = thread; turn_id = turn; observed_at = or_else observed_at now }
            ∷ []);
    }

unfoldable pub has_applied : List Request → Bool
has_applied requests = any (λ e. is_applied e.status) requests

unfoldable pub start_found :
    State → Option (Found Request) → Text → Text → Option ℕ → ℕ → State × Option Request
start_found st none thread turn observed_at now =
    if has_applied st.requests
    then (record_early_runtime_start st thread turn observed_at now, none)
    else (st, none)
start_found st (some f) thread turn observed_at now =
    let updated = record f.entry {
      status = first_turn_started;
      first_turn_started_at = some (or_else observed_at now);
    } in
    (record st { requests = replaced f updated }, some updated)

unfoldable pub mark_first_turn_started :
    State → Value → Value → Option ℕ → ℕ → State × Option Request
unfolding start_found
mark_first_turn_started st thread turn observed_at now =
    let t = normalize_text thread in
    let u = normalize_text turn in
    if is_empty t
    then (st, none)
    else start_found st (find_live_successor st.requests t u) t u observed_at now

-- What the runtime reports of a turn that ended.
pub record Outcome : Type 0 where
  pub thread_id : Value
  pub turn_id : Value
  pub runtime_status : Value
  pub writeback_settled : Bool
  pub assistant_outcome : Value

unfoldable pub record_early_runtime_outcome : State → Outcome → ℕ → State
record_early_runtime_outcome st o now =
    if is_empty (normalize_text o.thread_id) then st else record st {
      early_runtime_outcomes = last_n 50 (
          st.early_runtime_outcomes
          ++ record {
            thread_id = normalize_text o.thread_id;
            turn_id = normalize_text o.turn_id;
            runtime_status = or_text (normalize_text o.runtime_status) (codes "completed");
            writeback_settled = o.writeback_settled;
            assistant_outcome = normalize_text o.assistant_outcome;
            observed_at = now;
          }
            ∷ []);
    }

unfoldable pub says_completed : Outcome → Bool
says_completed o = eq_text (normalize_text o.runtime_status) (codes "completed")

unfoldable pub says_present : Outcome → Bool
says_present o = eq_text (normalize_text o.assistant_outcome) (codes "present")

-- All the evidence that a completion asks for.
unfoldable pub has_evidence : Request → Outcome → Bool
has_evidence e o =
    is_first_turn_started e.status && says_completed o && o.writeback_settled && says_present o

unfoldable pub failure_code_of : Request → Outcome → Text
failure_code_of e o =
    if not (is_first_turn_started e.status)
    then codes "runtime_start_evidence_missing"
    else if not (says_completed o)
    then codes "runtime_turn_failed"
    else if not (says_present o)
    then codes "assistant_outcome_missing"
    else codes "writeback_failed"

unfoldable pub failed_request : Request → Outcome → ℕ → Request
failed_request e o now = record e {
  status = terminal_failed;
  terminal_at = some now;
  terminal_status = or_text (normalize_text o.runtime_status) (codes "failed");
  writeback_settled = o.writeback_settled;
  assistant_outcome = normalize_text o.assistant_outcome;
  failure_code = failure_code_of e o;
}

unfoldable pub completed_request : Request → Outcome → ℕ → Request
completed_request e o now = record e {
  status = completed;
  terminal_at = some now;
  terminal_status = codes "completed";
  writeback_settled = true;
  assistant_outcome = normalize_text o.assistant_outcome;
  completed_at = some now;
  grace_thread_id = normalize_text o.thread_id;
  grace_remaining = resolve_completion_grace_turns e;
  grace_started_at = some now;
  grace_last_used_at = none;
}

unfoldable pub finished_request : Request → Outcome → ℕ → Request
finished_request e o now =
    if has_evidence e o then completed_request e o now else failed_request e o now

unfoldable pub outcome_found : State → Option (Found Request) → Outcome → ℕ → State × Option Request
outcome_found st none o now =
    if has_applied st.requests then (record_early_runtime_outcome st o now, none) else (st, none)
outcome_found st (some f) o now =
    let finished = finished_request f.entry o now in
    (record st { requests = replaced f finished }, some finished)

unfoldable pub complete_from_runtime_outcome : State → Outcome → ℕ → State × Option Request
unfolding outcome_found
complete_from_runtime_outcome st o now =
    let t = normalize_text o.thread_id in
    if is_empty t
    then (st, none)
    else outcome_found st (find_live_successor st.requests t (normalize_text o.turn_id)) o now
