-- ===== src/ThreadState.antt =====
-- src/core/thread-state-store.js: what each runtime thread is doing, and its approval requests, one
-- shown and the others queued. A `Date` is its milliseconds, `now` the clock at the call. An opaque
-- JSON object (an elicitation, a response template) is its JSON text.
pub mod Approvals
pub mod Outstanding
pub mod Events
pub mod Runs
use mossbridge.Prelude.{
  ℕ, Text, eq_text, is_empty, or_text, trim, Dict, get, put, codes, List, [], ◌∷◌, ◌++◌, Option,
  none, some, Bool, true, false, not, ◌||◌, ◌&&◌, if◌then◌else◌, any, keep, map,
}
use mossbridge.Js.{Value, normalize_text}

pub data Status : Type 0 where
  idle running waiting_approval failed unhealthy : Status

-- The fields of an approval request; `request_id` is `String(requestId)`, none for null.
pub record Approval : Type 0 where
  pub kind : Text
  pub request_id : Option Text
  pub reason : Text
  pub command : Text
  pub command_tokens : List Text
  pub file_path : Text
  pub file_paths : List Text
  pub elicitation : Option Text
  pub response_template : Option Text

-- An event's payload; a field that is missing is empty.
pub record Payload : Type 0 where
  pub runtime_id : Value
  pub thread_id : Value
  pub turn_id : Text
  pub text : Text
  pub approval : Approval

pub data Kind : Type 0 where
  context_updated turn_started reply_delta reply_completed : Kind
  approval_requested turn_completed turn_failed unknown : Kind

pub record Event : Type 0 where
  pub kind : Kind
  pub payload : Payload

pub record Context : Type 0 where
  pub payload : Payload
  pub updated_at : ℕ

pub record ThreadState : Type 0 where
  pub thread_id : Text
  pub turn_id : Text
  pub status : Status
  pub last_reply_text : Text
  pub last_error : Text
  pub context : Option Context
  pub pending_approval : Option Approval
  pub pending_approvals : List Approval
  pub updated_at : ℕ

pub record Store : Type 0 where
  pub state_by_thread : Dict ThreadState
  pub latest_context : Dict Context

-- The constructor of the store.
unfoldable pub new : Store
new = record { state_by_thread = []; latest_context = [] }

unfoldable pub create_empty_thread_state : Text → ℕ → ThreadState
create_empty_thread_state t now = record {
  thread_id = t;
  turn_id = [];
  status = idle;
  last_reply_text = [];
  last_error = [];
  context = none;
  pending_approval = none;
  pending_approvals = [];
  updated_at = now;
}

unfoldable pub normalize_approval_payload : Approval → Approval
normalize_approval_payload a = record a { kind = or_text a.kind (codes "command") }

unfoldable pub normalize_approval_queue : List Approval → List Approval
normalize_approval_queue = map normalize_approval_payload

-- `requestId == null ? "" : String(requestId).trim()`.
unfoldable pub trimmed_id : Option Text → Text
trimmed_id none = []
trimmed_id (some t) = trim t

unfoldable pub normalize_approval_request_id : Option Approval → Text
unfolding trimmed_id
normalize_approval_request_id none = []
normalize_approval_request_id (some a) = trimmed_id a.request_id

abbrev pub id_of : Approval → Text
id_of a = normalize_approval_request_id (some a)

unfoldable pub queue_approval_if_missing : List Approval → Approval → List Approval
queue_approval_if_missing queue a =
    let i = id_of a in
    if is_empty i || any (λ x. eq_text (id_of x) i) queue then queue else queue ++ a ∷ []

-- Both ids are there, and they are not the same.
unfoldable pub differ : Text → Text → Bool
differ i j = not (is_empty i) && not (is_empty j) && not (eq_text i j)

-- The two branches of a request: queue it behind another one, or show it.
unfoldable pub place_approval : Bool → ThreadState → Approval → List Approval → ThreadState
place_approval true s incoming queued = record s {
  pending_approvals = queue_approval_if_missing queued incoming;
}
place_approval false s incoming queued = record s {
  pending_approval = some incoming;
  pending_approvals = queued;
}

-- The case `runtime.approval.requested`.
unfoldable pub request_approval : ThreadState → Approval → ThreadState
unfolding place_approval
request_approval s payload =
    let incoming = normalize_approval_payload payload in
    let current_id = normalize_approval_request_id s.pending_approval in
    place_approval (differ current_id (id_of incoming)) (record s { status = waiting_approval })
      incoming (normalize_approval_queue s.pending_approvals)

clear_approvals : ThreadState → ThreadState
clear_approvals s = record s { pending_approval = none; pending_approvals = [] }

-- The `switch` on the event's type, over the state with its new time.
unfoldable pub apply_kind : Kind → Payload → ThreadState → ThreadState
unfolding clear_approvals
apply_kind turn_started p s = record s {
  status = running;
  turn_id = or_text p.turn_id s.turn_id;
  last_error = [];
}
apply_kind reply_delta p s = record s {
  status = running;
  turn_id = or_text p.turn_id s.turn_id;
  last_reply_text = or_text p.text s.last_reply_text;
}
apply_kind reply_completed p s = record s {
  status = running;
  turn_id = or_text p.turn_id s.turn_id;
  last_reply_text = or_text p.text s.last_reply_text;
}
apply_kind approval_requested p s = request_approval s p.approval
apply_kind turn_completed p s =
    clear_approvals (record s { status = idle; turn_id = or_text p.turn_id s.turn_id })
apply_kind turn_failed p s = clear_approvals (record s {
  status = failed;
  turn_id = or_text p.turn_id s.turn_id;
  last_error = or_text p.text (codes "❌ Execution failed");
})
apply_kind _ p s = s

state_or_empty : Option ThreadState → Text → ℕ → ThreadState
unfolding create_empty_thread_state
state_or_empty none t now = create_empty_thread_state t now
state_or_empty (some s) t now = s

unfoldable pub thread_state : Store → Text → ℕ → ThreadState
unfolding state_or_empty
thread_state st t now = state_or_empty (get t st.state_by_thread) t now

-- `threadId` as the events other than a context update use it: not trimmed.
unfoldable pub raw_text : Value → Text
raw_text (Value.str t) = t
raw_text Value.other = []

abbrev pub put_thread : Store → Text → ThreadState → Store
put_thread st t s = record st { state_by_thread = put t s st.state_by_thread }

-- The first branch of `applyRuntimeEvent`.
update_context : (Value → Text) → Store → Payload → ℕ → Store
unfolding thread_state
update_context normalize_runtime_id st p now =
    let snapshot : Context = record { payload = p; updated_at = now } in
    let r = normalize_runtime_id p.runtime_id in
    let t = normalize_text p.thread_id in
    let st' =
      if is_empty r then st else record st { latest_context = put r snapshot st.latest_context } in
    if is_empty t
    then st'
    else put_thread st' t
        (record (thread_state st' t now) { context = some snapshot; updated_at = now })

apply_thread_event : Store → Event → ℕ → Store
unfolding raw_text thread_state
apply_thread_event st e now =
    let t = raw_text e.payload.thread_id in
    if is_empty t
    then st
    else put_thread st t
        (apply_kind e.kind e.payload (record (thread_state st t now) { updated_at = now }))

is_context_update : Kind → Bool
is_context_update context_updated = true
is_context_update _ = false

-- `lower` is `toLowerCase`.
unfoldable pub normalize_runtime_id : (Text → Text) → Value → Text
normalize_runtime_id lower v = lower (normalize_text v)

unfoldable pub apply_runtime_event : (Text → Text) → Store → Event → ℕ → Store
unfolding is_context_update update_context apply_thread_event
apply_runtime_event lower st e now =
    if is_context_update e.kind
    then update_context (normalize_runtime_id lower) st e.payload now
    else apply_thread_event st e now

unfoldable pub get_thread_state : Store → Text → Option ThreadState
get_thread_state st t = get t st.state_by_thread

-- What `markStaleTurnRecovered` and `markRuntimeThreadUnhealthy` share.
mark : Status → Text → Store → Value → Value → Text → ℕ → Store × Option ThreadState
unfolding thread_state clear_approvals
mark status default st thread turn reason now =
    let t = normalize_text thread in
    let current = thread_state st t now in
    let next = clear_approvals (record current {
      status = status;
      turn_id = or_text (normalize_text turn) current.turn_id;
      last_error = or_text reason default;
      updated_at = now;
    }) in
    if is_empty t then (st, none) else (put_thread st t next, some next)

unfoldable pub mark_stale_turn_recovered :
    Store → Value → Value → Text → ℕ → Store × Option ThreadState
unfolding mark
mark_stale_turn_recovered = mark failed (codes "stale claudecode running state recovered")

unfoldable pub mark_runtime_thread_unhealthy :
    Store → Value → Value → Text → ℕ → Store × Option ThreadState
unfolding mark
mark_runtime_thread_unhealthy = mark unhealthy (codes "runtime_prestart_failure")

abbrev pub status_with : Option Approval → Status → Status
status_with none s = s
status_with (some _) s = waiting_approval

-- `queue.shift()`: the first of the queue and the rest.
shift_approval : ThreadState → List Approval → Status → ThreadState
shift_approval s [] status = record s {
  status = status;
  pending_approval = none;
  pending_approvals = [];
}
shift_approval s (a ∷ rest) status = record s {
  status = waiting_approval;
  pending_approval = some a;
  pending_approvals = rest;
}

-- The two branches of `resolveApproval`: take a queued request out, or show the next one.
unfoldable pub settle : Bool → ThreadState → Text → List Approval → Status → ThreadState
unfolding shift_approval
settle true s resolved queued status = record s {
  status = status_with s.pending_approval status;
  pending_approvals = keep (λ a. not (eq_text (id_of a) resolved)) queued;
}
settle false s resolved queued status = shift_approval s queued status

-- The body of `resolveApproval` for a thread that is known.
unfoldable pub resolve : ThreadState → Status → Option Text → ThreadState
unfolding settle
resolve s status request_id =
    let resolved = trimmed_id request_id in
    let current_id = normalize_approval_request_id s.pending_approval in
    settle (differ resolved current_id) s resolved (normalize_approval_queue s.pending_approvals)
      status

resolve_found :
    Store → Text → Option ThreadState → Status → Option Text → ℕ → Store × Option ThreadState
resolve_found st t none status request_id now = (st, none)
resolve_found st t (some s) status request_id now =
    let next = record (resolve s status request_id) { updated_at = now } in
    (put_thread st t next, some next)

unfoldable pub resolve_approval :
    Store → Text → Status → Option Text → ℕ → Store × Option ThreadState
unfolding resolve_found
resolve_approval st t status request_id now =
    resolve_found st t (get t st.state_by_thread) status request_id now

unfoldable pub get_latest_context : (Text → Text) → Store → Value → Option Context
get_latest_context lower st runtime_id =
    let r = normalize_runtime_id lower runtime_id in
    if is_empty r then none else get r st.latest_context
