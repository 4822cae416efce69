-- ===== src/Examples/Threads.antt =====
-- src/core/thread-state-store.js at concrete threads.
use mathlib.Core.Option.{map as map_option}
use mossbridge.Prelude.{
  Text, codes, ◌≡◌, refl, trim, is_empty, eq_text, [], ◌∷◌, ◌++◌, none, some, if◌then◌else◌, get,
  put, or_text,
}
use mossbridge.Js.{str, normalize_text}
use mossbridge.ThreadState.{
  Approval, Event, ThreadState, Store, running, approval_requested, request_approval, resolve, new,
  apply_runtime_event, resolve_approval, get_thread_state, create_empty_thread_state, id_of,
  trimmed_id, raw_text, normalize_approval_request_id, apply_kind, thread_state,
  normalize_approval_payload, normalize_approval_queue, differ, queue_approval_if_missing,
}
use mossbridge.ThreadState.Approvals.{member, without}
use mossbridge.ThreadState.Outstanding.{
  outstanding, tail, IsQueued, outstanding-request, outstanding-resolve,
}
use mossbridge.ThreadState.Runs.{
  IsOrderly, here, next, event, resolved, Reach-IsOrderly, new-IsOrderly, apply_runtime_event_other,
}

abbrev asks : Text → Approval
asks i = record {
  kind = [];
  request_id = some i;
  reason = [];
  command = [];
  command_tokens = [];
  file_path = [];
  file_paths = [];
  elicitation = none;
  response_template = none;
}

abbrev idle_thread : ThreadState
unfolding create_empty_thread_state
idle_thread = create_empty_thread_state (codes "t1") 0

idle-IsQueued : IsQueued idle_thread
unfolding idle_thread
idle-IsQueued = record { head = refl; named = tt; distinct = tt }

outstanding-request_example : outstanding (request_approval idle_thread (asks (codes "7"))) ≡ (
    if member (id_of (asks (codes "7"))) (outstanding idle_thread)
    then outstanding idle_thread
    else outstanding idle_thread ++ id_of (asks (codes "7")) ∷ [])
unfolding normalize_approval_request_id is_empty trim
outstanding-request_example = outstanding-request idle_thread (asks (codes "7")) idle-IsQueued refl

outstanding-resolve_example : outstanding (resolve idle_thread running (some (codes "7"))) ≡ (
    if is_empty (trimmed_id (some (codes "7")))
    then tail (outstanding idle_thread)
    else without (trimmed_id (some (codes "7"))) (outstanding idle_thread))
outstanding-resolve_example =
    outstanding-resolve idle_thread running (some (codes "7")) idle-IsQueued

abbrev asked : Text → Event
asked i = record {
  kind = approval_requested;
  payload = record {
    runtime_id = str (codes "codex");
    thread_id = str (codes "t1");
    turn_id = codes "u1";
    text = [];
    approval = asks i;
  };
}

abbrev same_text : Text → Text
same_text t = t

abbrev asked_twice : Store
asked_twice =
    apply_runtime_event same_text (apply_runtime_event same_text new (asked (codes "7")) 1)
      (asked (codes "8")) 2

-- Two requests, then the first is resolved: the second is the one shown.
shows_second :
    map_option
      (λ (s : ThreadState). outstanding s)
      (get_thread_state
        (resolve_approval asked_twice (codes "t1") running (some (codes "7")) 3).0
        (codes "t1"))
    ≡ some (codes "8" ∷ [])
unfolding get_thread_state resolve_approval resolve apply_runtime_event new get put trim is_empty
    eq_text raw_text apply_kind request_approval thread_state normalize_approval_request_id
    normalize_approval_payload normalize_approval_queue differ queue_approval_if_missing or_text
shows_second = refl

Reach-IsOrderly_example :
    IsOrderly
      (resolve_approval
        (apply_runtime_event same_text new (asked (codes "7")) 1)
        (codes "t1")
        running
        (some (codes "7"))
        2).0
unfolding normalize_approval_request_id is_empty trim
Reach-IsOrderly_example = Reach-IsOrderly {lower = same_text} new-IsOrderly (
    next (next here (event (asked (codes "7")) 1 refl))
      (resolved (codes "t1") running (some (codes "7")) 2))

apply_runtime_event_other_example :
    get_thread_state (apply_runtime_event same_text new (asked (codes "7")) 1) (codes "t2")
    ≡ get_thread_state new (codes "t2")
unfolding eq_text raw_text normalize_text trim
apply_runtime_event_other_example =
    apply_runtime_event_other same_text new (asked (codes "7")) 1 (codes "t2") refl refl
