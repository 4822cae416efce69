-- ===== src/Delivery/Targets.antt =====
-- src/core/stream-delivery.js: where the reply of a run goes, and the runs whose replies go nowhere.
use mossbridge.Delivery.State.{
  RawTarget, Target, Run, SupersededRun, Delivery, build_run_key, normalize_reply_target, raw_of,
  apply_thread_reply_target,
}
use mossbridge.Delivery.Texts.{normalize_line_endings, trim_outer_blank_lines}
use mossbridge.Prelude.{
  ℕ, ◌+◌, ◌-◌, Bool, true, false, ◌&&◌, ◌||◌, not, Option, none, some, List, [], ◌∷◌, ◌++◌, map,
  Text, eq_text, trim, is_empty, Dict, get, put, remove, last_n, keep, leb, ◌==◌, if◌then◌else◌,
}
use mossbridge.Js.{Value, normalize_text}
use mossbridge.Prelude.{or_else, first_some, is_some, sort_by}

unfoldable pub set_reply_target : Delivery → Text → Option RawTarget → Delivery
set_reply_target d binding target = elim (normalize_reply_target target) [
  | none ↦ d
  | some t ↦ if is_empty binding then d else record d {
    reply_target_by_binding_key =
        put binding (record t { causal_message_id = []; redispatch_generation = 0 })
          d.reply_target_by_binding_key;
  }
]

abbrev pub queue_of : Text → Dict (List Target) → List Target
queue_of thread queues = or_else (get thread queues) []

-- `set` of the queue, or `delete` if nothing is left of it.
abbrev pub put_queue : Text → List Target → Dict (List Target) → Dict (List Target)
put_queue thread [] queues = remove thread queues
put_queue thread (t ∷ ts) queues = put thread (t ∷ ts) queues

abbrev pub is_nothing_queued : List Target → Bool
is_nothing_queued [] = true
is_nothing_queued (_ ∷ _) = false

unfoldable pub waits_for_target : Text → Run → Bool
waits_for_target thread run = eq_text run.thread_id thread && not run.thread_reply_target_attached

-- The loop over the runs that wait: each takes the next target, until none is left.
unfoldable pub bind_each : List Run → List Target → Dict Run → Dict Run × List Target
bind_each [] queue runs = (runs, queue)
bind_each (run ∷ rest) [] runs = (runs, [])
bind_each (run ∷ rest) (t ∷ queue) runs =
    bind_each rest queue (put run.run_key (apply_thread_reply_target run t) runs)

abbrev pub le_sequence : Run → Run → Bool
le_sequence a b = leb a.sequence b.sequence

unfoldable pub bind_queued_reply_targets_to_active_thread_runs : Delivery → Text → Delivery
bind_queued_reply_targets_to_active_thread_runs d thread =
    let queue = queue_of thread d.reply_target_queue_by_thread_id in
    let states =
      sort_by le_sequence (keep (waits_for_target thread) (map (λ e. e.1) d.state_by_run_key)) in
    let (runs, left) = bind_each states queue d.state_by_run_key in
    if is_nothing_queued queue then d else record d {
      state_by_run_key = runs;
      reply_target_queue_by_thread_id = put_queue thread left d.reply_target_queue_by_thread_id;
    }

-- `target` is a target as it was given: it is normalized here.
unfoldable pub queue_target : Delivery → Text → Option Target → Delivery
unfolding bind_queued_reply_targets_to_active_thread_runs
queue_target d thread none = d
queue_target d thread (some t) =
    if is_empty thread
    then d
    else bind_queued_reply_targets_to_active_thread_runs
        (record d {
          reply_target_queue_by_thread_id =
              put thread (queue_of thread d.reply_target_queue_by_thread_id ++ t ∷ [])
                d.reply_target_queue_by_thread_id;
        })
        thread

unfoldable pub queue_reply_target_for_thread : Delivery → Value → Option RawTarget → Delivery
unfolding queue_target
queue_reply_target_for_thread d thread target =
    queue_target d (normalize_text thread) (normalize_reply_target target)

-- The run of the turn, if it has begun, gets the target at once.
apply_to_active : Delivery → Text → Target → Option Run → Delivery
apply_to_active d run_key target none = d
apply_to_active d run_key target (some run) = record d {
  state_by_run_key = put run_key (apply_thread_reply_target run target) d.state_by_run_key;
}

bind_target : Delivery → Text → Text → Option Target → Delivery
unfolding apply_to_active
bind_target d thread turn none = d
bind_target d thread turn (some t) =
    let run_key = build_run_key thread turn in
    apply_to_active
      (record d { reply_target_by_turn_key = put run_key t d.reply_target_by_turn_key }) run_key t
      (get run_key d.state_by_run_key)

unfoldable pub bind_reply_target_for_turn : Delivery → Value → Value → Option RawTarget → Delivery
unfolding bind_target queue_target
bind_reply_target_for_turn d thread turn target =
    let t = normalize_text thread in
    let u = normalize_text turn in
    if is_empty t || is_empty u
    then queue_target d t (normalize_reply_target target)
    else bind_target d t u (normalize_reply_target target)

abbrev pub count_of : Text → Dict ℕ → ℕ
count_of thread counts = or_else (get thread counts) 0

unfoldable pub suppress_next_run_for_thread : Delivery → Value → Delivery
suppress_next_run_for_thread d thread =
    let t = normalize_text thread in
    let count = count_of t d.suppressed_run_count_by_thread_id in
    if is_empty t then d else record d {
      suppressed_run_count_by_thread_id = put t (count + 1) d.suppressed_run_count_by_thread_id;
    }

unfoldable pub cancel_suppressed_run_for_thread : Delivery → Value → Delivery
cancel_suppressed_run_for_thread d thread =
    let t = normalize_text thread in
    let count = count_of t d.suppressed_run_count_by_thread_id in
    if is_empty t then d else record d {
      suppressed_run_count_by_thread_id =
          if leb count 1
          then remove t d.suppressed_run_count_by_thread_id
          else put t (count - 1) d.suppressed_run_count_by_thread_id;
    }

-- A positive count that goes down by one.
abbrev pub count_down : Text → Dict ℕ → Dict ℕ
count_down t counts =
    if count_of t counts == 1 then remove t counts else put t (count_of t counts - 1) counts

-- Whether a run was to be suppressed; that count goes down.
unfoldable pub consume_suppressed_run : Delivery → Text → Delivery × Bool
consume_suppressed_run d thread =
    let t = trim thread in
    if is_empty t || count_of t d.suppressed_run_count_by_thread_id == 0 then (d, false) else (
      record d {
        suppressed_run_count_by_thread_id = count_down t d.suppressed_run_count_by_thread_id;
      },
      true,
    )

-- The next target of the thread's queue.
unfoldable pub take_queued : Delivery → Text → List Target → Delivery × Option Target
take_queued d thread [] = (d, none)
take_queued d thread (t ∷ queue) = (
  record d {
    reply_target_queue_by_thread_id = put_queue thread queue d.reply_target_queue_by_thread_id;
  },
  some t,
)

unfoldable pub consume_queued_reply_target : Delivery → Text → Delivery × Option Target
unfolding take_queued
consume_queued_reply_target d thread =
    take_queued d thread (queue_of thread d.reply_target_queue_by_thread_id)

-- The runs of the turn, or of the whole thread if no turn is given.
unfoldable pub is_superseded_by : Text → Text → Run → Bool
is_superseded_by thread turn run =
    eq_text run.thread_id thread && (is_empty turn || eq_text run.turn_id turn)

unfoldable pub superseded_run : Text → Text → Run → Run
superseded_run thread turn run =
    if is_superseded_by thread turn run
    then record run { suppress_delivery = true; superseded = true }
    else run

abbrev pub max_entries : ℕ
max_entries = 1024

-- `trimMapToMaxEntries(map, 1_024)` deletes the entries that are the longest in the map.
abbrev pub trim_map {ℓ} : {A : Type ℓ} → Dict A → Dict A
trim_map m = last_n max_entries m

abbrev pub superseded_record :
    Delivery → Text → Text → Value → Option ℕ → Option RawTarget → SupersededRun
superseded_record d thread turn causal generation target = record {
  number = d.superseded_runs;
  thread_id = thread;
  turn_id = turn;
  run_key = build_run_key thread turn;
  causal_message_id = normalize_text causal;
  redispatch_generation = or_else generation 0;
  reply_target = normalize_reply_target target;
}

unfoldable pub mark_run_superseded :
    Delivery → Value → Value → Value → Option ℕ → Option RawTarget → Delivery × Option SupersededRun
mark_run_superseded d thread turn causal generation target =
    let t = normalize_text thread in
    let u = normalize_text turn in
    let r = superseded_record d t u causal generation target in
    if is_empty t then (d, none) else (
      record d {
        superseded_runs = d.superseded_runs + 1;
        superseded_run_by_run_key =
            if is_empty u
            then d.superseded_run_by_run_key
            else trim_map (put r.run_key r d.superseded_run_by_run_key);
        superseded_run_by_thread_id = trim_map (put t r d.superseded_run_by_thread_id);
        state_by_run_key =
            map (λ (e : Text × Run). (e.0, superseded_run t u e.1)) d.state_by_run_key;
        reply_target_by_turn_key =
            if is_empty u
            then d.reply_target_by_turn_key
            else remove r.run_key d.reply_target_by_turn_key;
        reply_target_queue_by_thread_id = remove t d.reply_target_queue_by_thread_id;
      },
      some r,
    )

unfoldable pub resolve_superseded_run : Delivery → Value → Value → Option SupersededRun
resolve_superseded_run d thread turn =
    let t = normalize_text thread in
    let u = normalize_text turn in
    let of_thread = get t d.superseded_run_by_thread_id in
    if is_empty t
    then none
    else if is_empty u
    then of_thread
    else first_some (get (build_run_key t u) d.superseded_run_by_run_key) of_thread

unfoldable pub is_runtime_event_suppressed : Delivery → Value → Value → Bool
is_runtime_event_suppressed d thread turn = is_some (resolve_superseded_run d thread turn)

-- `text` is `String(text || "")`.
unfoldable pub set_deferred_reply_prefix : Delivery → Value → Text → Delivery
set_deferred_reply_prefix d binding text =
    let b = normalize_text binding in
    let prefix = trim_outer_blank_lines (normalize_line_endings text) in
    if is_empty b || is_empty prefix then d else record d {
      deferred_reply_prefix_by_binding_key = put b prefix d.deferred_reply_prefix_by_binding_key;
    }

abbrev pub target_of_run : Option Run → Option Target
target_of_run none = none
target_of_run (some run) = run.reply_target

abbrev pub first_target : List Target → Option Target
first_target [] = none
first_target (t ∷ _) = some t

abbrev pub linked_target : Option Text → Dict Target → Option Target
linked_target none targets = none
linked_target (some binding) targets = get binding targets

abbrev pub read_again : Option Target → Option Target
read_again none = none
read_again (some t) = normalize_reply_target (some (raw_of t))

-- `find_binding` is `sessionStore.findBindingForThreadId`: the binding key of the thread.
unfoldable pub resolve_reply_target_for_run :
    (Text → Option Text) → Delivery → Value → Value → Option Target
resolve_reply_target_for_run find_binding d thread turn =
    let t = normalize_text thread in
    let run_key = build_run_key t (normalize_text turn) in
    let known = first_some (target_of_run (get run_key d.state_by_run_key)) (
      first_some (get run_key d.reply_target_by_turn_key) (
        first_some (first_target (queue_of t d.reply_target_queue_by_thread_id))
          (linked_target (find_binding t) d.reply_target_by_binding_key))) in
    if is_empty t then none else read_again known
