-- ===== src/Delivery/Silent.antt =====
-- A run that begins after `suppressNextRunForThread`, and the event that begins it.
use mossbridge.Delivery.Runs.{
  create_run, ensure_run_state, upsert_item, new_run, capture_turn_completion_text,
}
use mossbridge.Delivery.Targets.{consume_suppressed_run, suppress_next_run_for_thread, count_of}
use mossbridge.Prelude.{
  Bool, true, false, length, ltb, or_text, codes, ◌++◌, eq_text_refl, get-put, ap, ◌+◌,
}
use mossbridge.Delivery.Texts.{normalize_line_endings, trim_outer_blank_lines}
use mossbridge.Delivery.Actions.{Reader}
use mossbridge.Delivery.Sending.{Services, Wire}
use mossbridge.Delivery.Retry.{Flow}
use mossbridge.Delivery.Flush.{flush_now}
use mossbridge.Delivery.Events.{
  Event, EventType, World, handle_as, handle_type, turn_started, reply_delta, reply_completed,
  turn_completed, turn_failed, other_event, start_turn, add_piece, complete_item, complete_turn,
  flush, item_id_of, flow_of, with_turn,
}
use mossbridge.Delivery.Suppression.{consume_suppressed_run-suppress}
use mossbridge.Js.{Value, normalize_text}
use mossbridge.Delivery.State.{Target, Run, Delivery, build_run_key, apply_thread_reply_target}
use mossbridge.Delivery.Targets.{consume_queued_reply_target, take_queued, queue_of}
use mossbridge.Delivery.Runs.{
  apply_if, attach_turn_target, attach_queued_target, take_prefix, attach_binding,
  attach_reply_target,
}
use mossbridge.Prelude.{
  either_way, ◌≡◌, refl, ◌∙◌, ◌||◌, not, Option, none, some, Text, is_empty, get, or_else,
  first_some, [], List, ◌∷◌,
}

-- Looking for its target leaves the run's silence and its name, and the counts of the delivery.
record Unheard (d : Delivery) (run : Run) (x : Delivery × Run) : Type 0 where
  silence : x.1.suppress_delivery ≡ run.suppress_delivery
  name : x.1.run_key ≡ run.run_key
  counts : x.0.suppressed_run_count_by_thread_id ≡ d.suppressed_run_count_by_thread_id

unchanged : (d : Delivery) (run : Run) → Unheard d run (d, run)
unchanged d run = record { silence = refl; name = refl; counts = refl }

then-Unheard :
    (d d' : Delivery) (run run' : Run) (x : Delivery × Run)
    → Unheard d run (d', run')
    → Unheard d' run' x
    → Unheard d run x
then-Unheard d d' run run' x h k = record {
  silence = k.silence ∙ h.silence;
  name = k.name ∙ h.name;
  counts = k.counts ∙ h.counts;
}

apply_if-Unheard :
    (d : Delivery) (run : Run) (t : Option Target) → Unheard d run (d, apply_if run t)
unfolding apply_thread_reply_target
apply_if-Unheard d run none = unchanged d run
apply_if-Unheard d run (some t) = record { silence = refl; name = refl; counts = refl }

attach_turn-Unheard : (d : Delivery) (run : Run) → Unheard d run (d, attach_turn_target d run)
unfolding attach_turn_target
attach_turn-Unheard d run =
    either_way (λ (x : Run). Unheard d run (d, x))
      (run.thread_reply_target_attached || is_empty run.turn_id) (unchanged d run)
      (apply_if-Unheard d run
        (get (build_run_key run.thread_id run.turn_id) d.reply_target_by_turn_key))

taken-Unheard :
    (d : Delivery) (run : Run) (thread : Text) (queue : List Target)
    → let (d', t) = take_queued d thread queue in Unheard d run (d', apply_if run t)
unfolding take_queued
taken-Unheard d run thread [] = unchanged d run
taken-Unheard d run thread (t ∷ queue) =
    let h = apply_if-Unheard d run (some t) in
    record { silence = h.silence; name = h.name; counts = refl }

attach_queued-Unheard : (d : Delivery) (run : Run) → Unheard d run (attach_queued_target d run)
unfolding attach_queued_target consume_queued_reply_target
attach_queued-Unheard d run =
    either_way (Unheard d run) run.thread_reply_target_attached (unchanged d run)
      (taken-Unheard d run run.thread_id (queue_of run.thread_id d.reply_target_queue_by_thread_id))

take_prefix-Unheard : (d : Delivery) (run : Run) (b : Text) → Unheard d run (take_prefix d run b)
unfolding take_prefix
take_prefix-Unheard d run b =
    either_way (Unheard d run)
      (not (is_empty run.deferred_reply_prefix)
        || is_empty (or_else (get b d.deferred_reply_prefix_by_binding_key) []))
      (unchanged d run) (record { silence = refl; name = refl; counts = refl })

attach_binding-Unheard :
    (d : Delivery) (run : Run) (o : Option Text) → Unheard d run (attach_binding d run o)
unfolding attach_binding
attach_binding-Unheard d run none = unchanged d run
attach_binding-Unheard d run (some b) =
    let bound : Run = record run {
      binding_key = b;
      reply_target = first_some run.reply_target (get b d.reply_target_by_binding_key);
    } in
    either_way (Unheard d run) (is_empty b) (unchanged d run) (
      then-Unheard d d run bound (take_prefix d bound b)
        (record { silence = refl; name = refl; counts = refl }) (take_prefix-Unheard d bound b))

attach-Unheard :
    (find : Text → Option Text) (d : Delivery) (run : Run)
    → Unheard d run (attach_reply_target find d run)
unfolding attach_reply_target
attach-Unheard find d run =
    let r1 = attach_turn_target d run in
    let q = attach_queued_target d r1 in
    then-Unheard d d run r1 (attach_reply_target find d run) (attach_turn-Unheard d run) (
      then-Unheard d q.0 r1 q.1 (attach_reply_target find d run) (attach_queued-Unheard d r1)
        (attach_binding-Unheard q.0 q.1 (find run.thread_id)))

upsert-Unheard :
    (d : Delivery) (run : Run) (id text : Text) (completed : Bool)
    → Unheard d run (d, upsert_item run id text completed)
unfolding upsert_item
upsert-Unheard d run id text completed =
    either_way (λ (x : Run). Unheard d run (d, x)) (is_empty text) (unchanged d run)
      (record { silence = refl; name = refl; counts = refl })

capture-Unheard :
    (d : Delivery) (run : Run) (text : Text)
    → Unheard d run (d, capture_turn_completion_text run text)
unfolding capture_turn_completion_text
capture-Unheard d run text =
    let normalized = trim_outer_blank_lines (normalize_line_endings text) in
    either_way (λ (x : Run). Unheard d run (d, x))
      (is_empty normalized || ltb 0 (length run.item_order)) (unchanged d run)
      (upsert-Unheard d run (codes "result-" ++ or_text run.turn_id run.thread_id) normalized true)

-- The run that begins takes the silence that waits for it.
record Begun (d : Delivery) (thread turn : Text) (x : Delivery × Run) : Type 0 where
  silence : x.1.suppress_delivery ≡ (consume_suppressed_run d thread).1
  there : get (build_run_key thread turn) x.0.state_by_run_key ≡ some x.1
  counts :
      x.0.suppressed_run_count_by_thread_id
      ≡ (consume_suppressed_run d thread).0.suppressed_run_count_by_thread_id

create_run-Begun :
    (find : Text → Option Text) (d : Delivery) (thread turn : Text)
    → Begun d thread turn (create_run find d thread turn)
unfolding create_run
create_run-Begun find d thread turn =
    let d1 = (consume_suppressed_run d thread).0 in
    let started : Run =
      new_run thread turn (consume_suppressed_run d thread).1 (d1.run_sequence + 1) in
    let counted : Delivery = record d1 { run_sequence = d1.run_sequence + 1 } in
    let attached = attach_reply_target find counted started in
    let a = attach-Unheard find counted started in
    record {
      silence = a.silence;
      there =
          get-put attached.1.run_key (build_run_key thread turn) attached.1
            attached.0.state_by_run_key
          ∙ rw (a.name, eq_text_refl (build_run_key thread turn)) refl;
      counts = a.counts;
    }

ensure-Begun :
    (find : Text → Option Text) (d : Delivery) (thread turn : Text)
    → get (build_run_key thread turn) d.state_by_run_key ≡ none
    → Begun d thread turn (ensure_run_state find d thread turn)
unfolding ensure_run_state
ensure-Begun find d thread turn h = rw (ensure_run_state, h) (create_run-Begun find d thread turn)

told_runs :
    (d : Delivery) (thread : Value)
    → (suppress_next_run_for_thread d thread).state_by_run_key ≡ d.state_by_run_key
unfolding suppress_next_run_for_thread
told_runs d thread =
    either_way (λ (x : Delivery). x.state_by_run_key ≡ d.state_by_run_key)
      (is_empty (normalize_text thread)) refl refl

module _ (s : Services) (r : Reader) where
  -- A flush of a run that is to be silent calls nothing.
  flush_silent :
      (runtime_id : Text) (force : Bool) (f : Flow)
      → f.run.suppress_delivery ≡ true
      → flush_now s r runtime_id force f ≡ f
  unfolding flush_now
  flush_silent runtime_id force f h = rw h refl

  handle_as-silent :
      (type : EventType) (thread turn : Text) (e : Event) (run : Run) (begun w : World)
      → run.suppress_delivery ≡ true
      → begun.wire ≡ w.wire
      → (handle_as s r type thread turn e run begun w).0.wire ≡ w.wire
  unfolding start_turn add_piece complete_item complete_turn flush
  handle_as-silent turn_started thread turn e run begun w h q = q
  handle_as-silent reply_delta thread turn e run begun w h q = q
  handle_as-silent reply_completed thread turn e run begun w h q =
      let piece = upsert_item run (item_id_of e run) (normalize_line_endings e.text) true in
      ap (λ (f : Flow). f.wire)
        (flush_silent begun.delivery.runtime_id false (flow_of s r piece begun) (
          (upsert-Unheard begun.delivery run (item_id_of e run) (normalize_line_endings e.text)
            true).silence
          ∙ h))
      ∙ q
  handle_as-silent turn_completed thread turn e run begun w h q =
      let done = capture_turn_completion_text (with_turn s r turn run) e.text in
      ap (λ (f : Flow). f.wire)
        (flush_silent begun.delivery.runtime_id true (flow_of s r done begun)
          ((capture-Unheard begun.delivery (with_turn s r turn run) e.text).silence ∙ h))
      ∙ q
  handle_as-silent turn_failed thread turn e run begun w h q = refl
  handle_as-silent (other_event t) thread turn e run begun w h q = refl

  -- If the next run of a thread is to be suppressed, and a turn of the thread has no run yet, the
  -- run that begins for it is recorded as suppressed, every thread's count of runs to suppress is
  -- what it was before, and the first event of the turn, of any type and handled as one of a turn
  -- that is not superseded, calls neither the channel nor a hook. The thread's id is not empty.
  pub handle_type-suppress :
      (d : Delivery) (thread : Value) (turn j : Text) (e : Event) (wire : Wire)
      → is_empty (normalize_text thread) ≡ false
      → get (build_run_key (normalize_text thread) turn) d.state_by_run_key ≡ none
      → let t = normalize_text thread in
        let told = suppress_next_run_for_thread d thread in
        let (d', run) = ensure_run_state s.find_binding told t turn in
        (run.suppress_delivery ≡ true)
        × (get (build_run_key t turn) d'.state_by_run_key ≡ some run)
        × (count_of j d'.suppressed_run_count_by_thread_id
            ≡ count_of j d.suppressed_run_count_by_thread_id)
        × ((handle_type s r t turn e (record { delivery = told; wire = wire })).0.wire ≡ wire)
  unfolding handle_type
  handle_type-suppress d thread turn j e wire h fresh =
      let t = normalize_text thread in
      let told = suppress_next_run_for_thread d thread in
      let waits = consume_suppressed_run-suppress d thread j h in
      let b =
        ensure-Begun s.find_binding told t turn
          (ap (get (build_run_key t turn)) (told_runs d thread) ∙ fresh) in
      let x = ensure_run_state s.find_binding told t turn in
      let silent = b.silence ∙ waits.0 in
      (
        silent,
        b.there,
        ap (count_of j) b.counts ∙ waits.1,
        handle_as-silent e.type t turn e x.1 (record { delivery = x.0; wire = wire })
            (record { delivery = told; wire = wire }) silent refl,
      )
