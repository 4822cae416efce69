-- ===== src/Delivery/Invariant.antt =====
-- Whatever the events, the items of every run stay consistent.
use mossbridge.Delivery.Texts.{trim_outer_blank_lines, normalize_line_endings}
use mossbridge.Delivery.State.{Run, SupersededRun, Delivery, build_run_key, put_run}
use mossbridge.Delivery.Targets.{resolve_superseded_run}
use mossbridge.Delivery.Runs.{
  attach_reply_target, ensure_run_state, upsert_item, capture_turn_completion_text, decimal,
}
use mossbridge.Delivery.Actions.{Reader}
use mossbridge.Delivery.Sending.{Services}
use mossbridge.Delivery.Flush.{flush_now}
use mossbridge.Delivery.Items.{IsConsistent, upsert_item-IsConsistent}
use mossbridge.Delivery.Events.{
  EventType, handle_as, handle_resolved, Event, World, Reaction, handle_runtime_event, handle_all,
  handle_type, handle_late, start_turn, add_piece, complete_item, complete_turn, flush, flow_of,
  with_turn, item_id_of, record_late_old_turn_suppressed, turn_started, reply_delta,
  reply_completed, turn_completed, turn_failed, other_event,
}
use mossbridge.Delivery.Consistent.{
  consistent_still, attach_reply-Attached, AllConsistent, AreConsistent, put_consistent,
  ensure_run_state-Ready, dispose_run-AreConsistent,
}
use mossbridge.Delivery.Kept.{flush_now-Keeps}
use mossbridge.Prelude.{
  either_way, ◌+◌, ◌≡◌, refl, sym, subst, Bool, true, false, ◌||◌, Option, none, some, List, [],
  ◌∷◌, ◌++◌, Text, is_empty, or_text, codes, ltb, length, ◌==◌, any,
}
use mossbridge.Js.{str, normalize_text}

or_text_named : (a b : Text) → is_empty b ≡ false → is_empty (or_text a b) ≡ false
unfolding or_text is_empty
or_text_named [] b h = h
or_text_named (c ∷ t) b h = refl

item_id_named : (e : Event) (run : Run) → is_empty (item_id_of e run) ≡ false
item_id_named e run =
    or_text_named (normalize_text e.item_id) (codes "item-" ++ decimal (length run.item_order + 1))
      (unfold is_empty in refl)

module _ (s : Services) (r : Reader) where
  abbrev Fine : World → Type 0
  Fine w = AreConsistent w.delivery

  put_run-Fine :
      (d : Delivery) (run : Run)
      → IsConsistent run
      → AreConsistent d
      → AreConsistent (put_run d run)
  put_run-Fine d run c h = put_consistent run.run_key run d.state_by_run_key c h

  flush_now-Fine :
      (force : Bool) (run : Run) (w : World)
      → IsConsistent run
      → IsConsistent (flush_now s r w.delivery.runtime_id force (flow_of s r run w)).run
  flush_now-Fine force run w c =
      let f = flow_of s r run w in
      let g = flush_now s r w.delivery.runtime_id force f in
      consistent_still run g.run (flush_now-Keeps s r w.delivery.runtime_id force f) c

  flush-Fine :
      (force : Bool) (run : Run) (w : World)
      → IsConsistent run
      → Fine w
      → Fine (flush s r force run w)
  unfolding flush
  flush-Fine force run w c h =
      let g = flush_now s r w.delivery.runtime_id force (flow_of s r run w) in
      put_run-Fine (record w.delivery { reply_target_by_binding_key = g.bindings }) g.run
        (flush_now-Fine force run w c) h

  with_turn-IsConsistent :
      (turn : Text) (run : Run) → IsConsistent run → IsConsistent (with_turn s r turn run)
  with_turn-IsConsistent turn run c = record {
    named = c.named;
    ordered = c.ordered;
    distinct = c.distinct;
  }

  start_turn-Fine :
      (turn : Text) (run : Run) (w : World)
      → IsConsistent run
      → Fine w
      → Fine (start_turn s r turn run w)
  unfolding start_turn
  start_turn-Fine turn run w c h =
      let turned = with_turn s r turn run in
      let x = attach_reply_target s.find_binding w.delivery turned in
      let a = attach_reply-Attached s.find_binding w.delivery turned in
      put_run-Fine x.0 x.1 (consistent_still turned x.1 a.keeps (with_turn-IsConsistent turn run c))
        (subst AllConsistent (sym a.runs) h)

  add_piece-Fine :
      (e : Event) (run : Run) (w : World) → IsConsistent run → Fine w → Fine (add_piece s r e run w)
  unfolding add_piece
  add_piece-Fine e run w c h =
      let text = normalize_line_endings e.text in
      put_run-Fine w.delivery (upsert_item run (item_id_of e run) text false)
        (upsert_item-IsConsistent run (item_id_of e run) text false (item_id_named e run) c) h

  complete_item-Fine :
      (e : Event) (run : Run) (w : World)
      → IsConsistent run
      → Fine w
      → Fine (complete_item s r e run w)
  unfolding complete_item
  complete_item-Fine e run w c h =
      let text = normalize_line_endings e.text in
      flush-Fine false (upsert_item run (item_id_of e run) text true) w
        (upsert_item-IsConsistent run (item_id_of e run) text true (item_id_named e run) c) h

  capture-IsConsistent :
      (run : Run) (text : Text)
      → IsConsistent run
      → IsConsistent (capture_turn_completion_text run text)
  unfolding capture_turn_completion_text
  capture-IsConsistent run text c =
      let normalized = trim_outer_blank_lines (normalize_line_endings text) in
      let id = codes "result-" ++ or_text run.turn_id run.thread_id in
      either_way IsConsistent (is_empty normalized || ltb 0 (length run.item_order)) c
        (upsert_item-IsConsistent run id normalized true (unfold is_empty in refl) c)

  complete_turn-Fine :
      (turn : Text) (e : Event) (run : Run) (w : World)
      → IsConsistent run
      → Fine w
      → Fine (complete_turn s r turn e run w).0
  unfolding complete_turn
  complete_turn-Fine turn e run w c h =
      let captured = capture_turn_completion_text (with_turn s r turn run) e.text in
      let f = flush_now s r w.delivery.runtime_id true (flow_of s r captured w) in
      let d : Delivery = record w.delivery { reply_target_by_binding_key = f.bindings } in
      dispose_run-AreConsistent (put_run d f.run) f.run.run_key (
        put_run-Fine d f.run
          (flush_now-Fine true captured w (
            capture-IsConsistent (with_turn s r turn run) e.text
              (with_turn-IsConsistent turn run c)))
          h)

  handle_as-Fine :
      (type : EventType) (thread turn : Text) (e : Event) (run : Run) (begun w : World)
      → IsConsistent run
      → Fine begun
      → Fine w
      → Fine (handle_as s r type thread turn e run begun w).0
  handle_as-Fine turn_started thread turn e run begun w c b h = start_turn-Fine turn run begun c b
  handle_as-Fine reply_delta thread turn e run begun w c b h = add_piece-Fine e run begun c b
  handle_as-Fine reply_completed thread turn e run begun w c b h =
      complete_item-Fine e run begun c b
  handle_as-Fine turn_completed thread turn e run begun w c b h =
      complete_turn-Fine turn e run begun c b
  handle_as-Fine turn_failed thread turn e run begun w c b h =
      dispose_run-AreConsistent w.delivery (build_run_key thread turn) h
  handle_as-Fine (other_event _) thread turn e run begun w c b h = h

  handle_type-Fine :
      (thread turn : Text) (e : Event) (w : World)
      → Fine w
      → Fine (handle_type s r thread turn e w).0
  unfolding handle_type
  handle_type-Fine thread turn e w h =
      let x = ensure_run_state s.find_binding w.delivery thread turn in
      let ready = ensure_run_state-Ready s.find_binding w.delivery thread turn h in
      handle_as-Fine e.type thread turn e x.1 (record w { delivery = x.0 }) w ready.run ready.runs h

  handle_late-Fine :
      (old : SupersededRun) (thread turn : Text) (e : Event) (w : World)
      → Fine w
      → Fine (handle_late s r old thread turn e w).0
  unfolding handle_late record_late_old_turn_suppressed
  handle_late-Fine old thread turn e w h =
      dispose_run-AreConsistent (record_late_old_turn_suppressed s r old e w).delivery
        (build_run_key thread turn)
        (either_way Fine (any (λ n. n == old.number) w.delivery.audit_recorded) h h)

  handle_resolved-Fine :
      (thread turn : Text) (e : Event) (w : World) (old : Option SupersededRun)
      → Fine w
      → Fine (handle_resolved s r thread turn e w old).0
  handle_resolved-Fine thread turn e w none h = handle_type-Fine thread turn e w h
  handle_resolved-Fine thread turn e w (some old) h = handle_late-Fine old thread turn e w h

  -- An event keeps the items of every run consistent.
  pub handle_runtime_event-AreConsistent :
      (e : Event) (w : World)
      → AreConsistent w.delivery
      → AreConsistent (handle_runtime_event s r e w).0.delivery
  unfolding handle_runtime_event
  handle_runtime_event-AreConsistent e w h =
      let thread = normalize_text e.thread_id in
      let turn = normalize_text e.turn_id in
      either_way (λ (x : World × Reaction). Fine x.0) (is_empty thread) h
        (handle_resolved-Fine thread turn e w
          (resolve_superseded_run w.delivery (str thread) (str turn)) h)

  -- If the items of every run are consistent, each item named once, in the order of the map and by
  -- a name that is not empty, they are so after any sequence of events.
  pub handle_all-AreConsistent :
      (es : List Event) (w : World)
      → AreConsistent w.delivery
      → AreConsistent (handle_all s r es w).0.delivery
  unfolding handle_all
  handle_all-AreConsistent [] w h = h
  handle_all-AreConsistent (e ∷ es) w h =
      handle_all-AreConsistent es (handle_runtime_event s r e w).0
        (handle_runtime_event-AreConsistent e w h)
