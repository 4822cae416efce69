-- ===== src/Delivery/Events.antt =====
-- src/core/stream-delivery.js: the events of the runtime, as the delivery handles them one by one.
use mossbridge.Delivery.State.{Run, SupersededRun, Delivery, build_run_key, put_run}
use mossbridge.Delivery.Texts.{normalize_line_endings}
use mossbridge.Delivery.Targets.{resolve_superseded_run}
use mossbridge.Delivery.Runs.{
  decimal, new_run, attach_reply_target, ensure_run_state, dispose_run_state, upsert_item,
  capture_turn_completion_text, build_reply_text,
}
use mossbridge.Delivery.Actions.{Reader}
use mossbridge.Delivery.Sending.{Payload, Services, Wire, record_outbound_delivery}
use mossbridge.Delivery.Retry.{Flow}
use mossbridge.Delivery.Flush.{flush_now}
use mossbridge.Prelude.{
  ◌+◌, ◌==◌, Bool, true, false, none, some, List, [], ◌∷◌, ◌++◌, any, Text, trim, is_empty, or_text,
  codes, length, if◌then◌else◌, Option,
}
use mossbridge.Js.{Value, str, normalize_text}

pub data EventType : Type 0 where
  turn_started reply_delta reply_completed turn_completed turn_failed : EventType
  other_event : Text → EventType

-- `text` is `String(payload.text || "")`.
pub record Event : Type 0 where
  pub type : EventType
  pub thread_id : Value
  pub turn_id : Value
  pub item_id : Value
  pub text : Text

abbrev pub type_text : EventType → Text
type_text turn_started = codes "runtime.turn.started"
type_text reply_delta = codes "runtime.reply.delta"
type_text reply_completed = codes "runtime.reply.completed"
type_text turn_completed = codes "runtime.turn.completed"
type_text turn_failed = codes "runtime.turn.failed"
type_text (other_event t) = trim t

-- What `handleRuntimeEvent` returns; an empty text is none.
pub record Reaction : Type 0 where
  pub late_old_turn_suppressed : Bool
  pub mcp_transport_failure : Bool
  pub assistant_text_final : Text

abbrev pub no_reaction : Reaction
no_reaction = record {
  late_old_turn_suppressed = false;
  mcp_transport_failure = false;
  assistant_text_final = [];
}

pub record World : Type 0 where
  pub delivery : Delivery
  pub wire : Wire

abbrev pub late_payload : Payload
late_payload = record { user_id = []; text = []; context_token = []; preserve_block = false }

-- The number of items is in the id of an item that has none.
abbrev pub item_id_of : Event → Run → Text
item_id_of e run =
    or_text (normalize_text e.item_id) (codes "item-" ++ decimal (length run.item_order + 1))

module _ (s : Services) (r : Reader) where
  unfoldable pub record_late_old_turn_suppressed : SupersededRun → Event → World → World
  record_late_old_turn_suppressed old e w =
      let thread = or_text (normalize_text e.thread_id) old.thread_id in
      let turn = or_text (normalize_text e.turn_id) old.turn_id in
      let late : Run = record (new_run thread turn false 0) { reply_target = old.reply_target } in
      if any (λ n. n == old.number) w.delivery.audit_recorded then w else record {
        delivery = record w.delivery { audit_recorded = old.number ∷ w.delivery.audit_recorded };
        wire =
            record_outbound_delivery s late late_payload (codes "runtime_causality")
              (codes "late_old_turn_suppressed")
              (or_text (type_text e.type) (codes "late_runtime_event")) none w.wire;
      }

  abbrev pub flow_of : Run → World → Flow
  flow_of run w = record {
    run = run;
    bindings = w.delivery.reply_target_by_binding_key;
    wire = w.wire;
  }

  -- The run after the flush is the one of the map.
  abbrev pub world_of : Flow → World → World
  world_of f w = record {
    delivery = put_run (record w.delivery { reply_target_by_binding_key = f.bindings }) f.run;
    wire = f.wire;
  }

  unfoldable pub flush : Bool → Run → World → World
  flush force run w = world_of (flush_now s r w.delivery.runtime_id force (flow_of run w)) w

  -- `turnId || state.turnId`.
  abbrev pub with_turn : Text → Run → Run
  with_turn turn run = record run { turn_id = or_text turn run.turn_id }

  unfoldable pub start_turn : Text → Run → World → World
  start_turn turn run w =
      let (d, attached) = attach_reply_target s.find_binding w.delivery (with_turn turn run) in
      record w { delivery = put_run d attached }

  unfoldable pub add_piece : Event → Run → World → World
  add_piece e run w = record w {
    delivery =
        put_run w.delivery
          (upsert_item run (item_id_of e run) (normalize_line_endings e.text) false);
  }

  unfoldable pub complete_item : Event → Run → World → World
  unfolding flush
  complete_item e run w =
      flush false (upsert_item run (item_id_of e run) (normalize_line_endings e.text) true) w

  abbrev pub final_reaction : Run → Reaction
  final_reaction run = record {
    late_old_turn_suppressed = false;
    mcp_transport_failure = run.mcp_transport_failure_observed;
    assistant_text_final = if run.mcp_transport_failure_observed then [] else build_reply_text run;
  }

  unfoldable pub complete_turn : Text → Event → Run → World → World × Reaction
  complete_turn turn e run w =
      let f =
        flush_now s r w.delivery.runtime_id true
          (flow_of (capture_turn_completion_text (with_turn turn run) e.text) w) in
      let w' = world_of f w in
      (record w' { delivery = dispose_run_state w'.delivery f.run.run_key }, final_reaction f.run)

  -- `begun` is the world in which the run is there: no run begins with the last two types.
  abbrev pub handle_as : EventType → Text → Text → Event → Run → World → World → World × Reaction
  handle_as turn_started thread turn e run begun w = (start_turn turn run begun, no_reaction)
  handle_as reply_delta thread turn e run begun w = (add_piece e run begun, no_reaction)
  handle_as reply_completed thread turn e run begun w = (complete_item e run begun, no_reaction)
  handle_as turn_completed thread turn e run begun w = complete_turn turn e run begun
  handle_as turn_failed thread turn e run begun w = (
    record w { delivery = dispose_run_state w.delivery (build_run_key thread turn) },
    no_reaction,
  )
  handle_as (other_event _) thread turn e run begun w = (w, no_reaction)

  unfoldable pub handle_type : Text → Text → Event → World → World × Reaction
  unfolding start_turn add_piece complete_item complete_turn
  handle_type thread turn e w =
      let (d, run) = ensure_run_state s.find_binding w.delivery thread turn in
      handle_as e.type thread turn e run (record w { delivery = d }) w

  unfoldable pub handle_late : SupersededRun → Text → Text → Event → World → World × Reaction
  unfolding record_late_old_turn_suppressed
  handle_late old thread turn e w =
      let w' = record_late_old_turn_suppressed old e w in
      (
        record w' { delivery = dispose_run_state w'.delivery (build_run_key thread turn) },
        record no_reaction { late_old_turn_suppressed = true },
      )

  abbrev pub handle_resolved : Text → Text → Event → World → Option SupersededRun → World × Reaction
  handle_resolved thread turn e w none = handle_type thread turn e w
  handle_resolved thread turn e w (some old) = handle_late old thread turn e w

  unfoldable pub handle_runtime_event : Event → World → World × Reaction
  unfolding handle_late handle_type
  handle_runtime_event e w =
      let thread = normalize_text e.thread_id in
      let turn = normalize_text e.turn_id in
      if is_empty thread
      then (w, no_reaction)
      else handle_resolved thread turn e w
          (resolve_superseded_run w.delivery (str thread) (str turn))

  -- The events in their order, with what each of them returned.
  unfoldable pub handle_all : List Event → World → World × List Reaction
  unfolding handle_runtime_event
  handle_all [] w = (w, [])
  handle_all (e ∷ es) w =
      let (w', reaction) = handle_runtime_event e w in
      let (w'', reactions) = handle_all es w' in (w'', reaction ∷ reactions)
