-- ===== src/Delivery/Runs.antt =====
-- src/core/stream-delivery.js: the state of a run, from its first event to its last, and the text of its
-- items. `find_binding` is `sessionStore.findBindingForThreadId`: the binding key of a thread.
use mossbridge.Delivery.State.{
  Target, Item, Run, Delivery, build_run_key, apply_thread_reply_target, put_run,
}
use mossbridge.Delivery.Texts.{
  append_streaming_text, normalize_line_endings, trim_outer_blank_lines,
}
use mossbridge.Delivery.Targets.{consume_suppressed_run, consume_queued_reply_target}
use mossbridge.Prelude.{
  ℕ, zero, suc, ◌+◌, ◌/◌, ◌%◌, Bool, true, false, ◌||◌, not, Option, none, some, List, [], ◌∷◌,
  ◌++◌, map, Text, eq_text, trim, is_empty, or_text, codes, get, put, remove, length, keep, any,
  ltb, if◌then◌else◌, or_else, first_some, is_some,
}

-- `${n}` of a whole number: its decimal digits. n digits are more than it has.
abbrev pub digits : ℕ → ℕ → Text
digits zero n = []
digits (suc fuel) n =
    let before = digits fuel (n / 10) in
    if ltb n 10 then (48 + n) ∷ [] else before ++ (48 + n % 10) ∷ []

abbrev pub decimal : ℕ → Text
decimal n = digits (suc n) n

abbrev pub apply_if : Run → Option Target → Run
apply_if run none = run
apply_if run (some t) = apply_thread_reply_target run t

unfoldable pub attach_turn_target : Delivery → Run → Run
attach_turn_target d run =
    if run.thread_reply_target_attached || is_empty run.turn_id
    then run
    else apply_if run (get (build_run_key run.thread_id run.turn_id) d.reply_target_by_turn_key)

unfoldable pub attach_queued_target : Delivery → Run → Delivery × Run
attach_queued_target d run =
    let (d', target) = consume_queued_reply_target d run.thread_id in
    if run.thread_reply_target_attached then (d, run) else (d', apply_if run target)

-- The run takes the prefix of its binding, which is gone from the map.
unfoldable pub take_prefix : Delivery → Run → Text → Delivery × Run
take_prefix d run binding =
    let prefix = or_else (get binding d.deferred_reply_prefix_by_binding_key) [] in
    if not (is_empty run.deferred_reply_prefix) || is_empty prefix then (d, run) else (
      record d {
        deferred_reply_prefix_by_binding_key =
            remove binding d.deferred_reply_prefix_by_binding_key;
      },
      record run { deferred_reply_prefix = prefix },
    )

unfoldable pub attach_binding : Delivery → Run → Option Text → Delivery × Run
unfolding take_prefix
attach_binding d run none = (d, run)
attach_binding d run (some binding) =
    if is_empty binding
    then (d, run)
    else take_prefix d
        (record run {
          binding_key = binding;
          reply_target = first_some run.reply_target (get binding d.reply_target_by_binding_key);
        })
        binding

unfoldable pub attach_reply_target : (Text → Option Text) → Delivery → Run → Delivery × Run
unfolding attach_turn_target attach_queued_target attach_binding
attach_reply_target find_binding d run =
    let (d', queued) = attach_queued_target d (attach_turn_target d run) in
    attach_binding d' queued (find_binding run.thread_id)

abbrev pub new_run : Text → Text → Bool → ℕ → Run
new_run thread turn suppress sequence = record {
  run_key = build_run_key thread turn;
  thread_id = thread;
  turn_id = trim turn;
  binding_key = [];
  reply_target = none;
  suppress_delivery = suppress;
  superseded = false;
  deferred_reply_prefix = [];
  item_order = [];
  items = [];
  sent_item_ids = [];
  sequence = sequence;
  thread_reply_target_attached = false;
  mcp_transport_failure_observed = false;
}

unfoldable pub create_run : (Text → Option Text) → Delivery → Text → Text → Delivery × Run
create_run find_binding d thread turn =
    let (d1, suppress) = consume_suppressed_run d thread in
    let (d2, run) =
      attach_reply_target find_binding (record d1 { run_sequence = d1.run_sequence + 1 })
        (new_run thread turn suppress (d1.run_sequence + 1)) in
    (put_run d2 run, run)

unfoldable pub ensure_run_state : (Text → Option Text) → Delivery → Text → Text → Delivery × Run
unfolding create_run
ensure_run_state find_binding d thread turn =
    elim (get (build_run_key thread turn) d.state_by_run_key) [
      | none ↦ create_run find_binding d thread turn
      | some run ↦ (d, run)
    ]

unfoldable pub dispose_run_state : Delivery → Text → Delivery
dispose_run_state d run_key =
    let key = trim run_key in
    if is_empty key then d else record d {
      reply_target_by_turn_key = remove key d.reply_target_by_turn_key;
      state_by_run_key = remove key d.state_by_run_key;
    }

abbrev pub empty_item : Item
empty_item = record { current_text = []; completed_text = []; completed = false }

-- The item with a piece of its text, or with its whole text.
unfoldable pub updated_item : Item → Text → Bool → Item
updated_item item text true = record {
  current_text = text;
  completed_text = text;
  completed = true;
}
updated_item item text false = record item {
  current_text = append_streaming_text item.current_text text;
}

unfoldable pub upsert_item : Run → Text → Text → Bool → Run
unfolding updated_item
upsert_item run id text completed =
    let known = get id run.items in
    if is_empty text then run else record run {
      item_order = if is_some known then run.item_order else run.item_order ++ id ∷ [];
      items = put id (updated_item (or_else known empty_item) text completed) run.items;
    }

unfoldable pub capture_turn_completion_text : Run → Text → Run
capture_turn_completion_text run text =
    let normalized = trim_outer_blank_lines (normalize_line_endings text) in
    if is_empty normalized || ltb 0 (length run.item_order)
    then run
    else upsert_item run (codes "result-" ++ or_text run.turn_id run.thread_id) normalized true

abbrev pub text_of_item : Item → Text
text_of_item item = if item.completed then item.completed_text else item.current_text

-- `parts.join("\n\n")`.
abbrev pub join_parts : List Text → Text
join_parts [] = []
join_parts (p ∷ []) = p
join_parts (p ∷ q ∷ ps) = p ++ 10 ∷ 10 ∷ join_parts (q ∷ ps)

abbrev pub is_text : Text → Bool
is_text t = not (is_empty t)

abbrev pub reply_part : Run → Text → Text
reply_part run id = elim (get id run.items) [
  | none ↦ []
  | some item ↦ trim_outer_blank_lines (text_of_item item)
]

-- `buildReplyText(state, { completedOnly: false })`, the only way it is called.
unfoldable pub build_reply_text : Run → Text
build_reply_text run = join_parts (keep is_text (map (reply_part run) run.item_order))

unfoldable pub resolve_plain_reply_source_text : Item → Bool → Text
resolve_plain_reply_source_text item force =
    if item.completed
    then trim_outer_blank_lines (or_text item.completed_text item.current_text)
    else if force
    then trim_outer_blank_lines item.current_text
    else []

abbrev pub current_reply_header : Text
current_reply_header = codes "===== [Mossbridge] current_runtime_reply ====="

unfoldable pub build_effective_reply_text : Text → Text → Text
build_effective_reply_text deferred_prefix reply_text =
    let prefix = trim_outer_blank_lines (normalize_line_endings deferred_prefix) in
    let body = trim_outer_blank_lines (normalize_line_endings reply_text) in
    if is_empty prefix || is_empty body
    then or_text prefix body
    else prefix ++ 10 ∷ 10 ∷ current_reply_header ++ 10 ∷ body

abbrev pub is_one_of : List Text → Text → Bool
is_one_of ids id = any (eq_text id) ids

-- `sentItemIds.add(id)`.
unfoldable pub add_sent : List Text → Text → List Text
add_sent ids id = if is_one_of ids id then ids else ids ++ id ∷ []

abbrev pub add_all_sent : List Text → List Text → List Text
add_all_sent ids [] = ids
add_all_sent ids (i ∷ is) = add_all_sent (add_sent ids i) is

unfoldable pub mark_all_items_sent : Run → Run
mark_all_items_sent run = record run {
  sent_item_ids = add_all_sent run.sent_item_ids run.item_order;
}
