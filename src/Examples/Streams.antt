-- ===== src/Examples/Streams.antt =====
-- src/core/stream-delivery.js with a channel whose first call fails, and a run with one item.
use mossbridge.Prelude.{
  ℕ, zero, suc, ◌≤◌, ◌<◌, ◌≡◌, refl, true, false, none, some, List, [], ◌∷◌, arith, if◌then◌else◌,
  codes, ◌==◌, length, get, trim, is_empty, or_text, is_space, eq_text, starts_with, includes,
  or_text,
}
use mossbridge.Js.{str, other, normalize_text}
use mossbridge.Delivery.State.{Target, Run, Delivery, build_run_key}
use mossbridge.Delivery.Texts.{append_streaming_text}
use mossbridge.Delivery.Overlap.{Joins, append_streaming_text-shortest}
use mossbridge.Delivery.Failures.{Failure, is_transient_delivery_failure}
use mossbridge.Delivery.Targets.{
  suppress_next_run_for_thread, count_of, queue_of, queue_target, consume_queued_reply_target,
  mark_run_superseded,
}
use mossbridge.Delivery.Runs.{new_run, ensure_run_state}
use mossbridge.Delivery.Actions.{Reader}
use mossbridge.Queues.Deferred.{system_reply, plain_reply}
use mossbridge.Delivery.Sending.{
  Payload, Services, Wire, sent, initial, send_text_with_transient_retry,
}
use mossbridge.Delivery.Retry.{Flow, send_text_with_retry}
use mossbridge.Delivery.Events.{
  Event, World, handle_all, handle_type, turn_started, reply_completed, turn_completed,
}
use mossbridge.Delivery.Attempts.{
  Tried, FailsAt, send_text_with_transient_retry-bounds, send_text_with_transient_retry_sends,
}
use mossbridge.Delivery.Fates.{Fate, send_text_with_retry-Fate}
use mossbridge.Delivery.Flushed.{Flushed}
use mossbridge.Delivery.Consistent.{AreConsistent}
use mossbridge.Delivery.Invariant.{handle_all-AreConsistent}
use mossbridge.Delivery.Late.{Quiet, handle_all-Quiet}
use mossbridge.Delivery.Silent.{handle_type-suppress}
use mossbridge.Delivery.Waiting.{consume_queued-queue_target}

joined : Joins (codes "one tw") (codes "two") (codes "one two")
joined = record { added = codes "o"; before = codes "one "; starts = refl; ends = refl }

append_streaming_text-shortest_example :
    Joins (codes "one tw") (codes "two") (append_streaming_text (codes "one tw") (codes "two"))
    × (length (append_streaming_text (codes "one tw") (codes "two")) ≤ 7)
append_streaming_text-shortest_example =
    append_streaming_text-shortest (codes "one tw") (codes "two") (codes "one two") joined

abbrev timeout : Failure
timeout = record {
  message = codes "timeout";
  name = codes "Error";
  cause_name = [];
  cause_code = [];
  code = [];
  ret = none;
  errcode = none;
  api_label = [];
  api_endpoint = [];
  api_timeout_ms = none;
}

abbrev services : Services
services = record {
  send = λ n p. if n == 0 then some timeout else none;
  known_tokens = none;
  context_token_age_ms = λ u. none;
  defer = some (λ c. true);
  has_outbound_hook = true;
  has_notice_hook = true;
  delays = 1500 ∷ 2500 ∷ [];
  lower = λ t. t;
  find_binding = λ t. none;
}

abbrev reader : Reader
reader = record {
  parse = λ t. none;
  sanitize = λ t. t;
  plain_text = λ t. t;
  is_hazard = λ t. false;
  patterns = record {
    is_capacity = λ t. false;
    is_warning = λ t. false;
    says_claude = λ t. false;
    says_codex = λ t. false;
    reset_time = λ t. [];
    lower = λ t. t;
  };
  has_tool_context = λ t. false;
  has_transport_failure = λ t. false;
}

abbrev quiet : Wire
quiet = record {
  calls = 0;
  delivered = [];
  audits = [];
  deferred = [];
  notices = [];
  slept = [];
  ai_replies = 0;
}

abbrev target : Target
target = record {
  user_id = codes "u";
  context_token = codes "c";
  provider = codes "weixin";
  context_token_age_ms = none;
  causal_message_id = [];
  redispatch_generation = 0;
}

abbrev run : Run
run = record (new_run (codes "t") (codes "1") false 1) {
  reply_target = some target;
  item_order = codes "a" ∷ [];
  items =
      (
        codes "a",
        record { current_text = codes "hi"; completed_text = codes "hi"; completed = true },
      )
      ∷ [];
}

abbrev payload : Payload
payload = record {
  user_id = codes "u";
  text = codes "hi";
  context_token = codes "c";
  preserve_block = false;
}

abbrev flow : Flow
flow = record { run = run; bindings = []; wire = quiet }

send_text_with_transient_retry-bounds_example :
    let (w, o) = send_text_with_transient_retry services run payload plain_reply initial quiet in
    Tried services payload 2 quiet w o
send_text_with_transient_retry-bounds_example =
    send_text_with_transient_retry-bounds services run payload plain_reply initial quiet

timeout-transient : is_transient_delivery_failure (λ t. t) timeout ≡ true
unfolding is_transient_delivery_failure eq_text includes starts_with is_empty or_text
timeout-transient = refl

first_fails : (i : ℕ) → i < 1 → FailsAt services run payload plain_reply initial quiet i
first_fails zero h = (timeout, refl, timeout-transient)
first_fails (suc i) h = absurd (omega arith)

send_text_with_transient_retry_sends_example :
    let (w, o) = send_text_with_transient_retry services run payload plain_reply initial quiet in
    (o ≡ sent) × (w.calls ≡ 2)
send_text_with_transient_retry_sends_example =
    send_text_with_transient_retry_sends services run payload plain_reply initial 1 quiet
      (omega arith) first_fails refl

send_text_with_retry-Fate_example :
    let (f, o) = send_text_with_retry services true system_reply payload target flow in
    Fate payload true quiet f.wire o
send_text_with_retry-Fate_example =
    send_text_with_retry-Fate services true system_reply payload target flow refl

abbrev fresh : Delivery
fresh = record {
  runtime_id = codes "codex";
  reply_target_by_binding_key = [];
  reply_target_by_turn_key = [];
  reply_target_queue_by_thread_id = [];
  deferred_reply_prefix_by_binding_key = [];
  suppressed_run_count_by_thread_id = [];
  superseded_run_by_run_key = [];
  superseded_run_by_thread_id = [];
  superseded_runs = 0;
  audit_recorded = [];
  state_by_run_key = [];
  run_sequence = 0;
}

abbrev started : Event
started = record {
  type = turn_started;
  thread_id = str (codes "t");
  turn_id = str (codes "1");
  item_id = other;
  text = [];
}

abbrev events : List Event
events =
    started
    ∷ (record started { type = reply_completed; text = codes "hi" })
    ∷ (record started { type = turn_completed })
    ∷ []

abbrev world : World
world = record { delivery = fresh; wire = quiet }

handle_all-AreConsistent_example :
    AreConsistent (handle_all services reader events world).0.delivery
handle_all-AreConsistent_example = handle_all-AreConsistent services reader events world tt

t_named : is_empty (normalize_text (str (codes "t"))) ≡ false
unfolding is_empty normalize_text trim is_space
t_named = refl

handle_all-Quiet_example :
    let marked =
      (mark_run_superseded fresh (str (codes "t")) (str (codes "1")) other none none).0 in
    Quiet quiet
      (handle_all services reader events (record { delivery = marked; wire = quiet })).0.wire
handle_all-Quiet_example =
    handle_all-Quiet services reader fresh (str (codes "t")) (str (codes "1")) other none none
      events quiet t_named (omega arith) (refl, (refl, (refl, tt)))

-- The first event of a turn is its end, with a text.
abbrev only_event : Event
only_event = record {
  type = turn_completed;
  thread_id = str (codes "t");
  turn_id = str (codes "1");
  item_id = other;
  text = codes "done";
}

handle_type-suppress_example :
    let t = normalize_text (str (codes "t")) in
    let told = suppress_next_run_for_thread fresh (str (codes "t")) in
    let (d, begun) = ensure_run_state services.find_binding told t (codes "1") in
    (begun.suppress_delivery ≡ true)
    × (get (build_run_key t (codes "1")) d.state_by_run_key ≡ some begun)
    × (count_of (codes "t") d.suppressed_run_count_by_thread_id
        ≡ count_of (codes "t") fresh.suppressed_run_count_by_thread_id)
    × ((handle_type services reader t
          (codes "1")
          only_event
          (record { delivery = told; wire = quiet })).0.wire
        ≡ quiet)
unfolding get
handle_type-suppress_example =
    handle_type-suppress services reader fresh (str (codes "t")) (codes "1") (codes "t") only_event
      quiet t_named refl

consume_queued-queue_target_example :
    let (d, taken) =
      consume_queued_reply_target (queue_target fresh (codes "t") (some target)) (codes "t") in
    (taken ≡ some target)
    × (queue_of (codes "t") d.reply_target_queue_by_thread_id ≡ [])
    × (d.state_by_run_key ≡ [])
unfolding get
consume_queued-queue_target_example =
    consume_queued-queue_target fresh (codes "t") target (unfold is_empty in refl) refl
