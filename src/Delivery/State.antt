-- ===== src/Delivery/State.antt =====
-- src/core/stream-delivery.js: the state of the delivery and of a run. A `Map` is a dictionary in the
-- order of insertion, a `Set` of ids a list. A record of a superseded run has a number, so that the two
-- maps that share it see one mark of its audit.
use mossbridge.Js.{Value, str, normalize_text}
use mossbridge.Prelude.{or_else}
use mossbridge.Prelude.{
  ℕ, Bool, true, ◌||◌, Option, none, some, List, ◌++◌, Text, trim, is_empty, codes, Dict, put,
  if◌then◌else◌,
}

-- `userId` and `contextToken` of a target, as strings.
pub record RawTarget : Type 0 where
  pub user_id : Text
  pub context_token : Text
  pub provider : Value
  pub context_token_age_ms : Option ℕ
  pub causal_message_id : Value
  pub redispatch_generation : Option ℕ

pub record Target : Type 0 where
  pub user_id : Text
  pub context_token : Text
  pub provider : Text
  pub context_token_age_ms : Option ℕ
  pub causal_message_id : Text
  pub redispatch_generation : ℕ

pub record Item : Type 0 where
  pub current_text : Text
  pub completed_text : Text
  pub completed : Bool

pub record Run : Type 0 where
  pub run_key : Text
  pub thread_id : Text
  pub turn_id : Text
  pub binding_key : Text
  pub reply_target : Option Target
  pub suppress_delivery : Bool
  pub superseded : Bool
  pub deferred_reply_prefix : Text
  pub item_order : List Text
  pub items : Dict Item
  pub sent_item_ids : List Text
  pub sequence : ℕ
  pub thread_reply_target_attached : Bool
  pub mcp_transport_failure_observed : Bool

pub record SupersededRun : Type 0 where
  pub number : ℕ
  pub thread_id : Text
  pub turn_id : Text
  pub run_key : Text
  pub causal_message_id : Text
  pub redispatch_generation : ℕ
  pub reply_target : Option Target

pub record Delivery : Type 0 where
  pub runtime_id : Text
  pub reply_target_by_binding_key : Dict Target
  pub reply_target_by_turn_key : Dict Target
  pub reply_target_queue_by_thread_id : Dict (List Target)
  pub deferred_reply_prefix_by_binding_key : Dict Text
  pub suppressed_run_count_by_thread_id : Dict ℕ
  pub superseded_run_by_run_key : Dict SupersededRun
  pub superseded_run_by_thread_id : Dict SupersededRun
  pub superseded_runs : ℕ
  pub audit_recorded : List ℕ
  pub state_by_run_key : Dict Run
  pub run_sequence : ℕ

unfoldable pub build_run_key : Text → Text → Text
build_run_key thread turn =
    if is_empty (trim turn)
    then trim thread ++ codes ":pending"
    else trim thread ++ codes ":" ++ trim turn

-- The targets without a user or a token are none.
unfoldable pub normalize_reply_target : Option RawTarget → Option Target
normalize_reply_target none = none
normalize_reply_target (some r) =
    if is_empty r.user_id || is_empty r.context_token
    then none
    else some (record {
      user_id = trim r.user_id;
      context_token = trim r.context_token;
      provider = normalize_text r.provider;
      context_token_age_ms = r.context_token_age_ms;
      causal_message_id = normalize_text r.causal_message_id;
      redispatch_generation = or_else r.redispatch_generation 0;
    })

-- A target that is read again.
abbrev pub raw_of : Target → RawTarget
raw_of t = record {
  user_id = t.user_id;
  context_token = t.context_token;
  provider = str t.provider;
  context_token_age_ms = t.context_token_age_ms;
  causal_message_id = str t.causal_message_id;
  redispatch_generation = some t.redispatch_generation;
}

unfoldable pub apply_thread_reply_target : Run → Target → Run
apply_thread_reply_target run target = record run {
  reply_target = some (record target { causal_message_id = trim target.causal_message_id });
  thread_reply_target_attached = true;
}

abbrev pub put_run : Delivery → Run → Delivery
put_run d run = record d { state_by_run_key = put run.run_key run d.state_by_run_key }
