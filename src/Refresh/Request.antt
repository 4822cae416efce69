-- ===== src/Refresh/Request.antt =====
-- An entry of the session refresh store. A time is the milliseconds of its ISO text, none for the
-- empty text. A status that the program does not write is `unknown`. A field that an older entry
-- lacks is empty, none, zero or false, as every reader of it takes it.
use mossbridge.Prelude.{
  ℕ, Text, eq_text, trim, is_empty, or_text, codes, List, [], ◌∷◌, ◌++◌, Option, none, some, Bool,
  true, false, not, ◌&&◌, ◌||◌, if◌then◌else◌, keep, last_n, or_else, first_some,
}
use mossbridge.Js.{Value, normalize_text}

pub data Status : Type 0 where
  pending applied successor_started first_turn_started completed terminal_failed skipped : Status
  unknown : Status

pub record Run : Type 0 where
  pub thread_id : Text
  pub turn_id : Text
  pub causal_message_id : Text
  pub redispatch_generation : ℕ
  pub superseded_at : Option ℕ

pub record Scope : Type 0 where
  pub binding_key : Text
  pub workspace_root : Text
  pub runtime_id : Text

pub record Request : Type 0 where
  pub id : Text
  pub scope : Scope
  pub old_thread_id : Text
  pub new_thread_id : Text
  pub new_turn_id : Text
  pub causal_message_id : Text
  pub redispatch_generation : ℕ
  pub superseded_runs : List Run
  pub reason : Text
  pub requested_by : Text
  pub requested_at : Option ℕ
  pub applied_at : Option ℕ
  pub completed_at : Option ℕ
  pub skipped_at : Option ℕ
  pub skip_reason : Text
  pub status : Status
  pub successor_started_at : Option ℕ
  pub first_turn_started_at : Option ℕ
  pub terminal_at : Option ℕ
  pub terminal_status : Text
  pub writeback_settled : Bool
  pub assistant_outcome : Text
  pub failure_code : Text
  pub grace_turns : Option ℕ
  pub grace_thread_id : Text
  pub grace_remaining : ℕ
  pub grace_started_at : Option ℕ
  pub grace_last_used_at : Option ℕ
  pub grace_expired_at : Option ℕ
  pub last_applied_at : Option ℕ
  pub last_completed_at : Option ℕ
  pub requeued_at : Option ℕ
  pub last_pre_start_failure_at : Option ℕ
  pub pre_start_recovery_count : ℕ

-- The fields of a patch that the callers give; none is an absent key.
pub record Patch : Type 0 where
  pub old_thread_id : Option Text
  pub new_thread_id : Option Text
  pub new_turn_id : Option Text
  pub causal_message_id : Option Text
  pub redispatch_generation : Option ℕ
  pub superseded_runs : Option (List Run)
  pub grace_turns : Option ℕ
  pub grace_remaining : Option ℕ

-- `normalizeText(value) || undefined`, for the optional text fields of a patch.
abbrev pub trim_some : Option Text → Option Text
trim_some none = none
trim_some (some t) = some (trim t)

unfoldable pub empty_patch : Patch
empty_patch = record {
  old_thread_id = none;
  new_thread_id = none;
  new_turn_id = none;
  causal_message_id = none;
  redispatch_generation = none;
  superseded_runs = none;
  grace_turns = none;
  grace_remaining = none;
}

unfoldable pub normalize_patch : Patch → Patch
normalize_patch p = record p {
  old_thread_id = trim_some p.old_thread_id;
  new_thread_id = trim_some p.new_thread_id;
  new_turn_id = trim_some p.new_turn_id;
  causal_message_id = trim_some p.causal_message_id;
}

-- `{ ...entry, ...patch }`.
unfoldable pub spread : Request → Patch → Request
spread e p = record e {
  old_thread_id = or_else p.old_thread_id e.old_thread_id;
  new_thread_id = or_else p.new_thread_id e.new_thread_id;
  new_turn_id = or_else p.new_turn_id e.new_turn_id;
  causal_message_id = or_else p.causal_message_id e.causal_message_id;
  redispatch_generation = or_else p.redispatch_generation e.redispatch_generation;
  superseded_runs = or_else p.superseded_runs e.superseded_runs;
  grace_turns = first_some p.grace_turns e.grace_turns;
  grace_remaining = or_else p.grace_remaining e.grace_remaining;
}

unfoldable pub normalize_scope : Value → Value → Value → Scope
normalize_scope b w r = record {
  binding_key = normalize_text b;
  workspace_root = normalize_text w;
  runtime_id = or_text (normalize_text r) (codes "codex");
}

-- `!normalized.bindingKey || !normalized.workspaceRoot || !normalized.runtimeId`.
unfoldable pub scope_missing : Scope → Bool
scope_missing s = is_empty s.binding_key || is_empty s.workspace_root || is_empty s.runtime_id

unfoldable pub same_scope : Request → Scope → Bool
same_scope e s =
    eq_text (trim e.scope.binding_key) s.binding_key
    && eq_text (trim e.scope.workspace_root) s.workspace_root
    && eq_text (trim e.scope.runtime_id) s.runtime_id

unfoldable pub is_pending : Status → Bool
is_pending pending = true
is_pending _ = false

unfoldable pub is_applied : Status → Bool
is_applied applied = true
is_applied _ = false

unfoldable pub is_completed : Status → Bool
is_completed completed = true
is_completed _ = false

unfoldable pub is_first_turn_started : Status → Bool
is_first_turn_started first_turn_started = true
is_first_turn_started _ = false

-- `["successor_started", "first_turn_started"].includes(status)`.
unfoldable pub is_successor : Status → Bool
is_successor successor_started = true
is_successor first_turn_started = true
is_successor _ = false

unfoldable pub is_in_flight : Status → Bool
is_in_flight applied = true
is_in_flight s = is_successor s

unfoldable pub is_same_pending_scope : Request → Scope → Bool
is_same_pending_scope e s = is_pending e.status && same_scope e s

unfoldable pub is_same_completed_scope : Request → Scope → Bool
is_same_completed_scope e s = is_completed e.status && same_scope e s

unfoldable pub pending_request_matches_current_thread : Request → Text → Bool
pending_request_matches_current_thread e current =
    is_empty (trim current)
    || is_empty (trim e.old_thread_id)
    || eq_text (trim current) (trim e.old_thread_id)

unfoldable pub normalize_superseded_run : Run → ℕ → Run
normalize_superseded_run r now = record {
  thread_id = trim r.thread_id;
  turn_id = trim r.turn_id;
  causal_message_id = trim r.causal_message_id;
  redispatch_generation = r.redispatch_generation;
  superseded_at = some (or_else r.superseded_at now);
}

unfoldable pub same_run : Run → Run → Bool
same_run r next = eq_text (trim r.thread_id) next.thread_id && eq_text (trim r.turn_id) next.turn_id

unfoldable pub merge_superseded_runs : List Run → Run → ℕ → List Run
merge_superseded_runs existing run now =
    let next = normalize_superseded_run run now in
    if is_empty next.thread_id
    then last_n 4 existing
    else last_n 4 (keep (λ r. not (same_run r next)) existing ++ next ∷ [])

abbrev pub default_post_refresh_grace_turns : ℕ
default_post_refresh_grace_turns = 4

unfoldable pub resolve_grace_turns : Patch → ℕ
resolve_grace_turns p =
    or_else p.grace_remaining (or_else p.grace_turns default_post_refresh_grace_turns)

unfoldable pub resolve_completion_grace_turns : Request → ℕ
resolve_completion_grace_turns e = or_else e.grace_turns default_post_refresh_grace_turns
