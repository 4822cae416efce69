-- ===== src/ContextUsage.antt =====
-- src/core/runtime-context-usage-store.js: how much of its context a thread uses. The file is the state
-- as it was last saved, none if it is missing or broken. A count of tokens is a natural number, 0 for
-- what `Number` does not make positive; the other fields are one text. `Usage` proves.
pub mod Usage
use mossbridge.Js.{Value, normalize_text}
use mossbridge.Prelude.{
  ℕ, Text, Option, Dict, Bool, last_n, [], some, ◌++◌, ltb, false, List, if◌then◌else◌, is_empty,
  ◌&&◌, ◌∷◌, put, not, none, get, first_some,
}

-- A snapshot as a caller hands it over.
pub record Snapshot : Type 0 where
  pub thread_id : Value
  pub runtime_id : Value
  pub workspace_root : Value
  pub binding_key : Value
  pub current_tokens : ℕ
  pub context_window : ℕ
  pub rest : Text

pub record Context : Type 0 where
  pub thread_id : Text
  pub runtime_id : Text
  pub workspace_root : Text
  pub binding_key : Text
  pub current_tokens : ℕ
  pub context_window : ℕ
  pub rest : Text
  pub updated_at : ℕ

-- The argument of `recordAutoCompact`.
pub record Request : Type 0 where
  pub thread_id : Value
  pub workspace_root : Value
  pub reason : Value
  pub rest : Text

pub record AutoCompact : Type 0 where
  pub thread_id : Text
  pub workspace_root : Text
  pub reason : Text
  pub rest : Text
  pub requested_at : ℕ

pub record Store : Type 0 where
  pub contexts_by_thread_id : Dict Context
  pub latest_context_by_runtime_id : Dict Context
  pub auto_compact_events : List AutoCompact

abbrev pub empty_store : Store
empty_store = record {
  contexts_by_thread_id = [];
  latest_context_by_runtime_id = [];
  auto_compact_events = [];
}

unfoldable pub load : Option Store → Store
load none = empty_store
load (some s) = record s { auto_compact_events = last_n 50 s.auto_compact_events }

unfoldable pub has_positive_context_usage : ℕ → ℕ → Bool
has_positive_context_usage tokens window = ltb 0 tokens && ltb 0 window

-- What is recorded of a snapshot at a time.
unfoldable pub recorded : Snapshot → ℕ → Context
recorded n now = record {
  thread_id = normalize_text n.thread_id;
  runtime_id = normalize_text n.runtime_id;
  workspace_root = normalize_text n.workspace_root;
  binding_key = normalize_text n.binding_key;
  current_tokens = n.current_tokens;
  context_window = n.context_window;
  rest = n.rest;
  updated_at = now;
}

-- The entry under an id, none under the empty one.
abbrev pub entry : Text → Dict Context → Option Context
entry id contexts = if is_empty id then none else get id contexts

-- A context with usage stays when the snapshot has none.
abbrev pub stays : Option Context → Snapshot → Bool
stays none n = false
stays (some c) n =
    has_positive_context_usage c.current_tokens c.context_window
    && not (has_positive_context_usage n.current_tokens n.context_window)

abbrev pub placed : Text → Context → Dict Context → Dict Context
placed id c contexts = if is_empty id then contexts else put id c contexts

abbrev pub stored : Store → Context → Store
stored s c = record s {
  contexts_by_thread_id = placed c.thread_id c s.contexts_by_thread_id;
  latest_context_by_runtime_id = placed c.runtime_id c s.latest_context_by_runtime_id;
}

unfoldable pub record_context : Store → Snapshot → ℕ → Store × Option Context
unfolding recorded
record_context s n now =
    let c = recorded n now in
    let existing = entry c.thread_id s.contexts_by_thread_id in
    if is_empty c.thread_id && is_empty c.runtime_id
    then (s, none)
    else if stays existing n
    then (s, existing)
    else (stored s c, some c)

unfoldable pub get_context : Store → Value → Value → Option Context
get_context s thread runtime =
    first_some (entry (normalize_text thread) s.contexts_by_thread_id)
      (entry (normalize_text runtime) s.latest_context_by_runtime_id)

unfoldable pub get_exact_context : Store → Value → Option Context
get_exact_context s thread = entry (normalize_text thread) s.contexts_by_thread_id

abbrev pub requested : Request → ℕ → AutoCompact
requested e now = record {
  thread_id = normalize_text e.thread_id;
  workspace_root = normalize_text e.workspace_root;
  reason = normalize_text e.reason;
  rest = e.rest;
  requested_at = now;
}

unfoldable pub record_auto_compact : Store → Request → ℕ → Store × AutoCompact
record_auto_compact s e now = (
  record s { auto_compact_events = last_n 50 (s.auto_compact_events ++ requested e now ∷ []) },
  requested e now,
)
