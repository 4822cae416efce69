-- ===== src/Queues/System.antt =====
-- src/core/system-message-queue-store.js. `now` is `Date.now()`; a message's `created_at` is what
-- `Date.parse` reads, none where it reads nothing. Opaque `metadata` is its JSON text.
pub mod Laws
pub mod Dispatcher
pub mod Dispatch
use mossbridge.Prelude.{
  ℕ, ◌+◌, ◌*◌, Text, eq_text, is_empty, or_text, codes, List, [], ◌∷◌, ◌++◌, Option, none, some,
  Bool, true, false, not, ◌||◌, ◌&&◌, if◌then◌else◌, keep, any, map, length, ltb, ◌==◌, sort_by,
  Order,
}
use mossbridge.Js.{Value, str, normalize_text}
use mossbridge.Queues.Shape.{normalize_all, part, by_time}

pub record RawMessage : Type 0 where
  pub id : Value
  pub account_id : Value
  pub sender_id : Value
  pub workspace_root : Value
  pub text : Value
  pub kind : Value
  pub priority : Value
  pub title : Value
  pub metadata : Text
  pub created_at : Option ℕ

pub record Message : Type 0 where
  pub id : Text
  pub account_id : Text
  pub sender_id : Text
  pub workspace_root : Text
  pub text : Text
  pub kind : Text
  pub priority : Text
  pub title : Text
  pub metadata : Text
  pub created_at : ℕ

abbrev pub or_now : Option ℕ → ℕ → ℕ
or_now none now = now
or_now (some t) now = t

-- The fields that `normalizeSystemMessage` returns.
unfoldable pub normalized : ℕ → RawMessage → Message
normalized now r = record {
  id = normalize_text r.id;
  account_id = normalize_text r.account_id;
  sender_id = normalize_text r.sender_id;
  workspace_root = normalize_text r.workspace_root;
  text = normalize_text r.text;
  kind = or_text (normalize_text r.kind) (codes "generic");
  priority = or_text (normalize_text r.priority) (codes "normal");
  title = normalize_text r.title;
  metadata = r.metadata;
  created_at = or_now r.created_at now;
}

unfoldable pub normalize_system_message : ℕ → RawMessage → Option Message
normalize_system_message now r =
    let m = normalized now r in
    if is_empty m.id
      || is_empty m.account_id
      || is_empty m.sender_id
      || is_empty m.workspace_root
      || is_empty m.text
    then none
    else some m

-- A message as `JSON.stringify` writes it.
unfoldable pub saved : Message → RawMessage
saved m = record {
  id = str m.id;
  account_id = str m.account_id;
  sender_id = str m.sender_id;
  workspace_root = str m.workspace_root;
  text = str m.text;
  kind = str m.kind;
  priority = str m.priority;
  title = str m.title;
  metadata = m.metadata;
  created_at = some m.created_at;
}

abbrev pub checkin_opportunity_ttl_ms : ℕ
checkin_opportunity_ttl_ms = 60 * 60000

abbrev pub dreaming_opportunity_ttl_ms : ℕ
dreaming_opportunity_ttl_ms = 6 * 60 * 60000

unfoldable pub is_expired_system_message : ℕ → Message → Bool
is_expired_system_message now m =
    let kind = normalize_text (str m.kind) in
    let dreaming = eq_text kind (codes "dreaming_opportunity") in
    let ttl = if dreaming then dreaming_opportunity_ttl_ms else checkin_opportunity_ttl_ms in
    (eq_text kind (codes "checkin_opportunity") || dreaming) && ltb (m.created_at + ttl) now

abbrev pub File : Type 0
File = List RawMessage

-- `le_id` is `left.localeCompare(right) <= 0` on ids.
module _ (le_id : Text → Text → Bool) where
  unfoldable pub le_message : Message → Message → Bool
  le_message = by_time (λ m. m.created_at) (λ m. m.id) le_id

  abbrev pub save : List Message → File
  save = map saved

  unfoldable pub read_messages : ℕ → File → List Message
  unfolding le_message
  read_messages now file = sort_by le_message (
      keep (λ m. not (is_expired_system_message now m))
        (normalize_all (normalize_system_message now) file))

  -- `load`: the messages, and the file, which is written again if a message had expired.
  unfoldable pub load : ℕ → File → File × List Message
  load now file =
      let messages = read_messages now file in
      if length messages == length (normalize_all (normalize_system_message now) file)
      then (file, messages)
      else (save messages, messages)

  enqueue_normalized : File → List Message → Option Message → File × Option Message
  enqueue_normalized file messages none = (file, none)
  enqueue_normalized file messages (some m) =
      (save (sort_by le_message (messages ++ m ∷ [])), some m)

  -- `none` is the error "invalid system message".
  unfoldable pub enqueue : ℕ → File → RawMessage → File × Option Message
  unfolding enqueue_normalized
  enqueue now file r =
      let (file', messages) = load now file in
      enqueue_normalized file' messages (normalize_system_message now r)

  abbrev pub saved_unless_empty : List Message → List Message → File → File
  saved_unless_empty [] pending file = file
  saved_unless_empty (_ ∷ _) pending file = save pending

  unfoldable pub drain_for_account : ℕ → File → Value → File × List Message
  drain_for_account now file account =
      let a = normalize_text account in
      let (file', messages) = load now file in
      let (drained, pending) = part (λ m. eq_text m.account_id a) messages in
      (saved_unless_empty drained pending file', drained)

  unfoldable pub has_pending_for_account : ℕ → File → Value → File × Bool
  has_pending_for_account now file account =
      let a = normalize_text account in
      let (file', messages) = load now file in (file', any (λ m. eq_text m.account_id a) messages)
