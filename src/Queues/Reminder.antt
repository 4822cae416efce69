-- ===== src/Queues/Reminder.antt =====
-- src/adapters/channel/weixin/reminder-queue-store.js. `due_at_ms` is what `Number` reads, none where
-- that is not a finite number; times are whole milliseconds.
pub mod Laws
use mossbridge.Prelude.{
  ℕ, List, [], ◌∷◌, Option, none, some, Bool, true, false, leb, Text, keep, or_text, map,
  if◌then◌else◌, is_empty, not, ◌||◌, sort_by, eq_text, ◌++◌, ◌==◌, ltb, length,
}
use mossbridge.Js.{Value, str, normalize_text}
use mossbridge.Queues.Shape.{part}
use mossbridge.Queues.Stored.{load_sorted}

pub record RawReminder : Type 0 where
  pub id : Value
  pub account_id : Value
  pub sender_id : Value
  pub context_token : Value
  pub text : Value
  pub due_at_ms : Option ℕ
  pub created_at : Value

pub record Reminder : Type 0 where
  pub id : Text
  pub account_id : Text
  pub sender_id : Text
  pub context_token : Text
  pub text : Text
  pub due_at_ms : ℕ
  pub created_at : Text

-- A reminder as `JSON.stringify` writes it.
unfoldable pub saved : Reminder → RawReminder
saved r = record {
  id = str r.id;
  account_id = str r.account_id;
  sender_id = str r.sender_id;
  context_token = str r.context_token;
  text = str r.text;
  due_at_ms = some r.due_at_ms;
  created_at = str r.created_at;
}

unfoldable pub le_reminder : Reminder → Reminder → Bool
le_reminder a b = leb a.due_at_ms b.due_at_ms

-- `iso` is `toISOString` of a time.
module _ (iso : ℕ → Text) where
  unfoldable pub normalized : ℕ → RawReminder → ℕ → Reminder
  normalized now r due = record {
    id = normalize_text r.id;
    account_id = normalize_text r.account_id;
    sender_id = normalize_text r.sender_id;
    context_token = normalize_text r.context_token;
    text = normalize_text r.text;
    due_at_ms = due;
    created_at = or_text (normalize_text r.created_at) (iso now);
  }

  -- The fields without which a reminder is refused.
  unfoldable pub is_invalid : Reminder → Bool
  is_invalid r =
      is_empty r.id
      || is_empty r.account_id
      || is_empty r.sender_id
      || is_empty r.context_token
      || is_empty r.text
      || r.due_at_ms == 0

  unfoldable pub with_due : ℕ → RawReminder → Option ℕ → Option Reminder
  with_due now r none = none
  with_due now r (some due) = let n = normalized now r due in if is_invalid n then none else some n

  unfoldable pub normalize_reminder : ℕ → RawReminder → Option Reminder
  unfolding with_due
  normalize_reminder now r = with_due now r r.due_at_ms

  unfoldable pub load : ℕ → List RawReminder → List Reminder
  load = load_sorted normalize_reminder saved le_reminder

  unfoldable pub pushed :
      List RawReminder → List Reminder → Option Reminder → List RawReminder × Option Reminder
  pushed file reminders none = (file, none)
  pushed file reminders (some r) = (map saved (sort_by le_reminder (reminders ++ r ∷ [])), some r)

  -- `none` is the error "invalid reminder".
  unfoldable pub enqueue : ℕ → List RawReminder → RawReminder → List RawReminder × Option Reminder
  unfolding pushed
  enqueue now file r = pushed file (load now file) (normalize_reminder now r)

  -- The file is written only if some entry was taken.
  abbrev pub unless_empty : List Reminder → List Reminder → List RawReminder → List RawReminder
  unless_empty [] pending file = file
  unless_empty (_ ∷ _) pending file = map saved pending

  unfoldable pub list_due : ℕ → List RawReminder → ℕ → List RawReminder × List Reminder
  list_due now file now_ms =
      let (due, pending) = part (λ r. leb r.due_at_ms now_ms) (load now file) in
      (unless_empty due pending file, due)

  abbrev pub first_due : List Reminder → ℕ
  first_due [] = 0
  first_due (r ∷ _) = r.due_at_ms

  unfoldable pub peek_next_due_at_ms : ℕ → List RawReminder → ℕ
  peek_next_due_at_ms now file = first_due (load now file)

  unfoldable pub list_pending : ℕ → List RawReminder → List Reminder
  list_pending now file = load now file

  unfoldable pub cancel : ℕ → List RawReminder → Value → List RawReminder × Bool
  cancel now file reminder_id =
      let id = normalize_text reminder_id in
      let before = load now file in
      let after = keep (λ r. not (eq_text r.id id)) before in
      if is_empty id
      then (file, false)
      else if ltb (length after) (length before)
      then (map saved after, true)
      else (file, false)
