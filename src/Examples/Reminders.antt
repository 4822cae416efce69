-- ===== src/Examples/Reminders.antt =====
-- src/adapters/channel/weixin/reminder-queue-store.js with one reminder.
use mossbridge.Prelude.{
  ℕ, Text, codes, ◌≡◌, refl, List, [], ◌∷◌, ◌++◌, some, All, trim, is_empty, or_text, sort_by, ◌≤◌,
  ◌<◌,
}
use mossbridge.Js.{str, other, normalize_text}
use mossbridge.Queues.Reminder.{
  RawReminder, Reminder, le_reminder, normalized, is_invalid, normalize_reminder, enqueue, list_due,
  list_pending,
}
use mossbridge.Queues.Reminder.Laws.{IsIso, IsHeld, enqueue-Holds, list_due-list_pending}

abbrev iso : ℕ → Text
iso now = codes "2026-01-01T00:00:00.000Z"

iso-IsIso : IsIso iso
unfolding trim is_empty
iso-IsIso = record { named = λ n. refl; trimmed = λ n. refl }

abbrev raw : RawReminder
raw = record {
  id = str (codes "r1");
  account_id = str (codes "a");
  sender_id = str (codes "s");
  context_token = str (codes "c");
  text = str (codes " tea ");
  due_at_ms = some 10;
  created_at = other;
}

nothing_saved : IsHeld iso iso-IsIso [] []
nothing_saved = record { written = refl; normal = tt; sorted = tt }

accepted : normalize_reminder iso 5 raw ≡ some (normalized iso 5 raw 10)
unfolding normalize_reminder normalized is_invalid normalize_text trim is_empty or_text
accepted = refl

one_added :
    ((enqueue iso 5 [] raw).1 ≡ some (normalized iso 5 raw 10))
    × IsHeld iso iso-IsIso
        (enqueue iso 5 [] raw).0
        (sort_by le_reminder ([] ++ normalized iso 5 raw 10 ∷ []))
one_added = enqueue-Holds iso iso-IsIso 5 [] [] raw (normalized iso 5 raw 10) nothing_saved accepted

abbrev file : List RawReminder
file = (enqueue iso 5 [] raw).0

abbrev one : List Reminder
one = sort_by le_reminder ([] ++ normalized iso 5 raw 10 ∷ [])

list_due-list_pending_example :
    ((list_due iso 6 file 9).1 ++ list_pending iso 7 (list_due iso 6 file 9).0
      ≡ list_pending iso 6 file)
    × All (λ r. r.due_at_ms ≤ 9) (list_due iso 6 file 9).1
    × All (λ r. 9 < r.due_at_ms) (list_pending iso 7 (list_due iso 6 file 9).0)
list_due-list_pending_example = list_due-list_pending iso iso-IsIso 6 7 9 file one one_added.1
