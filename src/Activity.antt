-- ===== src/Activity.antt =====
-- src/core/activity-tracker.js: the times of the last messages, and the events of the last minutes. The
-- age of the last activity, which is only reported, is left out.
pub mod Bounds
use mossbridge.Prelude.{
  ℕ, ◌*◌, ◌+◌, ◌==◌, leb, ltb, max, List, [], ◌∷◌, ◌++◌, Bool, true, false, ◌&&◌, ◌||◌, not,
  if◌then◌else◌, keep, last_n, length,
}

abbrev pub active_window_ms : ℕ
active_window_ms = 5 * 60000

abbrev pub hot_activity_window_ms : ℕ
hot_activity_window_ms = 20 * 60000

abbrev pub hot_activity_recent_ms : ℕ
hot_activity_recent_ms = 12 * 60000

abbrev pub hot_activity_min_events : ℕ
hot_activity_min_events = 6

abbrev pub max_activity_events : ℕ
max_activity_events = 200

pub data Role : Type 0 where
  user assistant : Role

abbrev pub user_role : Role → Bool
user_role user = true
user_role assistant = false

pub record Event : Type 0 where
  pub role : Role
  pub at : ℕ

pub record Activity : Type 0 where
  pub last_user_message_at : ℕ
  pub last_ai_reply_at : ℕ
  pub recent_activity_events : List Event

-- `Math.max(1, Number(value) || fallback)`.
unfoldable pub at_least_one : ℕ → ℕ → ℕ
at_least_one value fallback = max 1 (if value == 0 then fallback else value)

-- `event.at >= now - window`.
unfoldable pub is_within : ℕ → ℕ → Event → Bool
is_within now window e = leb now (e.at + window)

unfoldable pub prune_activity_events : Activity → ℕ → ℕ → Activity
prune_activity_events a now window = record a {
  recent_activity_events =
      last_n max_activity_events (
        keep (is_within now (at_least_one window hot_activity_window_ms)) a.recent_activity_events);
}

unfoldable pub record_activity_event : Activity → Role → ℕ → Activity
record_activity_event a role now =
    prune_activity_events
      (record a {
        recent_activity_events = a.recent_activity_events ++ record { role = role; at = now } ∷ [];
      })
      now (hot_activity_window_ms * 2)

unfoldable pub record_user_message : Activity → ℕ → Activity
record_user_message a now = record_activity_event (record a { last_user_message_at = now }) user now

unfoldable pub record_ai_reply : Activity → ℕ → Activity
record_ai_reply a now = record_activity_event (record a { last_ai_reply_at = now }) assistant now

unfoldable pub has_recent_activity : Activity → ℕ → ℕ → Bool
has_recent_activity a now window =
    ltb now (a.last_user_message_at + window) || ltb now (a.last_ai_reply_at + window)

unfoldable pub get_last_activity_at : Activity → ℕ
get_last_activity_at a = max a.last_user_message_at a.last_ai_reply_at

abbrev pub is_user : Event → Bool
is_user e = user_role e.role

abbrev pub is_assistant : Event → Bool
is_assistant e = not (user_role e.role)

pub record Heat : Type 0 where
  pub hot : Bool
  pub event_count : ℕ
  pub user_event_count : ℕ
  pub assistant_event_count : ℕ
  pub last_activity_at : ℕ

-- The events are pruned, and the result counts those in the window.
unfoldable pub get_conversation_heat : Activity → ℕ → ℕ → ℕ → ℕ → Activity × Heat
get_conversation_heat a now window recent_window min_events =
    let window' = at_least_one window hot_activity_window_ms in
    let recent_window' = at_least_one recent_window hot_activity_recent_ms in
    let min_events' = at_least_one min_events hot_activity_min_events in
    let pruned = prune_activity_events a now window' in
    let events = keep (is_within now window') pruned.recent_activity_events in
    let last = get_last_activity_at a in
    (
      pruned,
      record {
        hot = leb min_events' (length events) && not (last == 0) && leb now (last + recent_window');
        event_count = length events;
        user_event_count = length (keep is_user events);
        assistant_event_count = length (keep is_assistant events);
        last_activity_at = last;
      },
    )
