-- ===== src/Examples/Heat.antt =====
-- src/core/activity-tracker.js with a busy conversation.
use mossbridge.Prelude.{ℕ, ◌+◌, ◌≤◌, ◌≡◌, refl, true, [], ◌∷◌}
use mossbridge.Activity.{
  Activity, Event, Role, get_conversation_heat, at_least_one, hot_activity_min_events,
  hot_activity_recent_ms, is_within, prune_activity_events, get_last_activity_at,
}
use mossbridge.Activity.Bounds.{get_conversation_heat-bounds}

abbrev said : ℕ → Event
said t = record { role = Role.user; at = t }

abbrev busy : Activity
busy = record {
  last_user_message_at = 6;
  last_ai_reply_at = 0;
  recent_activity_events = said 1 ∷ said 2 ∷ said 3 ∷ said 4 ∷ said 5 ∷ said 6 ∷ [];
}

is_hot : (get_conversation_heat busy 7 0 0 0).1.hot ≡ true
unfolding get_conversation_heat prune_activity_events at_least_one is_within get_last_activity_at
is_hot = refl

get_conversation_heat-bounds_example :
    let heat = (get_conversation_heat busy 7 0 0 0).1 in
    (at_least_one 0 hot_activity_min_events ≤ heat.user_event_count + heat.assistant_event_count)
    × (heat.user_event_count + heat.assistant_event_count ≤ 200)
    × (7 ≤ heat.last_activity_at + at_least_one 0 hot_activity_recent_ms)
get_conversation_heat-bounds_example = get_conversation_heat-bounds busy 7 0 0 0 is_hot
