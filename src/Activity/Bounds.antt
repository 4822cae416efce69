-- ===== src/Activity/Bounds.antt =====
-- What is kept of the events, and what the heat of a conversation says.
use mossbridge.Prelude.{
  ℕ, ◌+◌, ◌≤◌, List, [], ◌∷◌, ◌++◌, Bool, true, keep, last_n, length, length-keep, length-last_n,
  All, All-drop, ◌≡◌, arith,
}
use mossbridge.Queues.Shape.{All-keep_if}
use mossbridge.Activity.{
  Activity, Event, Role, is_within, at_least_one, prune_activity_events, record_activity_event,
  is_user, is_assistant, get_conversation_heat, hot_activity_window_ms, hot_activity_recent_ms,
  hot_activity_min_events,
}

-- After an event is recorded at most 200 events are kept, and none of them is older than forty
-- minutes.
pub record_activity_event-bounds :
    (a : Activity) (role : Role) (now : ℕ)
    → let events = (record_activity_event a role now).recent_activity_events in
      (length events ≤ 200) × All (λ e. now ≤ e.at + 2400000) events
unfolding record_activity_event prune_activity_events at_least_one
record_activity_event-bounds a role now = (
  length-last_n 200
      (keep within (a.recent_activity_events ++ record { role = role; at = now } ∷ [])),
  All-drop (λ e. now ≤ e.at + 2400000) _
      (keep within (a.recent_activity_events ++ record { role = role; at = now } ∷ []))
      (All-keep_if (λ e. now ≤ e.at + 2400000) within
        (a.recent_activity_events ++ record { role = role; at = now } ∷ []) recent),
)
  where
    within : Event → Bool
    within = is_within now 2400000

    recent : (e : Event) → within e ≡ true → now ≤ e.at + 2400000
    recent e h = unfold is_within in ground arith

two_roles :
    (events : List Event)
    → length (keep is_user events) + length (keep is_assistant events) ≡ length events
two_roles [] = omega arith
two_roles (e ∷ events) = ground (arith, two_roles events)

-- If a conversation is hot, its events in the window, the user's and the assistant's together, are
-- at least the minimum asked for and at most 200, and its last activity is within the recent
-- window.
pub get_conversation_heat-bounds :
    (a : Activity) (now window recent_window min_events : ℕ)
    → (get_conversation_heat a now window recent_window min_events).1.hot ≡ true
    → let heat = (get_conversation_heat a now window recent_window min_events).1 in
      (at_least_one min_events hot_activity_min_events
        ≤ heat.user_event_count + heat.assistant_event_count)
      × (heat.user_event_count + heat.assistant_event_count ≤ 200)
      × (now ≤ heat.last_activity_at + at_least_one recent_window hot_activity_recent_ms)
unfolding get_conversation_heat prune_activity_events
get_conversation_heat-bounds a now window recent_window min_events h =
    let w = at_least_one window hot_activity_window_ms in
    let within = is_within now (at_least_one w hot_activity_window_ms) in
    let kept = last_n 200 (keep within a.recent_activity_events) in
    let both = two_roles (keep (is_within now w) kept) in
    (
      ground (arith, h, both),
      omega (
        arith,
        both,
        length-keep (is_within now w) kept,
        length-last_n 200 (keep within a.recent_activity_events),
      ),
      ground (arith, h),
    )
