-- ===== src/Refresh/Store/Grace.antt =====
-- src/core/session-refresh-request-store.js. The turns of grace after a refresh.
use mossbridge.Prelude.{
  ℕ, ◌+◌, ◌-◌, Text, eq_text, trim, is_empty, or_text, Option, none, some, Bool, false, ◌&&◌, ◌||◌,
  if◌then◌else◌, Found, split_last, replaced, ltb, ◌==◌, ◌*◌, first_some,
}
use mossbridge.Js.{Value, normalize_text}
use mossbridge.Refresh.Request.{
  Scope, Request, normalize_scope, scope_missing, is_same_completed_scope,
}
use mossbridge.Refresh.Store.Entries.{State}

abbrev pub default_post_refresh_grace_max_age_ms : ℕ
default_post_refresh_grace_max_age_ms = 6 * 60 * 60 * 1000

-- An entry whose grace the thread may use.
unfoldable pub grants_grace : Scope → Text → Request → Bool
grants_grace scope thread e =
    is_same_completed_scope e scope
    && eq_text (trim (or_text e.grace_thread_id e.new_thread_id)) thread

unfoldable pub grace_expired : Request → ℕ → ℕ → Bool
grace_expired e max_age now = elim (first_some e.grace_started_at e.completed_at) [
  | none ↦ false
  | some started ↦ ltb 0 max_age && ltb (started + max_age) now
]

unfoldable pub use_grace : State → Option (Found Request) → ℕ → ℕ → State × Option (Request × ℕ)
use_grace st none max_age now = (st, none)
use_grace st (some f) max_age now =
    if f.entry.grace_remaining == 0
    then (st, none)
    else if grace_expired f.entry max_age now
    then (
      record st {
        requests = replaced f (record f.entry { grace_remaining = 0; grace_expired_at = some now });
      },
      none,
    )
    else let updated = record f.entry {
      grace_remaining = f.entry.grace_remaining - 1;
      grace_last_used_at = some now;
    } in
      (record st { requests = replaced f updated }, some (updated, f.entry.grace_remaining))

-- The result is the entry with its `remainingBefore`; `remainingAfter` is its `grace_remaining`.
unfoldable pub consume_post_refresh_grace :
    State → Value → Value → Value → Value → ℕ → ℕ → State × Option (Request × ℕ)
unfolding use_grace
consume_post_refresh_grace st binding workspace runtime thread max_age now =
    let scope = normalize_scope binding workspace runtime in
    let t = normalize_text thread in
    if scope_missing scope || is_empty t
    then (st, none)
    else use_grace st (split_last (grants_grace scope t) st.requests) max_age now
