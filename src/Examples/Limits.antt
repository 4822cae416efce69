-- ===== src/Examples/Limits.antt =====
-- src/core/runtime-cooldown-store.js with a limit that resets at 3pm, on 4 October 2024.
use mossbridge.Prelude.{
  ℕ, ◌-◌, ◌≤◌, ◌<◌, ◌≡◌, refl, none, some, [], arith, leb, codes, eq_text, if◌then◌else◌,
}
use mossbridge.Cooldown.{Request, normalize_runtime_id, recorded, set_cooldown}
use mossbridge.Cooldown.Clock.{
  Matches, Date, parse_reset_date_time_text, resolve_capacity_reset_at_ms,
}
use mossbridge.Cooldown.Laws.{active, get_active-set_cooldown}
use mossbridge.Cooldown.Future.{IsToday, resolve_capacity_reset_at_ms_soon}

abbrev request : Request
request = record {
  runtime_id = codes "codex";
  reason = [];
  reset_at_ms = some 500;
  source = [];
  thread_id = [];
  message_preview = [];
}

get_active-set_cooldown_example : active (set_cooldown [] request 100).0 (codes "codex") 200 ≡ (
    if eq_text (normalize_runtime_id (codes "codex")) (normalize_runtime_id (codes "codex"))
    then if leb 500 200
      then none
      else some (record {
        cooldown = recorded request 500 100;
        reset_at_ms = 500;
        remaining_ms = 500 - 200;
      })
    else active [] (codes "codex") 200)
get_active-set_cooldown_example =
    get_active-set_cooldown [] request 500 100 200 (codes "codex") refl (omega arith)

abbrev three_pm : Matches
three_pm = record {
  named = λ t. none;
  numeric = λ t. none;
  clock = λ t. some (record { hour = 3; minute = none; meridiem = codes "pm" });
  lower = λ t. t;
}

abbrev shanghai : ℕ → Date
shanghai now = record { year = 2024; month = 10; day = 4 }

october : IsToday (shanghai 1728000000000) 1728000000000
october = record { begun = omega arith; not_over = omega arith }

no_date : parse_reset_date_time_text three_pm (codes "resets 3pm") ≡ none
unfolding parse_reset_date_time_text
no_date = refl

resolve_capacity_reset_at_ms_soon_example :
    let reset = resolve_capacity_reset_at_ms three_pm shanghai (codes "resets 3pm") 1728000000000 in
    (1728000000000 < reset) × (reset ≤ 1728086520000)
resolve_capacity_reset_at_ms_soon_example =
    resolve_capacity_reset_at_ms_soon three_pm shanghai (codes "resets 3pm") 1728000000000 october
      no_date
