-- ===== src/Cooldown.antt =====
-- src/core/runtime-cooldown-store.js: until when a runtime is left alone. The file is the dictionary of
-- its records; one that is missing or broken is empty. `Clock` reads the time of the reset, `Laws` and
-- `Future` prove.
pub mod Clock
pub mod Laws
pub mod Future
use mossbridge.Cooldown.Clock.{Matches, Date, resolve_capacity_reset_at_ms}
use mossbridge.Prelude.{
  ℕ, zero, suc, ◌+◌, ◌-◌, leb, Bool, true, false, Option, none, some, List, [], ◌∷◌, Text, trim,
  or_text, codes, take, Dict, get, put, remove, if◌then◌else◌,
}
use mossbridge.RuntimeNotices.{Patterns, is_runtime_capacity_notice}

-- A record as it is read from the file: the number, if there is one that is not 0, and what
-- `Date.parse` makes of the text.
pub record Cooldown : Type 0 where
  pub runtime_id : Text
  pub reason : Text
  pub reset_at : Option ℕ
  pub reset_at_ms : Option ℕ
  pub source : Text
  pub thread_id : Text
  pub message_preview : Text
  pub recorded_at : ℕ

-- What the store returns: a record with the time that remains.
pub record Active : Type 0 where
  pub cooldown : Cooldown
  pub reset_at_ms : ℕ
  pub remaining_ms : ℕ

-- The arguments of `setCooldown`, as strings.
pub record Request : Type 0 where
  pub runtime_id : Text
  pub reason : Text
  pub reset_at_ms : Option ℕ
  pub source : Text
  pub thread_id : Text
  pub message_preview : Text

unfoldable pub normalize_runtime_id : Text → Text
normalize_runtime_id t = or_text (trim t) (codes "codex")

unfoldable pub recorded : Request → ℕ → ℕ → Cooldown
recorded r reset now = record {
  runtime_id = normalize_runtime_id r.runtime_id;
  reason = or_text (trim r.reason) (codes "runtime_capacity");
  reset_at = some reset;
  reset_at_ms = some reset;
  source = trim r.source;
  thread_id = trim r.thread_id;
  message_preview = trim r.message_preview;
  recorded_at = now;
}

abbrev pub set_until : Dict Cooldown → Request → ℕ → Option ℕ → Dict Cooldown × Option Active
set_until file r now none = (file, none)
set_until file r now (some reset) =
    let c = recorded r reset now in
    if leb reset now then (file, none) else (
      put c.runtime_id c file,
      some (record { cooldown = c; reset_at_ms = reset; remaining_ms = reset - now }),
    )

unfoldable pub set_cooldown : Dict Cooldown → Request → ℕ → Dict Cooldown × Option Active
unfolding recorded
set_cooldown file r now = set_until file r now r.reset_at_ms

-- `Number(record.resetAtMs || Date.parse(record.resetAt))`.
abbrev pub saved_reset : Cooldown → Option ℕ
saved_reset c = elim c.reset_at_ms [
  | none ↦ c.reset_at
  | some n ↦ elim n [ zero ↦ c.reset_at | suc k ↦ some (suc k) ]
]

abbrev pub active_until :
    Dict Cooldown → Text → Cooldown → ℕ → Option ℕ → Dict Cooldown × Option Active
active_until file id c now none = (remove id file, none)
active_until file id c now (some reset) =
    if leb reset now
    then (remove id file, none)
    else (file, some (record { cooldown = c; reset_at_ms = reset; remaining_ms = reset - now }))

abbrev pub active_record :
    Dict Cooldown → Text → ℕ → Option Cooldown → Dict Cooldown × Option Active
active_record file id now none = (file, none)
active_record file id now (some c) = active_until file id c now (saved_reset c)

-- A record whose time is over is taken out.
unfoldable pub get_active_cooldown : Dict Cooldown → Text → ℕ → Dict Cooldown × Option Active
get_active_cooldown file runtime now =
    let id = normalize_runtime_id runtime in active_record file id now (get id file)

abbrev pub cleared : Dict Cooldown → Text → Option Cooldown → Dict Cooldown × Bool
cleared file id none = (file, false)
cleared file id (some c) = (remove id file, true)

unfoldable pub clear : Dict Cooldown → Text → Dict Cooldown × Bool
clear file runtime = let id = normalize_runtime_id runtime in cleared file id (get id file)

-- `shanghai` is `getShanghaiDateParts`, `m` what the expressions catch.
unfoldable pub set_capacity_cooldown :
    Patterns
    → Matches
    → (ℕ → Date)
    → Dict Cooldown
    → Text
    → Text
    → Text
    → Text
    → ℕ
    → Dict Cooldown × Option Active
unfolding set_cooldown
set_capacity_cooldown p m shanghai file runtime text source thread now =
    if is_runtime_capacity_notice p text
    then set_cooldown file
        (record {
          runtime_id = runtime;
          reason = codes "runtime_capacity";
          reset_at_ms = some (resolve_capacity_reset_at_ms m shanghai text now);
          source = source;
          thread_id = thread;
          message_preview = take 240 (trim text);
        })
        now
    else (file, none)
