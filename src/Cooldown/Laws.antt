-- ===== src/Cooldown/Laws.antt =====
-- What the store answers after a cooldown is set.
use mossbridge.Prelude.{
  ℕ, zero, suc, ◌-◌, ◌<◌, ◌≡◌, refl, ap, ◌∙◌, inl, inr, leb, Bool, true, false, Option, none, some,
  arith, Bool-cases, if◌then◌else◌, Text, eq_text, Dict, get, put, get-put,
}
use mossbridge.Cooldown.{
  Cooldown, Active, Request, normalize_runtime_id, recorded, set_until, set_cooldown, saved_reset,
  active_until, active_record, get_active_cooldown,
}

-- What the store answers, without what it writes.
abbrev pub active : Dict Cooldown → Text → ℕ → Option Active
active file runtime now = (get_active_cooldown file runtime now).1

active_record_kept :
    (file file' : Dict Cooldown) (id : Text) (now : ℕ) (c : Option Cooldown)
    → (active_record file id now c).1 ≡ (active_record file' id now c).1
active_record_kept file file' id now none = refl
active_record_kept file file' id now (some c) = same (saved_reset c)
  where
    same : (o : Option ℕ) → (active_until file id c now o).1 ≡ (active_until file' id c now o).1
    same none = refl
    same (some reset) = elim (Bool-cases (leb reset now)) [ inl e ↦ rw e refl | inr e ↦ rw e refl ]

-- The record of a request until a later time.
active_recorded :
    (file : Dict Cooldown) (id : Text) (r : Request) (reset now later : ℕ)
    → now < reset
    → (active_record file id later (some (recorded r reset now))).1 ≡ (
        if leb reset later
        then none
        else some (record {
          cooldown = recorded r reset now;
          reset_at_ms = reset;
          remaining_ms = reset - later;
        }))
unfolding recorded
active_recorded file id r zero now later h = absurd (omega (arith, h))
active_recorded file id r (suc k) now later h = elim (Bool-cases (leb (suc k) later)) [
  | inl e ↦ rw e refl
  | inr e ↦ rw e refl
]

set_cooldown-put :
    (file : Dict Cooldown) (r : Request) (reset now : ℕ)
    → r.reset_at_ms ≡ some reset
    → now < reset
    → (set_cooldown file r now).0
      ≡ put (normalize_runtime_id r.runtime_id) (recorded r reset now) file
unfolding set_cooldown recorded
set_cooldown-put file r reset now h lt = ap (λ o. (set_until file r now o).0) h ∙ written
  where
    not_yet : leb reset now ≡ false
    not_yet = ground (arith, lt)

    new : Dict Cooldown
    new = put (normalize_runtime_id r.runtime_id) (recorded r reset now) file

    written : (set_until file r now (some reset)).0 ≡ new
    written = rw not_yet refl

-- After a cooldown with a reset in the future is set, its runtime has it at any time before the
-- reset, with the time that remains, and none from the reset on; every other runtime has what it
-- had.
pub get_active-set_cooldown :
    (file : Dict Cooldown) (r : Request) (reset now later : ℕ) (runtime : Text)
    → r.reset_at_ms ≡ some reset
    → now < reset
    → active (set_cooldown file r now).0 runtime later ≡ (
        if eq_text (normalize_runtime_id r.runtime_id) (normalize_runtime_id runtime)
        then if leb reset later
          then none
          else some (record {
            cooldown = recorded r reset now;
            reset_at_ms = reset;
            remaining_ms = reset - later;
          })
        else active file runtime later)
unfolding get_active_cooldown
get_active-set_cooldown file r reset now later runtime h lt =
    ap (λ (f : Dict Cooldown). active f runtime later) (set_cooldown-put file r reset now h lt)
    ∙ ap (λ o. (active_record new id later o).1) (get-put id0 id (recorded r reset now) file)
    ∙ by_id (eq_text id0 id)
  where
    id : Text
    id = normalize_runtime_id runtime

    id0 : Text
    id0 = normalize_runtime_id r.runtime_id

    new : Dict Cooldown
    new = put id0 (recorded r reset now) file

    by_id :
        (b : Bool)
        → (active_record new id later (if b then some (recorded r reset now) else get id file)).1
          ≡ (if b
              then if leb reset later
                then none
                else some (record {
                  cooldown = recorded r reset now;
                  reset_at_ms = reset;
                  remaining_ms = reset - later;
                })
              else active file runtime later)
    by_id true = active_recorded new id r reset now later lt
    by_id false = active_record_kept new file id later (get id file)
