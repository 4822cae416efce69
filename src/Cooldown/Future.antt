-- ===== src/Cooldown/Future.antt =====
-- A limit that names a time of day resets in the future, within a day and the grace.
use mossbridge.Prelude.{
  ℕ, ◌+◌, ◌-◌, ◌*◌, ◌≤◌, ◌<◌, ◌≡◌, refl, sym, subst, inl, inr, leb, ltb, leb→le, ◌||◌, Option, none,
  some, arith, Bool-cases, if◌then◌else◌, Text, trim, or_else,
}
use mossbridge.Cooldown.Clock.{
  reset_on, reset_on, Matches, ClockMatch, Clock, Reset, Date, normalize_clock_parts, in_half,
  undated, from_clock, unless_dated, or_reset, parse_reset_date_time_text, parse_reset_clock_text,
  days_to_month, utc_ms, reset_ms, reset_or, resolve_capacity_reset_at_ms,
}

-- The start of a date in Shanghai, eight hours before the one in UTC, which is at this time.
abbrev pub start_ms : Date → ℕ
start_ms d = (days_to_month d.year d.month + d.day - 1 - 719468) * 86400000

-- It is that date in Shanghai at `now`.
pub record IsToday (today : Date) (now : ℕ) : Type 0 where
  pub begun : start_ms today ≤ now + 28800000
  pub not_over : now + 28800000 < start_ms today + 86400000

record IsClock (c : Clock) : Type 0 where
  hour : c.hour ≤ 23
  minute : c.minute ≤ 59

-- A time that was read has no date and is one of a clock.
abbrev IsUndated : Option Reset → Type 0
IsUndated none = Unit
IsUndated (some r) = (r.date ≡ none) × IsClock r.clock

clock_parts-IsUndated :
    (m : Matches) (hour : ℕ) (minute : Option ℕ) (half : Text)
    → IsUndated (undated m (normalize_clock_parts m hour minute half))
unfolding normalize_clock_parts
clock_parts-IsUndated m hour minute half =
    elim (Bool-cases (ltb 59 (or_else minute 0) || ltb 23 (in_half (m.lower (trim half)) hour))) [
      | inl e ↦ rw e tt
      | inr e ↦ rw e (refl, record { hour = ground (arith, e); minute = ground (arith, e) })
    ]

parse_clock-IsUndated : (m : Matches) (text : Text) → IsUndated (parse_reset_clock_text m text)
unfolding parse_reset_clock_text
parse_clock-IsUndated m text =
    unless (parse_reset_date_time_text m (trim text)) (m.clock (trim text))
  where
    unless :
        (r : Option Reset) (g : Option ClockMatch) → IsUndated (unless_dated m r (from_clock m g))
    unless (some r) g = tt
    unless none none = tt
    unless none (some g) = clock_parts-IsUndated m g.hour g.minute g.meridiem

-- The next time of the day h:m after `now`, on a day that starts at `start` eight hours behind.
next_time :
    (start h m now : ℕ)
    → h ≤ 23
    → m ≤ 59
    → start ≤ now + 28800000
    → now + 28800000 < start + 86400000
    → let at = start + h * 3600000 + m * 60000 - 28800000 in
      let reset = if leb (at + 120000) now then at + 86400000 + 120000 else at + 120000 in
      (now < reset) × (reset ≤ now + 86520000)
next_time start h m now hh hm begun over =
    elim (Bool-cases (leb (start + h * 3600000 + m * 60000 - 28800000 + 120000) now)) [
      | inl e ↦ rw e (
        omega (arith, over),
        omega (arith, leb→le (start + h * 3600000 + m * 60000 - 28800000 + 120000) now e),
      )
      | inr e ↦ rw e (ground (arith, e), omega (arith, begun, hh, hm))
    ]

reset_soon :
    (today : Date) (now : ℕ) (r : Option Reset)
    → IsToday today now
    → IsUndated r
    → (now < reset_or today now r) × (reset_or today now r ≤ now + 86520000)
unfolding reset_ms utc_ms
reset_soon today now none t u = (omega arith, omega arith)
reset_soon today now (some r) t u =
    subst
      (λ d. (now < reset_on today now r.clock d) × (reset_on today now r.clock d ≤ now + 86520000))
      (sym u.0)
      (next_time (start_ms today) r.clock.hour r.clock.minute now u.1.hour u.1.minute t.begun
        t.not_over)

-- If a text names no date, and the date in Shanghai is that of eight hours after the time in UTC,
-- the reset that is read from it is after now, and at most a day and the grace of two minutes
-- later.
pub resolve_capacity_reset_at_ms_soon :
    (m : Matches) (shanghai : ℕ → Date) (text : Text) (now : ℕ)
    → IsToday (shanghai now) now
    → parse_reset_date_time_text m text ≡ none
    → let reset = resolve_capacity_reset_at_ms m shanghai text now in
      (now < reset) × (reset ≤ now + 86520000)
unfolding resolve_capacity_reset_at_ms
resolve_capacity_reset_at_ms_soon m shanghai text now t h =
    subst
      (λ r.
        let reset = reset_or (shanghai now) now (or_reset m r (parse_reset_clock_text m text)) in
        (now < reset) × (reset ≤ now + 86520000))
      (sym h)
      (reset_soon (shanghai now) now (parse_reset_clock_text m text) t
        (parse_clock-IsUndated m text))
