-- ===== src/Cooldown/Clock.antt =====
-- src/core/runtime-cooldown-store.js: reading the time at which a limit of the runtime resets. What the
-- regular expressions catch is a parameter, with the numbers read. Years are from 1970 on.
use mossbridge.Prelude.{
  not, ℕ, ◌+◌, ◌-◌, ◌*◌, ◌/◌, leb, ltb, ◌==◌, Bool, ◌&&◌, ◌||◌, Option, none, some, [], ◌∷◌, Text,
  eq_text, trim, codes, take, Dict, get, if◌then◌else◌, or_else, is_some,
}

-- The groups of the three expressions. A missing year or minute is none, a missing half of the day
-- empty.
pub record NamedMatch : Type 0 where
  pub month_name : Text
  pub day : ℕ
  pub year : Option ℕ
  pub hour : ℕ
  pub minute : Option ℕ
  pub meridiem : Text

pub record NumericMatch : Type 0 where
  pub month : ℕ
  pub day : ℕ
  pub year : Option ℕ
  pub hour : ℕ
  pub minute : Option ℕ
  pub meridiem : Text

pub record ClockMatch : Type 0 where
  pub hour : ℕ
  pub minute : Option ℕ
  pub meridiem : Text

pub record Matches : Type 0 where
  pub named : Text → Option NamedMatch
  pub numeric : Text → Option NumericMatch
  pub clock : Text → Option ClockMatch
  pub lower : Text → Text

pub record Clock : Type 0 where
  pub hour : ℕ
  pub minute : ℕ

pub record MonthDay : Type 0 where
  pub month : ℕ
  pub day : ℕ
  pub year : Option ℕ

-- A clock time, with a date if the text has one.
pub record Reset : Type 0 where
  pub clock : Clock
  pub date : Option MonthDay

pub record Date : Type 0 where
  pub year : ℕ
  pub month : ℕ
  pub day : ℕ

abbrev pub in_half : Text → ℕ → ℕ
in_half meridiem hour =
    if eq_text meridiem (codes "am")
    then if hour == 12 then 0 else hour
    else if eq_text meridiem (codes "pm")
    then if hour == 12 then 12 else hour + 12
    else hour

abbrev pub months : Dict ℕ
months =
    (codes "jan", 1)
    ∷ (codes "feb", 2)
    ∷ (codes "mar", 3)
    ∷ (codes "apr", 4)
    ∷ (codes "may", 5)
    ∷ (codes "jun", 6)
    ∷ (codes "jul", 7)
    ∷ (codes "aug", 8)
    ∷ (codes "sep", 9)
    ∷ (codes "oct", 10)
    ∷ (codes "nov", 11)
    ∷ (codes "dec", 12)
    ∷ []

unfoldable pub is_valid_month_day : ℕ → ℕ → Bool
is_valid_month_day month day = leb 1 month && leb month 12 && leb 1 day && leb day 31

unfoldable pub normalize_year : ℕ → ℕ
normalize_year year = if ltb year 100 then 2000 + year else year

abbrev pub map_year : Option ℕ → Option ℕ
map_year none = none
map_year (some y) = some (normalize_year y)

module _ (m : Matches) where
  unfoldable pub normalize_clock_parts : ℕ → Option ℕ → Text → Option Clock
  normalize_clock_parts hour minute meridiem =
      let minutes = or_else minute 0 in
      let hours = in_half (m.lower (trim meridiem)) hour in
      if ltb 59 minutes || ltb 23 hours
      then none
      else some (record { hour = hours; minute = minutes })

  unfoldable pub month_name_to_number : Text → Option ℕ
  month_name_to_number name = get (take 3 (m.lower (trim name))) months

  abbrev pub dated : Option Clock → Option ℕ → ℕ → Option ℕ → Option Reset
  dated (some c) (some month) day year =
      if is_valid_month_day month day
      then some
          (record { clock = c; date = some (record { month = month; day = day; year = year }) })
      else none
  dated (some c) none day year = none
  dated none month day year = none

  abbrev pub from_named : Option NamedMatch → Option Reset
  from_named none = none
  from_named (some g) =
      dated (normalize_clock_parts g.hour g.minute g.meridiem) (month_name_to_number g.month_name)
        g.day g.year

  abbrev pub from_numeric : Option NumericMatch → Option Reset
  from_numeric none = none
  from_numeric (some g) =
      dated (normalize_clock_parts g.hour g.minute g.meridiem) (some g.month) g.day
        (map_year g.year)

  abbrev pub or_reset : Option Reset → Option Reset → Option Reset
  or_reset none r = r
  or_reset (some x) r = some x

  unfoldable pub parse_reset_date_time_text : Text → Option Reset
  parse_reset_date_time_text text =
      or_reset (from_named (m.named (trim text))) (from_numeric (m.numeric (trim text)))

  abbrev pub undated : Option Clock → Option Reset
  undated none = none
  undated (some c) = some (record { clock = c; date = none })

  abbrev pub from_clock : Option ClockMatch → Option Reset
  from_clock none = none
  from_clock (some g) = undated (normalize_clock_parts g.hour g.minute g.meridiem)

  abbrev pub unless_dated : Option Reset → Option Reset → Option Reset
  unless_dated none r = r
  unless_dated (some x) r = none

  unfoldable pub parse_reset_clock_text : Text → Option Reset
  parse_reset_clock_text text =
      unless_dated (parse_reset_date_time_text (trim text)) (from_clock (m.clock (trim text)))

-- The days from 1 March of year 0 to the first of a month, in the Gregorian calendar: the year starts in
-- March, so that February, whose length changes, is its last month.
abbrev pub march_days : ℕ → ℕ → ℕ
march_days year month = 365 * year + year / 4 - year / 100 + year / 400 + (153 * month + 2) / 5

abbrev pub days_to_month : ℕ → ℕ → ℕ
days_to_month year month =
    if ltb month 3 then march_days (year - 1) (month + 9) else march_days year (month - 3)

-- `Date.UTC(year, month - 1, day, hour - 8, minute)`: the days since 1 January 1970, and the time.
unfoldable pub utc_ms : ℕ → ℕ → ℕ → Clock → ℕ
utc_ms year month day c =
    (days_to_month year month + day - 1 - 719468) * 86400000
    + c.hour * 3600000
    + c.minute * 60000
    - 28800000

abbrev pub grace_ms : ℕ
grace_ms = 120000

abbrev pub day_ms : ℕ
day_ms = 86400000

abbrev pub hour_ms : ℕ
hour_ms = 3600000

-- A time of the day with no date is the next one; a date with no year is of this year, or the next.
abbrev pub reset_on : Date → ℕ → Clock → Option MonthDay → ℕ
reset_on today now c none =
    let at = utc_ms today.year today.month today.day c in
    if leb (at + grace_ms) now then at + day_ms + grace_ms else at + grace_ms
reset_on today now c (some d) =
    let at = utc_ms (or_else d.year today.year) d.month d.day c in
    let next = utc_ms (today.year + 1) d.month d.day c in
    if not (is_some d.year) && leb (at + grace_ms) now then next + grace_ms else at + grace_ms

-- `today` is the date in Shanghai at `now`.
unfoldable pub reset_ms : Date → ℕ → Reset → ℕ
unfolding utc_ms
reset_ms today now r = reset_on today now r.clock r.date

abbrev pub reset_or : Date → ℕ → Option Reset → ℕ
reset_or today now none = now + hour_ms
reset_or today now (some r) = reset_ms today now r

-- `shanghai` is `getShanghaiDateParts`.
unfoldable pub resolve_capacity_reset_at_ms : Matches → (ℕ → Date) → Text → ℕ → ℕ
unfolding parse_reset_date_time_text parse_reset_clock_text reset_ms
resolve_capacity_reset_at_ms m shanghai text now =
    reset_or (shanghai now) now
      (or_reset m (parse_reset_date_time_text m text) (parse_reset_clock_text m text))
