-- ===== src/Checkin.antt =====
-- src/core/checkin-config-store.js. The numbers of a saved range and of the environment are what
-- `Number.parseInt` reads of them, none where it reads nothing or less than 0; the file is the saved
-- range, none where there is no file or it is not an object.
pub mod Bounds
use mossbridge.Prelude.{
  ℕ, ◌*◌, ◌-◌, ◌+◌, ◌==◌, leb, ltb, max, Text, List, [], ◌∷◌, Option, none, some, Bool, true, false,
  ◌&&◌, ◌||◌, if◌then◌else◌, is_space, is_empty, not,
}
use mossbridge.Js.{Value, normalize_text}

abbrev pub default_min_interval_ms : ℕ
default_min_interval_ms = 5 * 60000

abbrev pub default_max_interval_ms : ℕ
default_max_interval_ms = 25 * 60000

pub record RawRange : Type 0 where
  pub min_interval_ms : Option ℕ
  pub max_interval_ms : Option ℕ

pub record Range : Type 0 where
  pub min_interval_ms : ℕ
  pub max_interval_ms : ℕ

unfoldable pub normalize_positive_integer : Option ℕ → ℕ
normalize_positive_integer none = 0
normalize_positive_integer (some n) = n

-- The value that was read, if it is positive.
unfoldable pub read_interval_ms : Option ℕ → ℕ → ℕ
read_interval_ms none fallback = fallback
read_interval_ms (some n) fallback = if n == 0 then fallback else n

unfoldable pub normalize_persisted_range : RawRange → Option Range
normalize_persisted_range r =
    let low = normalize_positive_integer r.min_interval_ms in
    let high = normalize_positive_integer r.max_interval_ms in
    if low == 0 || high == 0
    then none
    else some (record { min_interval_ms = low; max_interval_ms = max low high })

-- `env` has the two variables of the environment.
unfoldable pub resolve_default_checkin_range : RawRange → Range
resolve_default_checkin_range env =
    let low = read_interval_ms env.min_interval_ms default_min_interval_ms in
    record {
      min_interval_ms = low;
      max_interval_ms = max low (read_interval_ms env.max_interval_ms default_max_interval_ms);
    }

unfoldable pub saved : Range → RawRange
saved r = record {
  min_interval_ms = some r.min_interval_ms;
  max_interval_ms = some r.max_interval_ms;
}

abbrev pub or_range : Option Range → Range → Range
or_range none r = r
or_range (some s) r = s

-- The fallback, or the default if it is not a range.
unfoldable pub fallback_range : RawRange → Range
fallback_range fallback = or_range (normalize_persisted_range fallback) (record {
  min_interval_ms = default_min_interval_ms;
  max_interval_ms = default_max_interval_ms;
})

unfoldable pub normalize_interval_range : Option RawRange → RawRange → Range
unfolding fallback_range
normalize_interval_range none fallback = fallback_range fallback
normalize_interval_range (some value) fallback =
    or_range (normalize_persisted_range value) (fallback_range fallback)

unfoldable pub kept : Option Range → Option RawRange
kept none = none
kept (some r) = some (saved r)

-- `load`: the state is a range, or the empty object, which has none of its fields.
unfoldable pub load : Option RawRange → Option RawRange
unfolding kept
load none = none
load (some value) = kept (normalize_persisted_range value)

unfoldable pub get_range : Option RawRange → RawRange → Range
get_range file fallback = normalize_interval_range (load file) fallback

-- The new file, and the range that is returned.
unfoldable pub set_range : RawRange → RawRange → Option RawRange × Range
set_range env range =
    let normalized =
      normalize_interval_range (some range) (saved (resolve_default_checkin_range env)) in
    (some (saved normalized), normalized)

abbrev pub is_digit : ℕ → Bool
is_digit c = leb 48 c && leb c 57

-- The match of `^(\d+)\s*-\s*(\d+)$`, one character at a time: where it is, and the two numbers.
pub data Place : Type 0 where
  before_low in_low before_dash before_high in_high failed : Place

pub record Matching : Type 0 where
  pub place : Place
  pub low : ℕ
  pub high : ℕ

abbrev pub at_place : Matching → Place → Matching
at_place m p = record m { place = p }

abbrev pub add_low : Matching → ℕ → Matching
add_low m c = record m { place = in_low; low = m.low * 10 + (c - 48) }

abbrev pub add_high : Matching → ℕ → Matching
add_high m c = record m { place = in_high; high = m.high * 10 + (c - 48) }

abbrev pub after_low : Matching → ℕ → Matching
after_low m c =
    if is_space c
    then at_place m before_dash
    else if c == 45
    then at_place m before_high
    else at_place m failed

unfoldable pub match_char : Place → Matching → ℕ → Matching
match_char before_low m c = if is_digit c then add_low m c else at_place m failed
match_char in_low m c = if is_digit c then add_low m c else after_low m c
match_char before_dash m c = after_low m c
match_char before_high m c =
    if is_digit c then add_high m c else if is_space c then m else at_place m failed
match_char in_high m c = if is_digit c then add_high m c else at_place m failed
match_char failed m c = m

unfoldable pub match_range : Matching → Text → Matching
match_range m [] = m
match_range m (c ∷ t) = match_range (match_char m.place m c) t

abbrev pub is_matched : Place → Bool
is_matched in_high = true
is_matched _ = false

-- The minutes of a range such as `5-25`.
unfoldable pub parse_checkin_range_minutes : Value → Option (ℕ × ℕ)
parse_checkin_range_minutes input =
    let m = match_range (record { place = before_low; low = 0; high = 0 }) (normalize_text input) in
    if not (is_matched m.place) || m.low == 0 || m.high == 0 || ltb m.high m.low
    then none
    else some (m.low, m.high)
