-- ===== src/Examples/Intervals.antt =====
-- src/core/checkin-config-store.js at concrete ranges.
use mossbridge.Prelude.{codes, ◌≡◌, refl, some, none, trim, is_space}
use mossbridge.Js.{str, normalize_text}
use mossbridge.Checkin.{
  RawRange, get_range, set_range, parse_checkin_range_minutes, match_range, match_char,
}
use mossbridge.Checkin.Bounds.{get_range-set_range}

abbrev nothing : RawRange
nothing = record { min_interval_ms = none; max_interval_ms = none }

abbrev reversed : RawRange
reversed = record { min_interval_ms = some 9; max_interval_ms = some 3 }

get_range-set_range_example :
    get_range (set_range nothing reversed).0 nothing ≡ (set_range nothing reversed).1
get_range-set_range_example = get_range-set_range nothing reversed nothing

parses : parse_checkin_range_minutes (str (codes " 5 - 25 ")) ≡ some (5, 25)
unfolding parse_checkin_range_minutes match_range match_char normalize_text trim is_space
parses = refl
