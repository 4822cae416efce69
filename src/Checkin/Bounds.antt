-- ===== src/Checkin/Bounds.antt =====
-- Every range that the store returns is in order, and the one that was set is the one that is read.
use mossbridge.Prelude.{
  ◌*◌, ◌==◌, ◌≤◌, ◌<◌, max, Option, none, some, false, ◌||◌, ◌≡◌, refl, inl, inr, Bool-cases, arith,
}
use mossbridge.Checkin.{kept, fallback_range}
use mossbridge.Checkin.{
  RawRange, Range, normalize_positive_integer, normalize_persisted_range,
  resolve_default_checkin_range, saved, or_range, normalize_interval_range, load, get_range,
  set_range, kept,
}

pub record IsRange (r : Range) : Type 0 where
  pub positive : 0 < r.min_interval_ms
  pub ordered : r.min_interval_ms ≤ r.max_interval_ms

-- A range that is accepted is in order; else the other range is taken.
persisted-IsRange :
    (raw : RawRange) (r : Range) → IsRange r → IsRange (or_range (normalize_persisted_range raw) r)
unfolding normalize_persisted_range
persisted-IsRange raw r v =
    elim (Bool-cases (
      normalize_positive_integer raw.min_interval_ms == 0
      || normalize_positive_integer raw.max_interval_ms == 0)) [
        | inl e ↦ rw e v
        | inr e ↦ rw e (record { positive = ground arith; ordered = ground arith })
      ]

fallback-IsRange : (fallback : RawRange) → IsRange (fallback_range fallback)
unfolding fallback_range
fallback-IsRange fallback =
    persisted-IsRange fallback
      (record { min_interval_ms = 5 * 60000; max_interval_ms = 25 * 60000 })
      (record { positive = omega arith; ordered = omega arith })

interval-IsRange :
    (value : Option RawRange) (fallback : RawRange)
    → IsRange (normalize_interval_range value fallback)
unfolding normalize_interval_range
interval-IsRange none fallback = fallback-IsRange fallback
interval-IsRange (some value) fallback =
    persisted-IsRange value (fallback_range fallback) (fallback-IsRange fallback)

-- Whatever the file and the fallback hold, the range that `getRange` returns has a positive minimum
-- that is at most its maximum.
pub get_range-IsRange :
    (file : Option RawRange) (fallback : RawRange) → IsRange (get_range file fallback)
unfolding get_range
get_range-IsRange file fallback = interval-IsRange (load file) fallback

read_back : (r : Range) → IsRange r → normalize_persisted_range (saved r) ≡ some r
unfolding normalize_persisted_range saved normalize_positive_integer
read_back r v =
    let a : (r.min_interval_ms == 0 || r.max_interval_ms == 0) ≡ false =
      ground (arith, v.positive, v.ordered) in
    let b : max r.min_interval_ms r.max_interval_ms ≡ r.max_interval_ms =
      omega (arith, v.ordered) in
    rw (a, b) refl

get_range-saved :
    (r : Range) (fallback : RawRange) → IsRange r → get_range (some (saved r)) fallback ≡ r
unfolding get_range load kept normalize_interval_range
get_range-saved r fallback v = rw (read_back r v, read_back r v) refl

-- After `setRange`, `getRange` returns the range that `setRange` returned, whatever the
-- environment, the fallback and the range that was given.
pub get_range-set_range :
    (env range fallback : RawRange)
    → get_range (set_range env range).0 fallback ≡ (set_range env range).1
unfolding set_range
get_range-set_range env range fallback =
    get_range-saved
      (normalize_interval_range (some range) (saved (resolve_default_checkin_range env))) fallback
      (interval-IsRange (some range) (saved (resolve_default_checkin_range env)))
