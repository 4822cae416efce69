-- ===== src/Js.antt =====
-- Values that a caller or a parsed JSON file hands over, as the program's `normalizeText` reads them.
use mossbridge.Prelude.{sym, ◌∙◌, Text, trim, trim-trim, ◌≡◌, refl, []}

pub data Value : Type 0 where
  str : Text → Value
  other : Value

-- `typeof value === "string" ? value.trim() : ""`.
unfoldable pub normalize_text : Value → Text
normalize_text (str t) = trim t
normalize_text other = []

-- Normalizing twice is normalizing once.
pub normalize_text-normalize_text :
    (v : Value) → normalize_text (str (normalize_text v)) ≡ normalize_text v
unfolding normalize_text
normalize_text-normalize_text (str t) = trim-trim t
normalize_text-normalize_text other = unfold trim in refl

pub normalize_str : (t : Text) → normalize_text (str t) ≡ trim t
unfolding normalize_text
normalize_str t = refl

pub trim-normalize_text : (v : Value) → trim (normalize_text v) ≡ normalize_text v
trim-normalize_text v = sym (normalize_str (normalize_text v)) ∙ normalize_text-normalize_text v
