-- ===== src/Queues/Screenshot.antt =====
-- src/core/timeline-screenshot-queue-store.js. A time is what `Date.parse` reads, a number what
-- `parseInt` reads if that is not negative, none otherwise.
pub mod Laws
use mossbridge.Prelude.{
  ℕ, List, [], ◌∷◌, ◌++◌, Option, none, some, Bool, true, false, ◌||◌, not, Text, eq_text, is_empty,
  map, keep, any, if◌then◌else◌, or_else, sort_by, ◌≡◌, refl, inl, inr, Bool-cases, Order, IsSorted,
  All,
}
use mossbridge.Js.{Value, str, normalize_text, normalize_text-normalize_text}
use mossbridge.Queues.Shape.{part, part-keep, keep-not-none, by_time, by_time-order}
use mossbridge.Queues.Stored.{load_sorted, Holds, load_sorted-Holds, keep-Holds, push-Holds}

pub record RawJob : Type 0 where
  pub id : Value
  pub account_id : Value
  pub sender_id : Value
  pub output_file : Value
  pub selector : Value
  pub range : Value
  pub date : Value
  pub week : Value
  pub month : Value
  pub category : Value
  pub subcategory : Value
  pub width : Option ℕ
  pub height : Option ℕ
  pub side_padding : Option ℕ
  pub locale : Value
  pub created_at : Option ℕ

pub record Job : Type 0 where
  pub id : Text
  pub account_id : Text
  pub sender_id : Text
  pub output_file : Text
  pub selector : Text
  pub range : Text
  pub date : Text
  pub week : Text
  pub month : Text
  pub category : Text
  pub subcategory : Text
  pub width : ℕ
  pub height : ℕ
  pub side_padding : ℕ
  pub locale : Text
  pub created_at : ℕ

unfoldable pub normalized : ℕ → RawJob → Job
normalized now j = record {
  id = normalize_text j.id;
  account_id = normalize_text j.account_id;
  sender_id = normalize_text j.sender_id;
  output_file = normalize_text j.output_file;
  selector = normalize_text j.selector;
  range = normalize_text j.range;
  date = normalize_text j.date;
  week = normalize_text j.week;
  month = normalize_text j.month;
  category = normalize_text j.category;
  subcategory = normalize_text j.subcategory;
  width = or_else j.width 0;
  height = or_else j.height 0;
  side_padding = or_else j.side_padding 0;
  locale = normalize_text j.locale;
  created_at = or_else j.created_at now;
}

unfoldable pub normalize_timeline_screenshot_job : ℕ → RawJob → Option Job
normalize_timeline_screenshot_job now raw =
    let j = normalized now raw in
    if is_empty j.id || is_empty j.account_id || is_empty j.sender_id then none else some j

-- A job as `JSON.stringify` writes it.
unfoldable pub saved : Job → RawJob
saved j = record {
  id = str j.id;
  account_id = str j.account_id;
  sender_id = str j.sender_id;
  output_file = str j.output_file;
  selector = str j.selector;
  range = str j.range;
  date = str j.date;
  week = str j.week;
  month = str j.month;
  category = str j.category;
  subcategory = str j.subcategory;
  width = some j.width;
  height = some j.height;
  side_padding = some j.side_padding;
  locale = str j.locale;
  created_at = some j.created_at;
}

-- `le_id` is `left.localeCompare(right) <= 0` on ids.
module _ (le_id : Text → Text → Bool) where
  unfoldable pub le_job : Job → Job → Bool
  le_job = by_time (λ j. j.created_at) (λ j. j.id) le_id

  unfoldable pub load : ℕ → List RawJob → List Job
  load = load_sorted normalize_timeline_screenshot_job saved le_job

  abbrev pub pushed : List RawJob → List Job → Option Job → List RawJob × Option Job
  pushed file jobs none = (file, none)
  pushed file jobs (some j) = (map saved (sort_by le_job (jobs ++ j ∷ [])), some j)

  -- `none` is the error "invalid timeline screenshot job".
  unfoldable pub enqueue : ℕ → List RawJob → RawJob → List RawJob × Option Job
  enqueue now file raw = pushed file (load now file) (normalize_timeline_screenshot_job now raw)

  abbrev pub unless_empty : List Job → List Job → List RawJob → List RawJob
  unless_empty [] pending file = file
  unless_empty (_ ∷ _) pending file = map saved pending

  abbrev pub is_of : Text → Job → Bool
  is_of account j = eq_text j.account_id account

  unfoldable pub drain_for_account : ℕ → List RawJob → Value → List RawJob × List Job
  drain_for_account now file account =
      let (drained, pending) = part (is_of (normalize_text account)) (load now file) in
      (unless_empty drained pending file, drained)

  unfoldable pub has_pending_for_account : ℕ → List RawJob → Value → Bool
  has_pending_for_account now file account = any (is_of (normalize_text account)) (load now file)
