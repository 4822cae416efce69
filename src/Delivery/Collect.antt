-- ===== src/Delivery/Collect.antt =====
-- src/core/stream-delivery.js: the items of a run that are not sent, and what is to be done for each.
use mossbridge.Delivery.State.{Item, Run}
use mossbridge.Delivery.Texts.{normalize_line_endings, trim_outer_blank_lines}
use mossbridge.Delivery.Runs.{
  resolve_plain_reply_source_text, build_effective_reply_text, is_one_of, join_parts, is_text,
}
use mossbridge.Delivery.Actions.{
  Reader, Action, silent, send_message, invalid, classify_reply_item_source_text,
  sanitize_reply_text, is_likely_tool_delivery_summary,
}
use mossbridge.Delivery.Sending.{provider_of}
use mossbridge.Prelude.{
  Bool, true, false, Option, none, some, List, [], ◌∷◌, map, keep, Text, is_empty, get,
  if◌then◌else◌, Dict,
}
use mossbridge.RuntimeNotices.{
  Shielded, NoticeAction, pass, replace, shield_runtime_notice_for_delivery,
}

-- What is to be done for an item. A plain text that stands for a notice of the runtime has the notice
-- and the text of the item.
pub data Content : Type 0 where
  nothing : Content
  message : Text → Content
  invalid_action : Text → Content
  plain : Text → Option (Shielded × Text) → Content

pub record Pending : Type 0 where
  pub item_id : Text
  pub content : Content

unfoldable pub build_action_delivery : Action → Content
build_action_delivery silent = nothing
build_action_delivery (send_message m) = message m
build_action_delivery (invalid reason) = invalid_action reason

abbrev pub is_replaced : NoticeAction → Bool
is_replaced replace = true
is_replaced pass = false
is_replaced NoticeAction.silent = false

unfoldable pub notice_content : Shielded → Text → Text → Content
notice_content notice source sanitized =
    if notice.shielded
    then if is_replaced notice.action then plain notice.text (some (notice, source)) else nothing
    else plain sanitized none

-- `provider` is the one of the run's target.
module _ (r : Reader) (runtime_id provider : Text) where
  unfoldable pub plain_content : Text → Option Content
  unfolding notice_content
  plain_content source =
      let sanitized = sanitize_reply_text r (r.plain_text source) in
      if is_empty sanitized
      then none
      else if is_likely_tool_delivery_summary sanitized
      then some nothing
      else some (
          notice_content
            (shield_runtime_notice_for_delivery r.patterns sanitized provider runtime_id) source
            sanitized)

  unfoldable pub content_of : Text → Option Content
  unfolding build_action_delivery plain_content
  content_of source =
      if is_empty source then none else elim (classify_reply_item_source_text r source) [
        | some action ↦ some (build_action_delivery action)
        | none ↦ plain_content source
      ]

  abbrev pub content_of_item : Bool → Option Item → Option Content
  content_of_item force none = none
  content_of_item force (some item) = content_of (resolve_plain_reply_source_text item force)

  abbrev pub push_content : Text → Option Content → List Pending → List Pending
  push_content id none pending = pending
  push_content id (some c) pending = record { item_id = id; content = c } ∷ pending

  -- The loop over the ids of the items.
  unfoldable pub collect_along : Dict Item → Bool → List Text → List Text → List Pending
  unfolding content_of
  collect_along items force sent_ids [] = []
  collect_along items force sent_ids (id ∷ ids) =
      let rest = collect_along items force sent_ids ids in
      if is_one_of sent_ids id
      then rest
      else push_content id (content_of_item force (get id items)) rest

unfoldable pub collect_pending_reply_deliveries : Reader → Text → Run → Bool → List Pending
collect_pending_reply_deliveries r runtime_id run force =
    collect_along r runtime_id (provider_of run.reply_target) run.items force run.sent_item_ids
      run.item_order

abbrev pub preview_text : Content → Text
preview_text nothing = []
preview_text (message m) = m
preview_text (invalid_action _) = []
preview_text (plain t _) = t

abbrev pub body_part : Pending → Text
body_part p = trim_outer_blank_lines (normalize_line_endings (preview_text p.content))

unfoldable pub build_pending_delivery_batch_text : List Pending → Text → Text
build_pending_delivery_batch_text pending prefix =
    build_effective_reply_text prefix (join_parts (keep is_text (map body_part pending)))
