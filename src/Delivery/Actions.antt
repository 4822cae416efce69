-- ===== src/Delivery/Actions.antt =====
-- src/core/stream-delivery.js: what a reply asks for. Parsing JSON, and the tests and replacements by
-- regular expressions, are parameters.
use mossbridge.Delivery.Texts.{normalize_line_endings, trim_outer_blank_lines}
use mossbridge.Prelude.{
  ℕ, suc, ◌-◌, ltb, leb, ◌==◌, Bool, true, false, ◌&&◌, ◌||◌, not, Option, none, some, List, [],
  ◌∷◌, Text, eq_text, trim, is_empty, is_space, starts_with, ends_with, or_text, codes, any, drop,
  take, length, if◌then◌else◌,
}
use mossbridge.RuntimeNotices.{Patterns, Shielded, shield_runtime_notice_for_delivery}

-- An object that `JSON.parse` returns: whether it has an `action`, and `action`, `message` and `text`
-- as strings.
pub record Fields : Type 0 where
  pub has_action : Bool
  pub action : Text
  pub message : Text
  pub text : Text

-- `parse` is none where `JSON.parse` throws or returns no object. `sanitize` is the text of
-- `sanitizeProtocolLeakText`, `plain_text` is `markdownToPlainText`, `is_hazard` is
-- `containsPlainTextSystemHazard`, and the last two are the tests of `isCodexMcpTransportFailureText`.
pub record Reader : Type 0 where
  pub parse : Text → Option Fields
  pub sanitize : Text → Text
  pub plain_text : Text → Text
  pub is_hazard : Text → Bool
  pub patterns : Patterns
  pub has_tool_context : Text → Bool
  pub has_transport_failure : Text → Bool

pub data Action : Type 0 where
  silent : Action
  send_message : Text → Action
  invalid : Text → Action

-- `replace(/\s+/g, "_")`; `blank` is whether a blank came before.
abbrev pub underscored : Bool → Text → Text
underscored blank [] = []
underscored blank (c ∷ t) =
    let rest = underscored (is_space c) t in
    if is_space c then (if blank then rest else 95 ∷ rest) else c ∷ rest

abbrev pub skip_space : Text → Text
skip_space [] = []
skip_space (c ∷ t) = let rest = skip_space t in if is_space c then rest else c ∷ t

-- Whether a text starts with the letters, which are small, in either case.
abbrev pub starts_with_word : Text → Text → Bool
starts_with_word _ [] = true
starts_with_word [] (_ ∷ _) = false
starts_with_word (c ∷ s) (d ∷ p) = (c == d || c == d - 32) && starts_with_word s p

abbrev pub after_colon : Text → Text → Text
after_colon whole [] = whole
after_colon whole (c ∷ t) = if c == 58 then skip_space t else whole

-- `replace(/^json\s*:\s*/i, "")`.
unfoldable pub strip_json_label : Text → Text
strip_json_label t =
    if starts_with_word t (codes "json") then after_colon t (skip_space (drop 4 t)) else t

abbrev pub fence : Text
fence = codes "```"

-- What is between the fences of a text that is one fenced block, or nothing.
unfoldable pub unwrap_json_code_fence : Text → Text
unwrap_json_code_fence text =
    let t = trim text in
    let inner = take (length t - 6) (drop 3 t) in
    if starts_with t fence && ends_with t fence && leb 6 (length t)
    then trim (if starts_with_word inner (codes "json") then drop 4 inner else inner)
    else []

-- `replace(/```\s*$/, "")` on a trimmed text.
abbrev pub strip_last_fence : Text → Text
strip_last_fence t = if ends_with t fence then take (length t - 3) t else t

module _ (r : Reader) where
  unfoldable pub normalize_system_action_name : Text → Text
  normalize_system_action_name action = underscored false (r.patterns.lower (trim action))

  unfoldable pub resolve_action : Option Fields → Action
  resolve_action none = invalid (codes "final reply is not a JSON object")
  resolve_action (some f) =
      let action = normalize_system_action_name f.action in
      let message = trim (r.sanitize (normalize_line_endings (or_text f.message f.text))) in
      if eq_text action (codes "silent")
      then silent
      else if not (eq_text action (codes "send_message"))
      then invalid (codes "unsupported action")
      else if is_empty message
      then invalid (codes "send_message requires a non-empty message")
      else send_message message

  unfoldable pub resolve_system_reply_action : Text → Action
  unfolding resolve_action
  resolve_system_reply_action reply =
      let normalized = trim (normalize_line_endings reply) in
      if is_empty normalized
      then invalid (codes "final reply is empty")
      else resolve_action (r.parse normalized)

  abbrev pub is_action : Option Fields → Bool
  is_action none = false
  is_action (some f) = f.has_action

  -- The last part from a `{` on that is an object with an action.
  unfoldable pub last_action : Text → Text
  last_action [] = []
  last_action (c ∷ t) =
      let later = last_action t in
      if is_empty later && c == 123 && is_action (r.parse (c ∷ t)) then c ∷ t else later

  unfoldable pub extract_system_action_json_candidate : Text → Text
  unfolding last_action
  extract_system_action_json_candidate text =
      let normalized = trim (strip_last_fence (trim (normalize_line_endings text))) in
      if is_empty normalized || not (ends_with normalized (125 ∷ []))
      then []
      else if starts_with normalized (123 ∷ [])
      then normalized
      else last_action normalized

  unfoldable pub classify_reply_item_source_text : Text → Option Action
  classify_reply_item_source_text reply =
      let normalized = trim (normalize_line_endings reply) in
      let stripped =
        trim (strip_json_label (or_text (unwrap_json_code_fence normalized) normalized)) in
      let candidate =
        or_text (extract_system_action_json_candidate stripped)
          (if starts_with stripped (123 ∷ []) then stripped else []) in
      if is_empty normalized || is_empty candidate || not (eq_text candidate stripped)
      then none
      else some (resolve_system_reply_action candidate)

  unfoldable pub is_codex_mcp_transport_failure_text : Text → Bool
  is_codex_mcp_transport_failure_text text =
      let normalized = trim text in
      not (is_empty normalized || ltb 1000 (length normalized))
      && (eq_text (r.patterns.lower normalized) (codes "transport closed")
          || r.has_tool_context normalized && r.has_transport_failure normalized)

  abbrev pub mcp_transport_failure_reply : Text
  mcp_transport_failure_reply =
      codes
        "Mossbridge: the tool channel closed before returning a result. This turn was not retried automatically, so the same action is not run twice."

  unfoldable pub shield_mcp_transport_failure_reply : Text → Text
  shield_mcp_transport_failure_reply text =
      if is_empty (trim text) || not (is_codex_mcp_transport_failure_text (trim text))
      then text
      else mcp_transport_failure_reply

  unfoldable pub sanitize_reply_text : Text → Text
  sanitize_reply_text text =
      let normalized = normalize_line_endings text in
      if is_empty normalized then [] else trim_outer_blank_lines (r.sanitize normalized)

  -- The runtime's id decides whether a plain text is sent for a system trigger.
  abbrev pub allows_plain_text : Text → Bool
  allows_plain_text runtime_id = eq_text runtime_id (codes "claudecode")

  abbrev pub lines : Text → ℕ
  lines [] = 1
  lines (c ∷ t) = let rest = lines t in if c == 10 then suc rest else rest

  unfoldable pub sanitize_plain_text_system_reply : Text → Text
  sanitize_plain_text_system_reply reply =
      let normalized = trim_outer_blank_lines (normalize_line_endings reply) in
      if is_empty normalized
        || ltb 280 (length normalized)
        || ltb 3 (lines normalized)
        || r.is_hazard normalized
      then []
      else sanitize_reply_text normalized

  unfoldable pub resolve_plain_text_system_reply : Text → Action
  resolve_plain_text_system_reply reply =
      let message = sanitize_plain_text_system_reply reply in
      if is_empty message
      then invalid (codes "plain text system reply is unsafe")
      else send_message message

  -- The text of the reply, and whether it has to be an action.
  unfoldable pub normalize_system_reply_source : Text → Text × Bool
  normalize_system_reply_source reply =
      let normalized = trim (normalize_line_endings reply) in
      let unfenced = unwrap_json_code_fence normalized in
      let stripped = trim (strip_json_label normalized) in
      if is_empty unfenced
      then (stripped, not (eq_text stripped normalized))
      else (trim (strip_json_label unfenced), true)

  unfoldable pub resolve_system_action_candidate : Text → Bool → Text
  resolve_system_action_candidate source requires_action =
      let text = trim (normalize_line_endings source) in
      if is_empty text
      then []
      else if requires_action || starts_with text (123 ∷ [])
      then text
      else extract_system_action_json_candidate text

  abbrev pub resolve_unshielded : Text → Text × Bool → Action
  resolve_unshielded runtime_id (text, requires_action) =
      let candidate = resolve_system_action_candidate text requires_action in
      if not (is_empty candidate)
      then resolve_system_reply_action candidate
      else if allows_plain_text runtime_id
      then resolve_plain_text_system_reply text
      else invalid (codes "final reply is not a JSON object")

  -- The action, and the notice if the reply is one, which is then silent.
  unfoldable pub resolve_system_reply_delivery : Text → Text → Action × Option Shielded
  resolve_system_reply_delivery reply runtime_id =
      let normalized = trim (normalize_line_endings reply) in
      let notice =
        shield_runtime_notice_for_delivery r.patterns normalized (codes "system") runtime_id in
      if is_empty normalized
      then (invalid (codes "final reply is empty"), none)
      else if notice.shielded
      then (silent, some notice)
      else (resolve_unshielded runtime_id (normalize_system_reply_source normalized), none)

-- `/^(回复已发出|消息已发出|已发出)[：:——-]/u`.
abbrev pub summary_starts : List Text
summary_starts =
    (0x56de ∷ 0x590d ∷ 0x5df2 ∷ 0x53d1 ∷ 0x51fa ∷ [])
    ∷ (0x6d88 ∷ 0x606f ∷ 0x5df2 ∷ 0x53d1 ∷ 0x51fa ∷ [])
    ∷ (0x5df2 ∷ 0x53d1 ∷ 0x51fa ∷ [])
    ∷ []

abbrev pub is_summary_mark : Text → Bool
is_summary_mark [] = false
is_summary_mark (c ∷ t) = c == 0xff1a || c == 58 || c == 0x2014 || c == 45

unfoldable pub is_likely_tool_delivery_summary : Text → Bool
is_likely_tool_delivery_summary text =
    let normalized = trim_outer_blank_lines (normalize_line_endings text) in
    not (is_empty normalized)
    && leb (length normalized) 260
    && any (λ s. starts_with normalized s && is_summary_mark (drop (length s) normalized))
        summary_starts
