-- ===== src/RuntimeNotices.antt =====
-- src/core/runtime-notices.js: what the runtime says about its limits, and what is delivered in its
-- place. The tests by regular expressions are parameters.
use mossbridge.Prelude.{
  Bool, true, false, ◌||◌, List, [], ◌∷◌, ◌++◌, Text, eq_text, trim, is_empty, or_text, codes,
  length, ltb, map, keep, not, if◌then◌else◌,
}

pub data NoticeKind : Type 0 where
  no_notice capacity capacity_warning : NoticeKind

pub data NoticeAction : Type 0 where
  pass silent replace : NoticeAction

-- Whether some pattern of `CAPACITY_NOTICE_PATTERNS`, of `CAPACITY_WARNING_PATTERNS`, or the one for
-- the name of a runtime matches a text; what the pattern of `extractResetTime` catches, trimmed, or
-- nothing; `lower` is `toLowerCase`.
pub record Patterns : Type 0 where
  pub is_capacity : Text → Bool
  pub is_warning : Text → Bool
  pub says_claude : Text → Bool
  pub says_codex : Text → Bool
  pub reset_time : Text → Text
  pub lower : Text → Text

pub record Shielded : Type 0 where
  pub shielded : Bool
  pub kind : NoticeKind
  pub action : NoticeAction
  pub text : Text

module _ (p : Patterns) where
  unfoldable pub classify_runtime_notice : Text → NoticeKind
  classify_runtime_notice text =
      let normalized = trim text in
      if is_empty normalized || ltb 4000 (length normalized)
      then no_notice
      else if p.is_capacity normalized
      then capacity
      else if p.is_warning normalized
      then capacity_warning
      else no_notice

  abbrev is_capacity_kind : NoticeKind → Bool
  is_capacity_kind no_notice = false
  is_capacity_kind capacity = true
  is_capacity_kind capacity_warning = false

  abbrev is_signal_kind : NoticeKind → Bool
  is_signal_kind no_notice = false
  is_signal_kind capacity = true
  is_signal_kind capacity_warning = true

  unfoldable pub is_runtime_capacity_notice : Text → Bool
  is_runtime_capacity_notice text = is_capacity_kind (classify_runtime_notice text)

  unfoldable pub is_runtime_capacity_signal : Text → Bool
  is_runtime_capacity_signal text = is_signal_kind (classify_runtime_notice text)

  unfoldable pub resolve_runtime_label : Text → Text → Text
  resolve_runtime_label runtime_id text =
      let runtime = p.lower (trim runtime_id) in
      if eq_text runtime (codes "claudecode")
      then codes "ClaudeCode"
      else if eq_text runtime (codes "codex")
      then codes "Codex"
      else if not (is_empty runtime)
      then trim runtime_id
      else if p.says_claude (trim text)
      then codes "ClaudeCode"
      else if p.says_codex (trim text)
      then codes "Codex"
      else codes "runtime"

  -- `lines.join("\n")`.
  abbrev join_lines : List Text → Text
  join_lines [] = []
  join_lines (l ∷ []) = l
  join_lines (l ∷ m ∷ ls) = l ++ 10 ∷ join_lines (m ∷ ls)

  unfoldable pub format_bridge_notice : Text → List Text → Text
  format_bridge_notice code lines = join_lines (
      (codes "[Mossbridge] " ++ or_text (trim code) (codes "status"))
      ∷ keep (λ l. not (is_empty l)) (map trim lines))

  abbrev reset_line : Text → List Text
  reset_line [] = []
  reset_line (c ∷ t) = (codes "reset: " ++ c ∷ t) ∷ []

  unfoldable pub build_runtime_capacity_notice : Text → Text → Text
  build_runtime_capacity_notice text runtime_id = format_bridge_notice (codes "runtime_limit") (
      (codes "source: bridge"
        ∷ (codes "runtime: " ++ resolve_runtime_label runtime_id text)
        ∷ codes "status: rate_or_quota_limited"
        ∷ codes "result: no_runtime_reply"
        ∷ codes "action: retry_after_reset"
        ∷ [])
      ++ reset_line (p.reset_time (trim text)))

  unfoldable pub build_runtime_capacity_warning_notice : Text → Text → Text
  build_runtime_capacity_warning_notice text runtime_id =
      format_bridge_notice (codes "runtime_usage_warning") (
        (codes "source: bridge"
          ∷ (codes "runtime: " ++ resolve_runtime_label runtime_id text)
          ∷ codes "status: usage_warning"
          ∷ codes "result: runtime_still_available"
          ∷ codes "action: continue_normally"
          ∷ [])
        ++ reset_line (p.reset_time (trim text)))

  unfoldable pub shield_kind : NoticeKind → Bool → Text → Text → Shielded
  shield_kind no_notice system text runtime_id = record {
    shielded = false;
    kind = no_notice;
    action = pass;
    text = text;
  }
  shield_kind capacity system text runtime_id =
      if system
      then record { shielded = true; kind = capacity; action = silent; text = [] }
      else record {
        shielded = true;
        kind = capacity;
        action = replace;
        text = build_runtime_capacity_notice text runtime_id;
      }
  shield_kind capacity_warning system text runtime_id =
      if system
      then record { shielded = true; kind = capacity_warning; action = silent; text = [] }
      else record {
        shielded = true;
        kind = capacity_warning;
        action = replace;
        text = build_runtime_capacity_warning_notice text runtime_id;
      }

  unfoldable pub shield_runtime_notice_for_delivery : Text → Text → Text → Shielded
  unfolding shield_kind
  shield_runtime_notice_for_delivery text provider runtime_id =
      shield_kind (classify_runtime_notice text)
        (eq_text (p.lower (trim provider)) (codes "system")) text runtime_id
