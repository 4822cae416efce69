-- ===== src/Delivery/Texts.antt =====
-- src/core/stream-delivery.js: how pieces of a reply become its text.
use mossbridge.Prelude.{
  ℕ, zero, suc, min, ◌&&◌, Option, none, some, [], ◌∷◌, ◌++◌, Text, eq_text, is_empty, starts_with,
  ends_with, is_space, length, drop, take, last_n, all, ◌==◌, if◌then◌else◌, or_else, first_some,
}

-- `replace(/\r\n/g, "\n")`.
unfoldable pub normalize_line_endings : Text → Text
normalize_line_endings [] = []
normalize_line_endings (c ∷ t) =
    let rest = normalize_line_endings t in
    if c == 13 && starts_with t (10 ∷ []) then rest else c ∷ rest

-- What follows the last line end among the blanks at the start, if there is one.
unfoldable pub after_blank_lines : Text → Option Text
after_blank_lines [] = none
after_blank_lines (c ∷ t) =
    let here = if c == 10 then some t else none in
    if is_space c then first_some (after_blank_lines t) here else none

-- `replace(/\n+\s*$/g, "")`.
unfoldable pub trim_blank_end : Text → Text
trim_blank_end [] = []
trim_blank_end (c ∷ t) =
    let rest = trim_blank_end t in if c == 10 && all is_space t then [] else c ∷ rest

unfoldable pub trim_outer_blank_lines : Text → Text
unfolding after_blank_lines trim_blank_end
trim_outer_blank_lines text = trim_blank_end (or_else (after_blank_lines text) text)

-- The loop of `appendStreamingText` over the sizes of the overlap, the longest first.
unfoldable pub append_overlap : ℕ → Text → Text → Text
append_overlap zero base incoming = base ++ incoming
append_overlap (suc size) base incoming =
    let smaller = append_overlap size base incoming in
    if eq_text (last_n (suc size) base) (take (suc size) incoming)
    then base ++ drop (suc size) incoming
    else smaller

unfoldable pub append_streaming_text : Text → Text → Text
append_streaming_text base incoming =
    if is_empty incoming
    then base
    else if is_empty base
    then incoming
    else if ends_with base incoming
    then base
    else if starts_with incoming base
    then incoming
    else append_overlap (min (length base) (length incoming)) base incoming
