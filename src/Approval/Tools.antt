-- ===== src/Approval/Tools.antt =====
-- src/adapters/runtime/shared/approval-command.js: the tokens by which a call of a tool is compared, and
-- whether a path is inside a root.
use mossbridge.Prelude.{
  Bool, true, false, ◌&&◌, ◌||◌, not, List, [], ◌∷◌, ◌++◌, map, keep, any, Text, eq_text, trim,
  is_empty, includes, starts_with, ends_with, codes, ◌==◌, if◌then◌else◌,
}
use mossbridge.Approval.{normalize_command_tokens, canonicalize_command_tokens, is_nothing, join}
use mossbridge.Approval.Json.{Json}
use mossbridge.Approval.Input.{Options, extract_approval_command_tokens, extract_approval_file_path}

abbrev pub image_file_extensions : List Text
image_file_extensions =
    codes ".png"
    ∷ codes ".jpg"
    ∷ codes ".jpeg"
    ∷ codes ".gif"
    ∷ codes ".webp"
    ∷ codes ".bmp"
    ∷ codes ".svg"
    ∷ []

-- `lower` is `toLowerCase`.
unfoldable pub is_image_file_path : (Text → Text) → Text → Bool
is_image_file_path lower path =
    let normalized = lower (trim path) in
    not (is_empty normalized) && any (ends_with normalized) image_file_extensions

-- `split("__")`; `held` is whether an underscore came before that is not yet in the part.
unfoldable pub split_pairs : Bool → Text → Text → List Text
split_pairs held part [] = (if held then part ++ 95 ∷ [] else part) ∷ []
split_pairs held part (c ∷ t) =
    let cut = split_pairs false [] t in
    let hold = split_pairs true part t in
    let add = split_pairs false ((if held then part ++ 95 ∷ [] else part) ++ c ∷ []) t in
    if c == 95 then if held then part ∷ cut else hold else add

-- `join("__")`.
abbrev pub join_pairs : List Text → Text
join_pairs [] = []
join_pairs (p ∷ []) = p
join_pairs (p ∷ q ∷ ps) = p ++ 95 ∷ 95 ∷ join_pairs (q ∷ ps)

abbrev pub named_parts : List Text → List Text
named_parts ps = keep (λ p. not (is_empty p)) ps

unfoldable pub tokens_of_parts : List Text → List Text
tokens_of_parts (mcp ∷ server ∷ tool ∷ more) =
    let name = trim server in
    let parts = named_parts (map trim (tool ∷ more)) in
    if not (eq_text mcp (codes "mcp")) || is_empty name || is_nothing parts
    then []
    else codes "mcp_tool" ∷ name ∷ join_pairs parts ∷ []
tokens_of_parts _ = []

unfoldable pub extract_mcp_tool_tokens : (Text → Text) → Text → List Text
unfolding tokens_of_parts split_pairs
extract_mcp_tool_tokens lower tool_name =
    let normalized = lower (trim tool_name) in
    if starts_with normalized (codes "mcp__")
    then tokens_of_parts (named_parts (split_pairs false [] normalized))
    else []

abbrev pub or_tokens : List Text → List Text → List Text
or_tokens [] later = later
or_tokens (t ∷ ts) later = t ∷ ts

unfoldable pub build_approval_match_tokens :
    (Text → Text) → Options → Text → List Text → Json → List Text
build_approval_match_tokens lower options tool_name command_tokens input =
    let name = lower (trim tool_name) in
    let raw =
      or_tokens (normalize_command_tokens command_tokens)
        (extract_approval_command_tokens lower options input) in
    if eq_text name (codes "view_image")
    then codes "view_image" ∷ []
    else if eq_text name (codes "read")
        && is_image_file_path lower (extract_approval_file_path options.preferred_keys input)
    then codes "read_image" ∷ []
    else or_tokens (extract_mcp_tool_tokens lower name) (canonicalize_command_tokens raw)

-- `quote` is `JSON.stringify` of a string.
unfoldable pub build_approval_command_preview : (Text → Text) → List Text → Text
build_approval_command_preview quote tokens =
    join (map (λ t. if includes t (32 ∷ []) then quote t else t) (normalize_command_tokens tokens))

abbrev pub with_slashes : Text → Text
with_slashes [] = []
with_slashes (c ∷ t) = (if c == 92 then 47 else c) ∷ with_slashes t

-- `resolve` is `path.resolve`.
unfoldable pub base_path : (Text → Text) → Text → Text
base_path resolve value = if is_empty (trim value) then [] else with_slashes (resolve value)

unfoldable pub is_path_within_root : (Text → Text) → Text → Text → Bool
is_path_within_root resolve file_path root_path =
    let file = base_path resolve (trim file_path) in
    let root = base_path resolve (trim root_path) in
    if is_empty (trim file_path) || is_empty (trim root_path)
    then false
    else eq_text file root || starts_with file (root ++ 47 ∷ [])
