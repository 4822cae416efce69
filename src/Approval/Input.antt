-- ===== src/Approval/Input.antt =====
-- src/adapters/runtime/shared/approval-command.js: the command and the file paths in the input of a tool.
use mossbridge.Prelude.{
  Bool, ◌||◌, not, Option, none, some, List, [], ◌∷◌, ◌++◌, map, keep, any, Text, eq_text, trim,
  is_empty, includes, codes, Dict, get, if◌then◌else◌, or_else,
}
use mossbridge.Approval.{normalize_command_tokens, split_command_line, is_nothing}
use mossbridge.Approval.Json.{
  Json, Items, Fields, null, boolean, number, text, array, object, end, item, empty, field,
  field_of, strings_of,
}

pub record Options : Type 0 where
  pub preferred_keys : List Text
  pub scan_nested_exec_policy_keys : Bool

abbrev pub default_token_keys : List Text
default_token_keys =
    codes "proposedExecpolicyAmendment"
    ∷ codes "prefix_rule"
    ∷ codes "argv"
    ∷ codes "args"
    ∷ codes "command"
    ∷ codes "cmd"
    ∷ codes "exec"
    ∷ codes "shellCommand"
    ∷ codes "script"
    ∷ []

abbrev pub is_key_of : List Text → Text → Bool
is_key_of keys key = any (eq_text key) keys

-- The tokens of the first key that has some.
abbrev pub first_tokens : Dict (List Text) → List Text → List Text
first_tokens found [] = []
first_tokens found (key ∷ keys) =
    let tokens = or_else (get key found) [] in
    let later = first_tokens found keys in if is_nothing tokens then later else tokens

abbrev pub trimmed_strings : Option (List Text) → List Text
trimmed_strings none = []
trimmed_strings (some ts) = keep (λ t. not (is_empty t)) (map trim ts)

-- `lower` is `toLowerCase`.
module _ (lower : Text → Text) (options : Options) where
  abbrev pub is_exec_policy_key : Text → Bool
  is_exec_policy_key key =
      includes (lower key) (codes "execpolicy") || includes (lower key) (codes "exec_policy")

  -- `found` has the tokens of each field.
  unfoldable pub choose_tokens : Dict (List Text) → List Text
  choose_tokens found =
      let preferred = first_tokens found options.preferred_keys in
      let default =
        first_tokens found
          (keep (λ k. not (is_key_of options.preferred_keys k)) default_token_keys) in
      let nested = first_tokens found (keep is_exec_policy_key (map (λ e. e.0) found)) in
      if not (is_nothing preferred)
      then preferred
      else if not (is_nothing default)
      then default
      else if options.scan_nested_exec_policy_keys
      then nested
      else []

  unfoldable mutual
    unfolding choose_tokens

    pub extract_tokens : Json → List Text
    extract_tokens null = []
    extract_tokens (boolean _) = []
    extract_tokens (number _) = []
    extract_tokens (text t) = split_command_line t
    extract_tokens (array items) = trimmed_strings (strings_of items)
    extract_tokens (object fields) = choose_tokens (tokens_of_fields fields)

    pub tokens_of_fields : Fields → Dict (List Text)
    tokens_of_fields empty = []
    tokens_of_fields (field key value rest) = (key, extract_tokens value) ∷ tokens_of_fields rest

  unfoldable pub extract_approval_command_tokens : Json → List Text
  extract_approval_command_tokens value = normalize_command_tokens (extract_tokens value)

-- `collected.includes(path)`.
abbrev pub is_collected : List Text → Text → Bool
is_collected collected path = any (eq_text path) collected

unfoldable pub push_unique_text : List Text → Text → List Text
push_unique_text collected t =
    let path = trim t in
    if is_empty path || is_collected collected path then collected else collected ++ path ∷ []

unfoldable pub push_unique_file_path : List Text → Option Json → List Text
unfolding push_unique_text
push_unique_file_path collected (some (text t)) = push_unique_text collected t
push_unique_file_path collected _ = collected

abbrev pub default_file_path_keys : List Text
default_file_path_keys = codes "file_path" ∷ codes "filePath" ∷ codes "path" ∷ []

unfoldable pub push_keys : List Text → List Text → Fields → List Text
unfolding push_unique_file_path
push_keys collected [] fields = collected
push_keys collected (key ∷ keys) fields =
    push_keys (push_unique_file_path collected (field_of key fields)) keys fields

unfoldable pub push_entries : List Text → Items → List Text
unfolding push_unique_file_path
push_entries collected end = collected
push_entries collected (item v rest) = push_entries (push_unique_file_path collected (some v)) rest

-- `paths` is the only key of a list of paths.
unfoldable pub push_list : List Text → Option Json → List Text
unfolding push_entries
push_list collected (some (array items)) = push_entries collected items
push_list collected _ = collected

unfoldable pub push_own : List Text → List Text → Fields → List Text
unfolding push_keys push_list
push_own preferred collected fields =
    push_list (push_keys collected (preferred ++ default_file_path_keys) fields)
      (field_of (codes "paths") fields)

-- A parsed value has no cycles, so that no object needs to be remembered as seen.
module _ (preferred : List Text) where
  unfoldable mutual
    unfolding push_own

    pub collect_approval_file_paths : List Text → Json → List Text
    collect_approval_file_paths collected null = collected
    collect_approval_file_paths collected (boolean _) = collected
    collect_approval_file_paths collected (number _) = collected
    collect_approval_file_paths collected (text _) = collected
    collect_approval_file_paths collected (array _) = collected
    collect_approval_file_paths collected (object fields) =
        collect_nested (push_own preferred collected fields) fields

    pub collect_nested : List Text → Fields → List Text
    collect_nested collected empty = collected
    collect_nested collected (field _ value rest) =
        collect_nested (collect_field collected value) rest

    pub collect_field : List Text → Json → List Text
    collect_field collected null = collected
    collect_field collected (boolean _) = collected
    collect_field collected (number _) = collected
    collect_field collected (text _) = collected
    collect_field collected (array items) = collect_entries collected items
    collect_field collected (object fields) =
        collect_nested (push_own preferred collected fields) fields

    pub collect_entries : List Text → Items → List Text
    collect_entries collected end = collected
    collect_entries collected (item value rest) =
        collect_entries (collect_approval_file_paths collected value) rest

  unfoldable pub extract_approval_file_paths : Json → List Text
  extract_approval_file_paths value = collect_approval_file_paths [] value

  abbrev first_path : List Text → Text
  first_path [] = []
  first_path (p ∷ _) = p

  unfoldable pub extract_approval_file_path : Json → Text
  extract_approval_file_path value = first_path (extract_approval_file_paths value)
