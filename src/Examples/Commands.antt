-- ===== src/Examples/Commands.antt =====
-- src/adapters/runtime/shared/approval-command.js at concrete commands.
use mossbridge.Prelude.{Text, List, [], ◌∷◌, codes, ◌≡◌, refl, trim, is_empty, eq_text, is_space}
use mossbridge.Approval.Json.{Json, object, field, text, empty, array, item, end, field_of}
use mossbridge.Approval.Input.{
  extract_approval_file_paths, collect_approval_file_paths, push_own, push_keys, push_list,
  push_unique_file_path, push_unique_text,
}
use mossbridge.Approval.Paths.{IsCollected, extract_paths-IsCollected}
use mossbridge.Prelude.{
  Text, codes, ◌≡◌, refl, true, List, [], ◌∷◌, some, trim, is_empty, eq_text, is_space, arith,
}
use mossbridge.Approval.{
  split_command_line, join, normalize_command_tokens, is_wrapped, is_shell_wrapper, base_name,
  last_part, plain_form, canonicalize_within, canonicalize_command_tokens, matches_command_prefix,
  npm_form, after_word, token_at, scan, step, step_plain, push_current, start, add_char,
}
use mossbridge.Approval.Allowed.{bash, in_shell, BeginsWithOne, matches-BeginsWithOne}
use mossbridge.Prelude.{◌↔◌}
use mossbridge.Approval.Words.{split_command_line-join}
use mossbridge.Approval.Canonical.{canonicalize_within-enough}

abbrev wrapped : List Text
wrapped = codes "/bin/bash" ∷ codes "-lc" ∷ codes "npm run 'test'" ∷ []

is_a_shell : is_wrapped (normalize_command_tokens wrapped) ≡ true
unfolding is_wrapped normalize_command_tokens is_shell_wrapper base_name last_part trim is_empty
    eq_text
is_a_shell = refl

-- What the shell runs.
runs_test : canonicalize_command_tokens wrapped ≡ codes "npm" ∷ codes "run" ∷ codes "test" ∷ []
unfolding canonicalize_command_tokens canonicalize_within is_wrapped normalize_command_tokens
    is_shell_wrapper base_name last_part trim is_empty eq_text is_space split_command_line join scan
    step step_plain push_current start add_char plain_form npm_form after_word token_at
runs_test = refl

-- `npm` with `run` in any place is taken for the script alone.
takes_any_run :
    canonicalize_command_tokens
      (codes "npm" ∷ codes "exec" ∷ codes "other" ∷ codes "run" ∷ codes "test" ∷ [])
    ≡ codes "npm" ∷ codes "run" ∷ codes "test" ∷ []
unfolding canonicalize_command_tokens canonicalize_within is_wrapped normalize_command_tokens
    is_shell_wrapper base_name last_part trim is_empty eq_text is_space split_command_line join scan
    step step_plain push_current start add_char plain_form npm_form after_word token_at
takes_any_run = refl

-- What a shell runs after `npm run test` is not in the compared form.
drops_the_rest :
    canonicalize_command_tokens (codes "bash" ∷ codes "-lc" ∷ codes "npm run test && rm x" ∷ [])
    ≡ codes "npm" ∷ codes "run" ∷ codes "test" ∷ []
unfolding canonicalize_command_tokens canonicalize_within is_wrapped normalize_command_tokens
    is_shell_wrapper base_name last_part trim is_empty eq_text is_space split_command_line join scan
    step step_plain push_current start add_char plain_form npm_form after_word token_at
drops_the_rest = refl

canonicalize_within-enough_example :
    canonicalize_within 100 wrapped ≡ some (canonicalize_command_tokens wrapped)
canonicalize_within-enough_example = canonicalize_within-enough 100 wrapped (omega arith)

abbrev git_status : List Text
git_status = codes "git" ∷ codes "status" ∷ codes "--short" ∷ []

abbrev git_status_only : List (List Text)
git_status_only = (codes "git" ∷ codes "status" ∷ []) ∷ []

matches-BeginsWithOne_example :
    (matches_command_prefix (in_shell (some (codes "usr/bin")) bash git_status) git_status_only
      ≡ matches_command_prefix git_status git_status_only)
    × ((matches_command_prefix git_status git_status_only ≡ true)
        ↔ BeginsWithOne git_status git_status_only)
unfolding is_empty is_space eq_text base_name last_part trim
matches-BeginsWithOne_example =
    matches-BeginsWithOne (some (codes "usr/bin")) bash git_status git_status_only refl refl

split_command_line-join_example :
    split_command_line (join (codes "git" ∷ codes "status" ∷ []))
    ≡ codes "git" ∷ codes "status" ∷ []
unfolding is_empty is_space
split_command_line-join_example = split_command_line-join (codes "git" ∷ codes "status" ∷ []) refl

abbrev edit_input : Json
edit_input = object (
    field (codes "file_path") (text (codes " a.txt ")) (
      field (codes "edits")
        (array (item (object (field (codes "path") (text (codes "a.txt")) empty)) end)) empty))

abbrev edited_paths : List Text
edited_paths = extract_approval_file_paths [] edit_input

edited_once : edited_paths ≡ codes "a.txt" ∷ []
unfolding extract_approval_file_paths collect_approval_file_paths push_own push_keys push_list
    push_unique_file_path push_unique_text field_of trim is_empty eq_text is_space
edited_once = refl

extract_paths-IsCollected_example : IsCollected (extract_approval_file_paths [] edit_input)
extract_paths-IsCollected_example = extract_paths-IsCollected [] edit_input
