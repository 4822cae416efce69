-- ===== src/Approval.antt =====
-- src/adapters/runtime/shared/approval-command.js: the words of a command, the form in which it is
-- compared, and the list of the prefixes that are allowed. A list of tokens is a list of strings. `Json`
-- and `Input` read them from a tool's input, `Tools` has MCP tools and images; the others prove.
pub mod Words
pub mod Canonical
pub mod Json
pub mod Input
pub mod Tools
pub mod Paths
pub mod Plain
pub mod Allowed
use mossbridge.Prelude.{
  drop, length, any, keep, map, leb, is_space, ℕ, Text, List, [], ◌∷◌, ◌++◌, Option, none, some,
  Bool, true, false, ◌==◌, zero, suc, ◌-◌, if◌then◌else◌, is_empty, not, ◌+◌, eq_text, trim, ◌||◌,
  ◌&&◌, codes, ends_with,
}

unfoldable pub normalize_command_tokens : List Text → List Text
normalize_command_tokens tokens = keep (λ t. not (is_empty t)) (map trim tokens)

-- The variables of the loop of `splitCommandLine`.
pub record Scan : Type 0 where
  pub tokens : List Text
  pub current : Text
  pub quote : Option ℕ
  pub escaped : Bool

unfoldable pub start : Scan
start = record { tokens = []; current = []; quote = none; escaped = false }

unfoldable pub add_char : Scan → ℕ → Scan
add_char s c = record s { current = s.current ++ c ∷ [] }

-- `if (current) tokens.push(current)`.
unfoldable pub push_current : Scan → Scan
push_current s =
    if is_empty s.current then s else record s { tokens = s.tokens ++ s.current ∷ []; current = [] }

-- A character outside an escape, inside quotes or not.
unfoldable pub step_plain : Option ℕ → Scan → ℕ → Scan
step_plain (some q) s c = if c == q then record s { quote = none } else add_char s c
step_plain none s c =
    if c == 34 || c == 39
    then record s { quote = some c }
    else if is_space c
    then push_current s
    else add_char s c

unfoldable pub step : Scan → ℕ → Scan
unfolding step_plain
step s c =
    if s.escaped
    then record (add_char s c) { escaped = false }
    else if c == 92
    then record s { escaped = true }
    else step_plain s.quote s c

unfoldable pub scan : Scan → Text → Scan
scan s [] = s
scan s (c ∷ t) = scan (step s c) t

unfoldable pub split_command_line : Text → List Text
split_command_line input = (push_current (scan start input)).tokens

-- `join(" ")`.
unfoldable pub join : List Text → Text
join [] = []
join (t ∷ []) = t
join (t ∷ u ∷ ts) = t ++ 32 ∷ join (u ∷ ts)

-- `replace(/\\/g, "/").split("/")`, its last part.
unfoldable pub last_part : Text → Text → Text
last_part part [] = part
last_part part (c ∷ t) = last_part (if c == 47 || c == 92 then [] else part ++ c ∷ []) t

unfoldable pub base_name : Text → Text
base_name value = trim (last_part [] (trim value))

unfoldable pub is_shell_wrapper : Text → Text → Bool
is_shell_wrapper command flag =
    let executable = base_name command in
    (eq_text executable (codes "sh")
      || eq_text executable (codes "bash")
      || eq_text executable (codes "zsh"))
    && eq_text (trim flag) (codes "-lc")

unfoldable pub is_wrapped : List Text → Bool
is_wrapped (command ∷ flag ∷ _ ∷ _) = is_shell_wrapper command flag
is_wrapped _ = false

-- The token at an index, trimmed; the empty text beyond the end.
unfoldable pub token_at : ℕ → List Text → Text
token_at n [] = []
token_at n (t ∷ ts) = let rest = token_at (n - 1) ts in if n == 0 then trim t else rest

-- What follows the first such word, if the word is there.
unfoldable pub after_word : Text → List Text → Option Text
after_word w [] = none
after_word w (t ∷ ts) =
    let later = after_word w ts in if eq_text t w then some (token_at 0 ts) else later

abbrev pub npm_run : Option Text → Option (List Text)
npm_run none = none
npm_run (some script) =
    some (if is_empty script then [] else codes "npm" ∷ codes "run" ∷ script ∷ [])

-- Each of the forms below is none where the code goes on to the next.
unfoldable pub npm_form : List Text → Option (List Text)
npm_form words =
    if eq_text (token_at 0 words) (codes "npm")
    then npm_run (after_word (codes "run") words)
    else none

abbrev pub mossbridge_words : Text → Text → List Text
mossbridge_words a b = keep (λ t. not (is_empty t)) (codes "mossbridge" ∷ a ∷ b ∷ [])

unfoldable pub node_form : List Text → Option (List Text)
node_form words =
    let executable = base_name (token_at 0 words) in
    let bin_path = token_at 1 words in
    let bin_base = base_name bin_path in
    if eq_text executable (codes "node") || eq_text executable (codes "node.exe")
    then if (eq_text bin_path (codes "./bin/mossbridge.js")
          || ends_with bin_path (codes "/bin/mossbridge.js"))
        && leb 4 (length words)
      then some (mossbridge_words (token_at 2 words) (token_at 3 words))
      else if is_empty bin_base
      then none
      else some (executable ∷ bin_base ∷ [])
    else none

unfoldable pub mossbridge_form : List Text → Option (List Text)
mossbridge_form words =
    let executable = base_name (token_at 0 words) in
    if eq_text executable (codes "mossbridge") || eq_text executable (codes "mossbridge.js")
    then some (mossbridge_words (token_at 1 words) (token_at 2 words))
    else none

abbrev pub first_form : Option (List Text) → List Text → List Text
first_form none words = words
first_form (some form) words = form

-- The form of a command that no shell wraps.
unfoldable pub plain_form : List Text → List Text
plain_form [] = []
plain_form (t ∷ ts) =
    let words = t ∷ ts in
    first_form (npm_form words)
      (first_form (node_form words) (first_form (mossbridge_form words) words))

-- `canonicalizeCommandTokens` with a bound on the shells that it takes off; none is out of fuel.
unfoldable pub canonicalize_within : ℕ → List Text → Option (List Text)
canonicalize_within zero tokens = none
canonicalize_within (suc n) tokens =
    let words = normalize_command_tokens tokens in
    let unwrapped = canonicalize_within n (split_command_line (join (drop 2 words))) in
    if is_wrapped words then unwrapped else some (plain_form words)

abbrev pub or_nothing : Option (List Text) → List Text
or_nothing none = []
or_nothing (some ts) = ts

abbrev pub is_nothing : List Text → Bool
is_nothing [] = true
is_nothing (_ ∷ _) = false

-- The size that each shell taken off makes less.
abbrev pub size : List Text → ℕ
size [] = 0
size (t ∷ ts) = suc (length t + size ts)

unfoldable pub canonicalize_command_tokens : List Text → List Text
canonicalize_command_tokens tokens = or_nothing (canonicalize_within (suc (size tokens)) tokens)

unfoldable pub is_prefix : List Text → List Text → Bool
is_prefix [] _ = true
is_prefix (_ ∷ _) [] = false
is_prefix (p ∷ ps) (t ∷ ts) = eq_text p t && is_prefix ps ts

unfoldable pub allows : List Text → List Text → Bool
allows command prefix = not (is_nothing prefix) && is_prefix prefix command

unfoldable pub matches_command_prefix : List Text → List (List Text) → Bool
matches_command_prefix tokens allowlist =
    let command = canonicalize_command_tokens tokens in
    not (is_nothing command)
    && any (λ prefix. allows command (canonicalize_command_tokens prefix)) allowlist
