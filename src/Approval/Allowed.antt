-- ===== src/Approval/Allowed.antt =====
-- `matchesCommandPrefix` on commands of plain words, given directly or to a shell.
use mossbridge.Approval.{
  normalize_command_tokens, split_command_line, join, base_name, last_part, is_shell_wrapper,
  is_wrapped, is_prefix, allows, canonicalize_command_tokens, matches_command_prefix,
}
use mossbridge.Approval.Plain.{is_ordinary, join-trimmed, canonicalize-ordinary}
use mossbridge.Approval.Words.{is_plain_word, split_command_line-join}
use mossbridge.Approval.Canonical.{canonicalize-unwrapped}
use mossbridge.Prelude.{
  eq_text_refl, ◌↔◌, ◌==◌, if◌then◌else◌, Text, codes, trim, trim-between, is_empty, eq_text,
  eq_text_iff, List, [], ◌∷◌, ◌++◌, Option, none, some, Bool, true, false, ◌&&◌, ◌||◌, any, all,
  drop, ◌≡◌, refl, sym, ap, ◌∙◌, arith, Bool-cases, inl, inr,
}

pub data Shell : Type 0 where
  sh bash zsh : Shell

abbrev pub shell_name : Shell → Text
shell_name sh = codes "sh"
shell_name bash = codes "bash"
shell_name zsh = codes "zsh"

-- The name alone, or after a slash, a directory and another slash.
abbrev pub shell_path : Option Text → Shell → Text
shell_path none s = shell_name s
shell_path (some dir) s = codes "/" ++ ((dir ++ codes "/") ++ shell_name s)

-- The command with which a shell is given these words.
abbrev pub in_shell : Option Text → Shell → List Text → List Text
in_shell dir s ws = shell_path dir s ∷ codes "-lc" ∷ join ws ∷ []

-- Some prefix of the list begins the command, word by word.
pub data BeginsWithOne (command : List Text) : List (List Text) → Type 0 where
  first :
      {p : List Text} {ps : List (List Text)} (rest : List Text)
      → command ≡ p ++ rest
      → BeginsWithOne command (p ∷ ps)
  later :
      {p : List Text} {ps : List (List Text)}
      → BeginsWithOne command ps
      → BeginsWithOne command (p ∷ ps)

shell_name-trimmed : (s : Shell) → trim (shell_name s) ≡ shell_name s
unfolding trim
shell_name-trimmed sh = refl
shell_name-trimmed bash = refl
shell_name-trimmed zsh = refl

shell_name-some : (s : Shell) → is_empty (shell_name s) ≡ false
unfolding is_empty
shell_name-some sh = refl
shell_name-some bash = refl
shell_name-some zsh = refl

shell_path-trimmed :
    (dir : Option Text) (s : Shell)
    → (trim (shell_path dir s) ≡ shell_path dir s) × (is_empty (shell_path dir s) ≡ false)
shell_path-trimmed none s = (shell_name-trimmed s, shell_name-some s)
shell_path-trimmed (some dir) s = (
  trim-between (codes "/") (dir ++ codes "/") (shell_name s) (unfold trim in refl)
      (shell_name-trimmed s) (unfold is_empty in refl) (shell_name-some s),
  unfold is_empty in refl,
)

last_part-slash : (part dir t : Text) → last_part part ((dir ++ codes "/") ++ t) ≡ last_part [] t
unfolding last_part
last_part-slash part [] t = refl
last_part-slash part (c ∷ dir) t =
    last_part-slash (if c == 47 || c == 92 then [] else part ++ c ∷ []) dir t

last_part-name : (s : Shell) → last_part [] (shell_name s) ≡ shell_name s
unfolding last_part
last_part-name sh = refl
last_part-name bash = refl
last_part-name zsh = refl

base_name-shell_path : (dir : Option Text) (s : Shell) → base_name (shell_path dir s) ≡ shell_name s
unfolding base_name
base_name-shell_path none s = rw (shell_name-trimmed s, last_part-name s) (shell_name-trimmed s)
base_name-shell_path (some dir) s =
    rw ((shell_path-trimmed (some dir) s).0)
      (ap trim (after_slash ∙ last_part-name s) ∙ shell_name-trimmed s)
  where
    after_slash : last_part [] (shell_path (some dir) s) ≡ last_part [] (shell_name s)
    after_slash = unfold last_part in last_part-slash [] dir (shell_name s)

is_shell-shell_path :
    (dir : Option Text) (s : Shell) → is_shell_wrapper (shell_path dir s) (codes "-lc") ≡ true
unfolding is_shell_wrapper
is_shell-shell_path dir s = rw (base_name-shell_path dir s) (named s)
  where
    named :
        (x : Shell)
        → ((eq_text (shell_name x) (codes "sh")
              || eq_text (shell_name x) (codes "bash")
              || eq_text (shell_name x) (codes "zsh"))
            && eq_text (trim (codes "-lc")) (codes "-lc"))
          ≡ true
    named sh = unfold trim eq_text in refl
    named bash = unfold trim eq_text in refl
    named zsh = unfold trim eq_text in refl

normalize-in_shell :
    (dir : Option Text) (s : Shell) (w : Text) (ws : List Text)
    → all is_plain_word (w ∷ ws) ≡ true
    → normalize_command_tokens (in_shell dir s (w ∷ ws)) ≡ in_shell dir s (w ∷ ws)
unfolding normalize_command_tokens
normalize-in_shell dir s w ws h =
    let (path, some_path) = shell_path-trimmed dir s in
    let (line, some_line) = join-trimmed w ws h in
    rw (path, some_path, flag, line, some_line) (rw some_flag refl)
  where
    flag : trim (codes "-lc") ≡ codes "-lc"
    flag = unfold trim in refl

    some_flag : is_empty (codes "-lc") ≡ false
    some_flag = unfold is_empty in refl

canonicalize-in_shell :
    (dir : Option Text) (s : Shell) (w : Text) (ws : List Text)
    → all is_plain_word (w ∷ ws) ≡ true
    → canonicalize_command_tokens (in_shell dir s (w ∷ ws)) ≡ canonicalize_command_tokens (w ∷ ws)
canonicalize-in_shell dir s w ws h =
    canonicalize-unwrapped (in_shell dir s (w ∷ ws))
    ∙ rw (normalize-in_shell dir s w ws h) (rw (wrapped) inner)
  where
    wrapped : is_wrapped (in_shell dir s (w ∷ ws)) ≡ true
    wrapped = unfold is_wrapped in is_shell-shell_path dir s

    one_token : join (join (w ∷ ws) ∷ []) ≡ join (w ∷ ws)
    one_token = unfold join in refl

    inner :
        canonicalize_command_tokens (split_command_line (join (drop 2 (in_shell dir s (w ∷ ws)))))
        ≡ canonicalize_command_tokens (w ∷ ws)
    inner =
        ap canonicalize_command_tokens
          (ap split_command_line one_token ∙ split_command_line-join (w ∷ ws) h)

prefix-append : (p ws : List Text) → is_prefix p ws ≡ true → (rest : List Text) × (ws ≡ p ++ rest)
unfolding is_prefix
prefix-append [] ws h = (ws, refl)
prefix-append (t ∷ p) [] h = cc
prefix-append (t ∷ p) (w ∷ ws) h =
    let (rest, e) = prefix-append p ws (ground (arith, h)) in
    (rest, cc ((eq_text_iff t w).0 (ground (arith, h)), e))

append-prefix : (p rest : List Text) → is_prefix p (p ++ rest) ≡ true
unfolding is_prefix
append-prefix [] rest = refl
append-prefix (t ∷ p) rest = ground (arith, eq_text_refl t, append-prefix p rest)

-- The test of one prefix, when it is of ordinary words.
allows-ordinary :
    (ws p : List Text)
    → is_ordinary p ≡ true
    → allows ws (canonicalize_command_tokens p) ≡ is_prefix p ws
unfolding allows
allows-ordinary ws [] h = cc
allows-ordinary ws (t ∷ p) h = rw (canonicalize-ordinary (t ∷ p) h) refl

abbrev is_allowed : List Text → List (List Text) → Bool
is_allowed ws ps = any (λ p. allows ws (canonicalize_command_tokens p)) ps

allowed-begins :
    (ws : List Text) (ps : List (List Text))
    → all is_ordinary ps ≡ true
    → is_allowed ws ps ≡ true
    → BeginsWithOne ws ps
allowed-begins ws [] h a = cc
allowed-begins ws (p ∷ ps) h a = elim (Bool-cases (is_prefix p ws)) [
  | inl e ↦ let (rest, q) = prefix-append p ws e in first rest q
  | inr e ↦ later (
      allowed-begins ws ps (ground (arith, h))
        (ground (arith, a, e, allows-ordinary ws p (ground (arith, h)))))
]

begins-allowed :
    (ws : List Text) (ps : List (List Text))
    → all is_ordinary ps ≡ true
    → BeginsWithOne ws ps
    → is_allowed ws ps ≡ true
begins-allowed ws [] h b = elim b [ ]
begins-allowed ws (p ∷ ps) h (first rest e) =
    ground (arith, allows-ordinary ws p (ground (arith, h)), begun)
  where
    begun : is_prefix p ws ≡ true
    begun = rw e (append-prefix p rest)
begins-allowed ws (p ∷ ps) h (later b) = ground (arith, begins-allowed ws ps (ground (arith, h)) b)

matches-in_shell :
    (dir : Option Text) (s : Shell) (ws : List Text) (ps : List (List Text))
    → is_ordinary ws ≡ true
    → matches_command_prefix (in_shell dir s ws) ps ≡ is_allowed ws ps
unfolding matches_command_prefix
matches-in_shell dir s [] ps h = cc
matches-in_shell dir s (w ∷ ws) ps h =
    rw (canonicalize-in_shell dir s w ws (ground (arith, h)) ∙ canonicalize-ordinary (w ∷ ws) h)
      refl

matches-ordinary :
    (ws : List Text) (ps : List (List Text))
    → is_ordinary ws ≡ true
    → matches_command_prefix ws ps ≡ is_allowed ws ps
unfolding matches_command_prefix
matches-ordinary [] ps h = cc
matches-ordinary (w ∷ ws) ps h = rw (canonicalize-ordinary (w ∷ ws) h) refl

-- A command of plain words is allowed by an allowlist of prefixes of plain words exactly when one
-- of the prefixes begins it, word by word; and it is allowed in the same cases when its words,
-- joined with blanks, are given to sh, bash or zsh with `-lc`, the shell named alone or by an
-- absolute path. A plain word is not empty and has no blank, quote or backslash; the first word of
-- the command and of each prefix is none of `npm`, `node`, `node.exe`, `mossbridge`,
-- `mossbridge.js` and the shells, nor a path whose last part is one of them, `npm` apart.
pub matches-BeginsWithOne :
    (dir : Option Text) (s : Shell) (ws : List Text) (ps : List (List Text))
    → is_ordinary ws ≡ true
    → all is_ordinary ps ≡ true
    → (matches_command_prefix (in_shell dir s ws) ps ≡ matches_command_prefix ws ps)
      × ((matches_command_prefix ws ps ≡ true) ↔ BeginsWithOne ws ps)
matches-BeginsWithOne dir s ws ps h k = (
  matches-in_shell dir s ws ps h ∙ sym (matches-ordinary ws ps h),
  (
    λ m. allowed-begins ws ps k (sym (matches-ordinary ws ps h) ∙ m),
    λ b. matches-ordinary ws ps h ∙ begins-allowed ws ps k b,
  ),
)
