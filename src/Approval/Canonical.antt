-- ===== src/Approval/Canonical.antt =====
-- `canonicalizeCommandTokens` ends, and sees through the shells around a command.
use mossbridge.Prelude.{
  ℕ, Text, List, some, true, false, if◌then◌else◌, drop, ◌≤◌, ◌<◌, ◌+◌, ◌≡◌, refl, sym, ap, ◌∙◌,
  inl, inr, Bool-cases, arith, zero, suc,
}
use mossbridge.Approval.{
  split_command_line, join, normalize_command_tokens, is_wrapped, plain_form, canonicalize_within,
  or_nothing, canonicalize_command_tokens, size,
}
use mossbridge.Approval.Words.{size-normalize, size-unwrapped}

-- The command inside a shell.
abbrev pub unwrapped : List Text → List Text
unwrapped tokens = split_command_line (join (drop 2 (normalize_command_tokens tokens)))

smaller :
    (tokens : List Text)
    → is_wrapped (normalize_command_tokens tokens) ≡ true
    → size (unwrapped tokens) + 2 ≤ size tokens
smaller tokens h =
    omega (arith, size-unwrapped (normalize_command_tokens tokens) h, size-normalize tokens)

same_within :
    (n m : ℕ) (tokens : List Text)
    → size tokens < n
    → size tokens < m
    → canonicalize_within n tokens ≡ canonicalize_within m tokens
unfolding canonicalize_within
same_within zero m tokens h k = absurd (omega (arith, h))
same_within (suc n) zero tokens h k = absurd (omega (arith, k))
same_within (suc n) (suc m) tokens h k =
    elim (Bool-cases (is_wrapped (normalize_command_tokens tokens))) [
      | inl e ↦ rw e (
          same_within n m (unwrapped tokens) (omega (arith, h, smaller tokens e))
            (omega (arith, k, smaller tokens e)))
      | inr e ↦ rw e refl
    ]

ends_within :
    (n : ℕ) (tokens : List Text)
    → size tokens < n
    → (r : List Text) × (canonicalize_within n tokens ≡ some r)
unfolding canonicalize_within
ends_within zero tokens h = absurd (omega (arith, h))
ends_within (suc n) tokens h = elim (Bool-cases (is_wrapped (normalize_command_tokens tokens))) [
  | inl e ↦ rw e (ends_within n (unwrapped tokens) (omega (arith, h, smaller tokens e)))
  | inr e ↦ (plain_form (normalize_command_tokens tokens), rw e refl)
]

-- Any bound on the shells taken off that is more than the size of the tokens is enough:
-- `canonicalizeCommandTokens` ends, and with the same result for every such bound. The size counts
-- a token's characters and one more for each token.
pub canonicalize_within-enough :
    (n : ℕ) (tokens : List Text)
    → size tokens < n
    → canonicalize_within n tokens ≡ some (canonicalize_command_tokens tokens)
unfolding canonicalize_command_tokens
canonicalize_within-enough n tokens h =
    let (r, e) = ends_within (suc (size tokens)) tokens (omega arith) in
    same_within n (suc (size tokens)) tokens h (omega arith) ∙ e ∙ ap some (sym (ap or_nothing e))

one_shell :
    (n : ℕ) (tokens : List Text)
    → is_wrapped (normalize_command_tokens tokens) ≡ true
    → canonicalize_within (suc n) tokens ≡ canonicalize_within n (unwrapped tokens)
unfolding canonicalize_within
one_shell n tokens e = rw e refl

no_shell :
    (tokens : List Text)
    → is_wrapped (normalize_command_tokens tokens) ≡ false
    → canonicalize_command_tokens tokens ≡ plain_form (normalize_command_tokens tokens)
unfolding canonicalize_command_tokens canonicalize_within
no_shell tokens e = rw e refl

inside :
    (tokens : List Text)
    → is_wrapped (normalize_command_tokens tokens) ≡ true
    → some (canonicalize_command_tokens tokens)
      ≡ some (canonicalize_command_tokens (unwrapped tokens))
inside tokens e =
    sym (canonicalize_within-enough (suc (size tokens)) tokens (omega arith))
    ∙ one_shell (size tokens) tokens e
    ∙ canonicalize_within-enough (size tokens) (unwrapped tokens) (omega (arith, smaller tokens e))

-- With the bound that is chosen, `canonicalizeCommandTokens` satisfies the equation of its source
-- without one: a wrapped command has the form of the command inside, any other has the plain form
-- of its tokens.
pub canonicalize-unwrapped :
    (tokens : List Text)
    → canonicalize_command_tokens tokens ≡ (
        if is_wrapped (normalize_command_tokens tokens)
        then canonicalize_command_tokens (unwrapped tokens)
        else plain_form (normalize_command_tokens tokens))
canonicalize-unwrapped tokens = elim (Bool-cases (is_wrapped (normalize_command_tokens tokens))) [
  | inl e ↦ rw e (ap or_nothing (inside tokens e))
  | inr e ↦ rw e (no_shell tokens e)
]
