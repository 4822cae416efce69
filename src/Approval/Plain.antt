-- ===== src/Approval/Plain.antt =====
-- Commands of plain words, and the form in which they are compared.
use mossbridge.Approval.{
  normalize_command_tokens, join, base_name, is_shell_wrapper, is_wrapped, token_at, npm_form,
  node_form, mossbridge_form, plain_form, canonicalize_command_tokens,
}
use mossbridge.Approval.Words.{is_plain_char, is_plain_word}
use mossbridge.Approval.Canonical.{canonicalize-unwrapped}
use mossbridge.Prelude.{
  is_ink, trim-ink, Text, codes, trim, trim-between, is_empty, eq_text, List, [], ◌∷◌, ◌++◌, Bool,
  true, false, not, ◌&&◌, any, all, ◌≡◌, refl, ap, ◌∙◌, arith,
}

abbrev pub special_names : List Text
special_names =
    codes "node"
    ∷ codes "node.exe"
    ∷ codes "mossbridge"
    ∷ codes "mossbridge.js"
    ∷ codes "sh"
    ∷ codes "bash"
    ∷ codes "zsh"
    ∷ []

-- Words that are plain, the first not a name that the code treats in a way of its own.
abbrev pub is_ordinary : List Text → Bool
is_ordinary [] = false
is_ordinary (w ∷ ws) =
    not (eq_text w (codes "npm"))
    && not (any (λ n. eq_text (base_name w) n) special_names)
    && all is_plain_word (w ∷ ws)

plain-ink : (w : Text) → all is_plain_char w ≡ true → is_ink w ≡ true
plain-ink [] h = refl
plain-ink (c ∷ w) h = ground (arith, h, plain-ink w)

pub plain_trimmed : (w : Text) → all is_plain_char w ≡ true → trim w ≡ w
plain_trimmed w h = trim-ink w (plain-ink w h)

pub normalize-plain :
    (ws : List Text) → all is_plain_word ws ≡ true → normalize_command_tokens ws ≡ ws
unfolding normalize_command_tokens
normalize-plain [] h = refl
normalize-plain (w ∷ ws) h =
    rw (plain_trimmed w (ground (arith, h)), not_empty (ground (arith, h)))
      (ap (λ (l : List Text). w ∷ l) (normalize-plain ws (ground (arith, h))))
  where
    not_empty : is_empty w ≡ false → is_empty w ≡ false
    not_empty q = q

-- Plain words that are joined have no blank ends, and are not nothing.
pub join-trimmed :
    (w : Text) (ws : List Text)
    → all is_plain_word (w ∷ ws) ≡ true
    → (trim (join (w ∷ ws)) ≡ join (w ∷ ws)) × (is_empty (join (w ∷ ws)) ≡ false)
unfolding join
join-trimmed w [] h = (plain_trimmed w (ground (arith, h)), ground (arith, h))
join-trimmed w (u ∷ ws) h =
    let (trimmed, some_text) = join-trimmed u ws (ground (arith, h)) in
    (
      trim-between w (32 ∷ []) (join (u ∷ ws)) (plain_trimmed w (ground (arith, h))) trimmed
          (ground (arith, h)) some_text,
      append_not_empty w (32 ∷ join (u ∷ ws)) (ground (arith, h)),
    )
  where
    append_not_empty : (a b : Text) → is_empty a ≡ false → is_empty (a ++ b) ≡ false
    append_not_empty [] b q = unfold is_empty in cc q
    append_not_empty (c ∷ a) b q = unfold is_empty in refl

not_wrapped : (ws : List Text) → is_ordinary ws ≡ true → is_wrapped ws ≡ false
unfolding is_wrapped is_shell_wrapper
not_wrapped [] h = refl
not_wrapped (w ∷ []) h = refl
not_wrapped (w ∷ u ∷ []) h = refl
not_wrapped (w ∷ u ∷ v ∷ ws) h = ground (arith, h)

plain_form-ordinary : (ws : List Text) → is_ordinary ws ≡ true → plain_form ws ≡ ws
unfolding plain_form npm_form node_form mossbridge_form token_at
plain_form-ordinary [] h = refl
plain_form-ordinary (w ∷ ws) h = rw (plain_trimmed w (ground (arith, h))) (ground (arith, h))

pub canonicalize-ordinary :
    (ws : List Text) → is_ordinary ws ≡ true → canonicalize_command_tokens ws ≡ ws
canonicalize-ordinary [] h = cc
canonicalize-ordinary (w ∷ ws) h =
    canonicalize-unwrapped (w ∷ ws)
    ∙ rw (normalize-plain (w ∷ ws) (ground (arith, h)), not_wrapped (w ∷ ws) h)
        (plain_form-ordinary (w ∷ ws) h)
