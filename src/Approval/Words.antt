-- ===== src/Approval/Words.antt =====
-- `splitCommandLine` and `join`: their sizes, and the words that come back.
use mossbridge.Prelude.{
  ℕ, Text, length-trim, is_empty, List, [], ◌∷◌, ◌++◌, Option, none, some, Bool, true, false, not,
  ◌&&◌, ◌==◌, length, length-append, drop, ◌≤◌, ◌+◌, ◌≡◌, refl, sym, ap, ◌∙◌, inl, inr, Bool-cases,
  arith, is_space, all, append_assoc, append-nil,
}
use mossbridge.Approval.{
  Scan, start, add_char, push_current, step_plain, step, scan, split_command_line, join,
  normalize_command_tokens, is_wrapped, size,
}

size-append : (ts us : List Text) → size (ts ++ us) ≡ size ts + size us
size-append [] us = omega arith
size-append (t ∷ ts) us = omega (arith, size-append ts us)

pub size-normalize : (ts : List Text) → size (normalize_command_tokens ts) ≤ size ts
unfolding normalize_command_tokens
size-normalize [] = omega arith
size-normalize (t ∷ ts) = ground (arith, size-normalize ts, length-trim t)

weight : Scan → ℕ
weight s = size s.tokens + length s.current

size-push_current : (s : Scan) → size (push_current s).tokens ≤ weight s + 1
unfolding push_current weight
size-push_current s = elim (Bool-cases (is_empty s.current)) [
  | inl e ↦ rw e (omega arith)
  | inr e ↦ rw e (omega (arith, size-append s.tokens (s.current ∷ [])))
]

weight-push_current : (s : Scan) → weight (push_current s) ≤ weight s + 1
unfolding push_current weight
weight-push_current s = elim (Bool-cases (is_empty s.current)) [
  | inl e ↦ rw e (omega arith)
  | inr e ↦ rw e (omega (arith, size-append s.tokens (s.current ∷ [])))
]

weight-add_char : (s : Scan) (c : ℕ) → weight (add_char s c) ≤ weight s + 1
unfolding add_char weight
weight-add_char s c = omega (arith, length-append s.current (c ∷ []))

weight-step_plain : (q : Option ℕ) (s : Scan) (c : ℕ) → weight (step_plain q s c) ≤ weight s + 1
unfolding step_plain weight
weight-step_plain (some q) s c = ground (arith, weight-add_char s c)
weight-step_plain none s c = ground (arith, weight-add_char s c, weight-push_current s)

weight-step : (s : Scan) (c : ℕ) → weight (step s c) ≤ weight s + 1
unfolding step weight
weight-step s c = ground (arith, weight-add_char s c, weight-step_plain s.quote s c)

weight-scan : (s : Scan) (t : Text) → weight (scan s t) ≤ weight s + length t
unfolding scan
weight-scan s [] = omega arith
weight-scan s (c ∷ t) = omega (arith, weight-scan (step s c) t, weight-step s c)

pub size-split_command_line : (t : Text) → size (split_command_line t) ≤ length t + 1
unfolding split_command_line start weight
size-split_command_line t = omega (arith, size-push_current (scan start t), weight-scan start t)

length-join : (t : Text) (ts : List Text) → length (join (t ∷ ts)) + 1 ≡ size (t ∷ ts)
unfolding join
length-join t [] = omega arith
length-join t (u ∷ ts) = omega (arith, length-append t (32 ∷ join (u ∷ ts)), length-join u ts)

-- A shell that is taken off leaves a smaller command.
pub size-unwrapped :
    (words : List Text)
    → is_wrapped words ≡ true
    → size (split_command_line (join (drop 2 words))) + 2 ≤ size words
unfolding is_wrapped
size-unwrapped [] h = absurd (cc h)
size-unwrapped (a ∷ []) h = absurd (cc h)
size-unwrapped (a ∷ b ∷ []) h = absurd (cc h)
size-unwrapped (a ∷ b ∷ c ∷ ts) h =
    omega (arith, size-split_command_line (join (c ∷ ts)), length-join c ts)

-- A character that the loop only adds to the word.
abbrev pub is_plain_char : ℕ → Bool
is_plain_char c = not (is_space c) && not (c == 34) && not (c == 39) && not (c == 92)

abbrev pub is_plain_word : Text → Bool
is_plain_word w = not (is_empty w) && all is_plain_char w

reading : List Text → Text → Scan
reading tokens current = record {
  tokens = tokens;
  current = current;
  quote = none;
  escaped = false;
}

step_char :
    (tokens : List Text) (current : Text) (c : ℕ)
    → is_plain_char c ≡ true
    → step (reading tokens current) c ≡ reading tokens (current ++ c ∷ [])
unfolding reading step step_plain add_char
step_char tokens current c h = ground arith

scan_word :
    (tokens : List Text) (current w rest : Text)
    → all is_plain_char w ≡ true
    → scan (reading tokens current) (w ++ rest) ≡ scan (reading tokens (current ++ w)) rest
unfolding scan
scan_word tokens current [] rest h =
    ap (λ (x : Text). scan (reading tokens x) rest) (sym (append-nil current))
scan_word tokens current (c ∷ w) rest h =
    ap (λ (s : Scan). scan s (w ++ rest)) (step_char tokens current c (ground arith))
    ∙ scan_word tokens (current ++ c ∷ []) w rest (ground arith)
    ∙ ap (λ (x : Text). scan (reading tokens x) rest) (append_assoc current (c ∷ []) w)

-- A blank ends the word.
scan_blank :
    (tokens : List Text) (w rest : Text)
    → is_empty w ≡ false
    → scan (reading tokens w) (32 ∷ rest) ≡ scan (reading (tokens ++ w ∷ []) []) rest
unfolding scan reading step step_plain push_current is_space
scan_blank tokens w rest h = rw h refl

last_word :
    (tokens : List Text) (w : Text)
    → is_empty w ≡ false
    → (push_current (reading tokens w)).tokens ≡ tokens ++ w ∷ []
unfolding reading push_current
last_word tokens w h = rw h refl

scan_words :
    (tokens : List Text) (w : Text) (ws : List Text)
    → all is_plain_word (w ∷ ws) ≡ true
    → (push_current (scan (reading tokens []) (join (w ∷ ws)))).tokens ≡ tokens ++ w ∷ ws
unfolding join
scan_words tokens w [] h =
    ap (λ (x : Text). (push_current (scan (reading tokens []) x)).tokens) (sym (append-nil w))
    ∙ ap (λ (s : Scan). (push_current s).tokens) (scan_word tokens [] w [] (ground arith))
    ∙ ended
  where
    ended : (push_current (scan (reading tokens w) [])).tokens ≡ tokens ++ w ∷ []
    ended = unfold scan in last_word tokens w (ground arith)
scan_words tokens w (u ∷ ws) h =
    ap (λ (s : Scan). (push_current s).tokens)
      (scan_word tokens [] w (32 ∷ join (u ∷ ws)) (ground arith)
        ∙ scan_blank tokens w (join (u ∷ ws)) (ground arith))
    ∙ scan_words (tokens ++ w ∷ []) u ws (ground arith)
    ∙ append_assoc tokens (w ∷ []) (u ∷ ws)

-- Words that are not empty, without blanks, quotes and backslashes, come back when they are joined
-- with blanks and split again.
pub split_command_line-join :
    (ws : List Text) → all is_plain_word ws ≡ true → split_command_line (join ws) ≡ ws
unfolding split_command_line start
split_command_line-join [] h = unfold join scan push_current is_empty in refl
split_command_line-join (w ∷ ws) h = unfold reading in scan_words [] w ws h
