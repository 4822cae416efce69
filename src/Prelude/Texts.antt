-- ===== src/Prelude/Texts.antt =====
-- A JavaScript string as the list of its UTF-16 units, with the string methods that the program
-- calls: `trim`, `===`, `includes`, and `a || b` on strings.
use mossbridge.Prelude.Lists.{length}
use Prim.Native.Nat.{ℕ, suc, ◌≤◌, ◌<◌}
use Prim.Native.Char.{code}
use Prim.Native.String.{String}
use mathlib.Core.Path.{◌≡◌, refl, ap, ◌∙◌, subst}
use mathlib.Core.Logic.{◌↔◌, ◌≢◌, inl, inr}
use mathlib.Core.Bool.{not, Bool, true, false, ◌&&◌, ◌||◌}
use mathlib.Core.List.{List, [], ◌∷◌, ◌++◌, append_assoc, append-nil}
use native.Mathlib.Omega.{arith}
use mossbridge.Prelude.Tests.{leb, ◌==◌, if◌then◌else◌, Bool-cases}

abbrev pub Text : Type 0
Text = List ℕ

-- The units of a literal of the source.
abbrev pub codes : String → Text
codes String.[] = []
codes (String.◌∷◌ c s) = code c ∷ codes s

unfoldable pub eq_text : Text → Text → Bool
eq_text [] [] = true
eq_text [] (_ ∷ _) = false
eq_text (_ ∷ _) [] = false
eq_text (a ∷ s) (b ∷ t) = a == b && eq_text s t

pub eq_text_refl : (s : Text) → eq_text s s ≡ true
unfolding eq_text
eq_text_refl [] = refl
eq_text_refl (a ∷ s) = ground (arith, eq_text_refl s)

eq_text_sound : (s t : Text) → eq_text s t ≡ true → s ≡ t
unfolding eq_text
eq_text_sound [] [] h = refl
eq_text_sound [] (_ ∷ _) h = cc
eq_text_sound (_ ∷ _) [] h = cc
eq_text_sound (a ∷ s) (b ∷ t) h = ground (arith, eq_text_sound s t)

pub eq_text_iff : (s t : Text) → (eq_text s t ≡ true) ↔ (s ≡ t)
eq_text_iff s t = (eq_text_sound s t, λ e. subst_right e)
  where
    subst_right : s ≡ t → eq_text s t ≡ true
    subst_right e = rw (← e) (eq_text_refl s)

pub eq_text-false : (s t : Text) → eq_text s t ≡ false → s ≢ t
eq_text-false s t h e = cc (h, (eq_text_iff s t).1 e)

pub ne-eq_text : (s t : Text) → s ≢ t → eq_text s t ≡ false
ne-eq_text s t h = elim (Bool-cases (eq_text s t)) [
  | inl e ↦ absurd (h ((eq_text_iff s t).0 e))
  | inr e ↦ e
]

unfoldable pub is_empty : Text → Bool
is_empty [] = true
is_empty (_ ∷ _) = false

-- White space and line terminators, as `trim` and `\s` read them.
unfoldable pub is_space : ℕ → Bool
is_space c =
    leb 9 c && leb c 13
    || c == 32
    || c == 160
    || c == 0x1680
    || leb 0x2000 c && leb c 0x200a
    || c == 0x2028
    || c == 0x2029
    || c == 0x202f
    || c == 0x205f
    || c == 0x3000
    || c == 0xfeff

trim_start : Text → Text
trim_start [] = []
trim_start (c ∷ s) = if is_space c then trim_start s else c ∷ s

-- Put a unit in front, unless it is white space in front of nothing.
push_unless_blank : ℕ → Text → Text
push_unless_blank c [] = if is_space c then [] else c ∷ []
push_unless_blank c (d ∷ s) = c ∷ d ∷ s

trim_end : Text → Text
trim_end [] = []
trim_end (c ∷ s) = push_unless_blank c (trim_end s)

unfoldable pub trim : Text → Text
unfolding is_space trim_start trim_end push_unless_blank
trim s = trim_end (trim_start s)

trim_end-push :
    (c : ℕ) (s : Text) → trim_end s ≡ s → trim_end (push_unless_blank c s) ≡ push_unless_blank c s
unfolding trim_end push_unless_blank
trim_end-push c [] h = elim (Bool-cases (is_space c)) [ inl e ↦ rw e | inr e ↦ rw (e, e) ]
trim_end-push c (d ∷ s) h = rw h

trim_end-trim_end : (s : Text) → trim_end (trim_end s) ≡ trim_end s
unfolding trim_end
trim_end-trim_end [] = refl
trim_end-trim_end (c ∷ s) = trim_end-push c (trim_end s) (trim_end-trim_end s)

push_ink : (c : ℕ) (s : Text) → is_space c ≡ false → push_unless_blank c s ≡ c ∷ s
unfolding push_unless_blank
push_ink c [] h = rw h
push_ink c (d ∷ s) h = refl

trim_start-trim_end : (s : Text) → trim_start (trim_end (trim_start s)) ≡ trim_end (trim_start s)
unfolding trim_start trim_end
trim_start-trim_end [] = refl
trim_start-trim_end (c ∷ s) = elim (Bool-cases (is_space c)) [
  | inl e ↦ rw e (trim_start-trim_end s)
  | inr e ↦ rw (e, push_ink c (trim_end s) e, e)
]

-- Trimming a trimmed text changes nothing.
pub trim-trim : (s : Text) → trim (trim s) ≡ trim s
unfolding trim
trim-trim s = ap trim_end (trim_start-trim_end s) ∙ trim_end-trim_end (trim_start s)

-- `s.startsWith(p)`.
unfoldable pub starts_with : Text → Text → Bool
starts_with _ [] = true
starts_with [] (_ ∷ _) = false
starts_with (c ∷ s) (d ∷ p) = c == d && starts_with s p

-- `s.includes(p)`.
unfoldable pub includes : Text → Text → Bool
unfolding starts_with
includes [] p = is_empty p
includes (c ∷ s) p = starts_with (c ∷ s) p || includes s p

-- `s.endsWith(p)`.
unfoldable pub ends_with : Text → Text → Bool
ends_with [] p = is_empty p
ends_with (c ∷ s) p = eq_text (c ∷ s) p || ends_with s p

-- `a || b`, where the empty string is false.
unfoldable pub or_text : Text → Text → Text
or_text [] b = b
or_text (c ∷ s) b = c ∷ s

pub ruleset text_laws = (eq_text_iff, eq_text_refl)

trimmed_start : (s : Text) → trim s ≡ s → trim_start s ≡ s
unfolding trim
trimmed_start s h = rw h at (trim_start-trim_end s)

trimmed_end : (s : Text) → trim s ≡ s → trim_end s ≡ s
unfolding trim
trimmed_end s h = rw h at (trim_end-trim_end (trim_start s))

-- `trim_start` never returns a text longer than it got, so a blank first unit goes.
trim_start-ink : (c : ℕ) (s : Text) → trim_start (c ∷ s) ≡ c ∷ s → is_space c ≡ false
unfolding trim_start
trim_start-ink c s h = elim (Bool-cases (is_space c)) [
  | inr e ↦ e
  | inl e ↦ absurd (shorter s (c ∷ s) (rw e at h) (omega arith))
]
  where
    size : Text → ℕ
    size t = elim t [ [] ↦ 0 | x ∷ (r → ih) ↦ suc ih ]

    size-trim_start : (t : Text) → size (trim_start t) ≤ size t
    size-trim_start t = elim t as (λ t. size (trim_start t) ≤ size t) [
      | [] ↦ omega arith
      | x ∷ (r → ih) ↦ elim (Bool-cases (is_space x)) [
        | inl e ↦ rw e (omega arith)
        | inr e ↦ rw e (omega arith)
      ]
    ]

    shorter : (t u : Text) → trim_start t ≡ u → size t < size u → ⊥
    shorter t u e lt = omega (arith, size-trim_start t, ap size e)

trim_start-append :
    (c : ℕ) (s t : Text) → is_space c ≡ false → trim_start ((c ∷ s) ++ t) ≡ (c ∷ s) ++ t
unfolding trim_start
trim_start-append c s t h = rw h

push-append : (c d : ℕ) (s t : Text) → push_unless_blank c (s ++ d ∷ t) ≡ c ∷ (s ++ d ∷ t)
unfolding push_unless_blank
push-append c d [] t = refl
push-append c d (x ∷ s) t = refl

trim_end-append :
    (s : Text) (d : ℕ) (t : Text) → trim_end (d ∷ t) ≡ d ∷ t → trim_end (s ++ d ∷ t) ≡ s ++ d ∷ t
trim_end-append [] d t h = h
trim_end-append (c ∷ s) d t h = pushed (trim_end-append s d t h)
  where
    pushed : trim_end (s ++ d ∷ t) ≡ s ++ d ∷ t → trim_end (c ∷ (s ++ d ∷ t)) ≡ c ∷ (s ++ d ∷ t)
    pushed e = unfold trim_end in rw (e, push-append c d s t)

-- No unit of the text is white space.
abbrev pub is_ink : Text → Bool
is_ink [] = true
is_ink (c ∷ s) = not (is_space c) && is_ink s

trim_end-ink : (s : Text) → is_ink s ≡ true → trim_end s ≡ s
unfolding trim_end
trim_end-ink [] h = refl
trim_end-ink (c ∷ s) h = rw (trim_end-ink s (ground (arith, h))) (push_ink c s (ground (arith, h)))

pub trim-ink : (s : Text) → is_ink s ≡ true → trim s ≡ s
unfolding trim trim_start
trim-ink [] h = refl
trim-ink (c ∷ s) h = rw (inked (ground (arith, h))) (trim_end-ink (c ∷ s) h)
  where
    inked : is_space c ≡ false → is_space c ≡ false
    inked q = q

-- A text between two trimmed texts that are not empty has no blank ends.
pub trim-between :
    (a m w : Text)
    → trim a ≡ a
    → trim w ≡ w
    → is_empty a ≡ false
    → is_empty w ≡ false
    → trim (a ++ (m ++ w)) ≡ a ++ (m ++ w)
unfolding is_empty
trim-between [] m w ha hw ea ew = cc
trim-between (c ∷ a) m [] ha hw ea ew = cc
trim-between (c ∷ a) m (d ∷ w) ha hw ea ew =
    rw
      (
        open_trim ((c ∷ a) ++ (m ++ d ∷ w)),
        trim_start-append c a (m ++ d ∷ w) (trim_start-ink c a (trimmed_start (c ∷ a) ha)),
        ← append_assoc (c ∷ a) m (d ∷ w),
      )
      (trim_end-append ((c ∷ a) ++ m) d w (trimmed_end (d ∷ w) hw))
  where
    open_trim : (s : Text) → trim s ≡ trim_end (trim_start s)
    open_trim s = unfold trim in refl

starts_with_nothing : (t : Text) → starts_with t [] ≡ true
unfolding starts_with
starts_with_nothing [] = refl
starts_with_nothing (c ∷ t) = refl

starts_with_start : (s t : Text) → starts_with (s ++ t) s ≡ true
unfolding starts_with
starts_with_start [] t = starts_with_nothing t
starts_with_start (c ∷ s) t = ground (arith, starts_with_start s t)

-- A text includes each text that it starts or ends with.
pub includes_start : (s t : Text) → includes (s ++ t) s ≡ true
unfolding includes is_empty
includes_start [] [] = refl
includes_start [] (c ∷ t) = rw (starts_with_nothing (c ∷ t)) refl
includes_start (c ∷ s) t = rw (starts_with_start (c ∷ s) t) refl

pub includes_end : (a s : Text) → includes (a ++ s) s ≡ true
unfolding includes
includes_end [] s = subst (λ (x : Text). includes x s ≡ true) (append-nil s) (includes_start s [])
includes_end (c ∷ a) s = ground (arith, includes_end a s)

length-trim_start : (s : Text) → length (trim_start s) ≤ length s
unfolding trim_start
length-trim_start [] = omega arith
length-trim_start (c ∷ s) = ground (arith, length-trim_start s)

length-push : (c : ℕ) (s : Text) → length (push_unless_blank c s) ≤ suc (length s)
unfolding push_unless_blank
length-push c [] = ground arith
length-push c (d ∷ s) = omega arith

length-trim_end : (s : Text) → length (trim_end s) ≤ length s
unfolding trim_end
length-trim_end [] = omega arith
length-trim_end (c ∷ s) = omega (arith, length-push c (trim_end s), length-trim_end s)

pub length-trim : (s : Text) → length (trim s) ≤ length s
unfolding trim
length-trim s = omega (arith, length-trim_end (trim_start s), length-trim_start s)
